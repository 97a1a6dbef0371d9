-- ===== src/Inbound/Statuses/Tests.antt =====
-- Status reports on concrete inputs.
use watesly.Base.{◌≡◌, refl, none, some, [], ◌∷◌, String, codes}
use watesly.Models.{Database, Message, MessageStatus, MessageDirection}
use watesly.Fixtures.{sample, plain_text}
use watesly.Inbound.Statuses.{
  StatusItem, apply_status, apply_statuses, update_message, update_recipient_status,
}
use watesly.Inbound.Statuses.Order.{apply_status-last_wins}

abbrev report : String → StatusItem
report t = record { id = some "wamid.9"; status = some t; detail = none }

abbrev outgoing : MessageStatus → Message
outgoing st = record {
  id = 9;
  account_id = 1;
  organization_id = 1;
  channel_id = 1;
  contact_id = none;
  conversation_id = none;
  external_message_id = some "wamid.9";
  direction = MessageDirection.outbound;
  to_address = codes "96555501234";
  status = st;
}

abbrev one_message : MessageStatus → Database
one_message st = record sample { messages = outgoing st ∷ [] }

-- A report that was overtaken on its way sets a message that was read back to sent.
late_sent :
    (apply_statuses plain_text 600
      (report "read" ∷ report "sent" ∷ [])
      (one_message MessageStatus.queued)).1.messages
    ≡ outgoing MessageStatus.sent ∷ []
unfolding apply_statuses apply_status update_message update_recipient_status
late_sent = refl

unknown_report :
    (apply_status plain_text 600 (report "warning") (one_message MessageStatus.delivered)).messages
    ≡ outgoing MessageStatus.delivered ∷ []
unfolding apply_status update_message update_recipient_status
unknown_report = refl

apply_status-last_wins_example :
    (apply_status plain_text 700
      (report "sent")
      (apply_status plain_text 600 (report "read") (one_message MessageStatus.queued))).messages
    ≡ (apply_status plain_text 700 (report "sent") (one_message MessageStatus.queued)).messages
unfolding apply_status update_message update_recipient_status
apply_status-last_wins_example =
    apply_status-last_wins plain_text 600 700 (report "read") (report "sent") "wamid.9"
      MessageStatus.sent (one_message MessageStatus.queued) refl refl refl
