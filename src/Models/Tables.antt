-- ===== src/Models/Tables.antt =====
-- The tables that one session sees, and the primary keys of their rows.
use watesly.Base.{List, Row}
use watesly.Models.Tenancy.{
  Membership, Organization, OrganizationMembership, MembershipChannelAccess, Channel,
  WhatsAppAccount, WhatsAppTemplate,
}
use watesly.Models.Campaigns.{Campaign, CampaignRecipient, Contact}
use watesly.Models.Messaging.{Message, Conversation, OutboxEvent}
use watesly.Models.Assignment.{Team, TeamMember, AssignmentRule}

pub record Database : Type 0 where
  pub memberships : List Membership
  pub organizations : List Organization
  pub organization_memberships : List OrganizationMembership
  pub channel_access : List MembershipChannelAccess
  pub channels : List Channel
  pub whatsapp_accounts : List WhatsAppAccount
  pub templates : List WhatsAppTemplate
  pub contacts : List Contact
  pub campaigns : List Campaign
  pub recipients : List CampaignRecipient
  pub messages : List Message
  pub conversations : List Conversation
  pub outbox : List OutboxEvent
  pub teams : List Team
  pub team_members : List TeamMember
  pub rules : List AssignmentRule

instance abbrev pub membership_row : Row Membership
membership_row = record { key = λ x. x.id }

instance abbrev pub organization_row : Row Organization
organization_row = record { key = λ x. x.id }

instance abbrev pub channel_row : Row Channel
channel_row = record { key = λ x. x.id }

instance abbrev pub whatsapp_account_row : Row WhatsAppAccount
whatsapp_account_row = record { key = λ x. x.id }

instance abbrev pub template_row : Row WhatsAppTemplate
template_row = record { key = λ x. x.id }

instance abbrev pub contact_row : Row Contact
contact_row = record { key = λ x. x.id }

instance abbrev pub campaign_row : Row Campaign
campaign_row = record { key = λ x. x.id }

instance abbrev pub recipient_row : Row CampaignRecipient
recipient_row = record { key = λ x. x.id }

instance abbrev pub conversation_row : Row Conversation
conversation_row = record { key = λ x. x.id }

instance abbrev pub outbox_row : Row OutboxEvent
outbox_row = record { key = λ x. x.id }

instance abbrev pub team_row : Row Team
team_row = record { key = λ x. x.id }

instance abbrev pub rule_row : Row AssignmentRule
rule_row = record { key = λ x. x.id }
