-- ===== src/Access/Tests.antt =====
-- Runs of the access checks.
use watesly.Base.{true, ◌≡◌, ◌↔◌, refl, ok}
use watesly.Fixtures.{sample, the_agent, north_account, spring}
use watesly.Access.{
  ensure_whatsapp_account_access, ensure_campaign_access, passes, campaign_list_filters,
}
use watesly.Access.Checks.{MayUseWhatsAppAccount, ensure_whatsapp_account_access_iff}
use watesly.Access.Lists.{campaign_list_filters-ensure}

ensure_whatsapp_account_access_example :
    (ensure_whatsapp_account_access sample 1 the_agent 3 ≡ ok north_account)
    ↔ MayUseWhatsAppAccount sample 1 the_agent 3 north_account
ensure_whatsapp_account_access_example =
    ensure_whatsapp_account_access_iff sample 1 the_agent 3 north_account

campaign_list_filters-ensure_example :
    (passes (campaign_list_filters sample 1 the_agent) spring ≡ true)
    ↔ (ensure_campaign_access sample 1 the_agent spring ≡ ok tt)
campaign_list_filters-ensure_example =
    campaign_list_filters-ensure sample 1 the_agent north_account (refl, (refl, tt)) (refl, tt) refl
      spring refl
