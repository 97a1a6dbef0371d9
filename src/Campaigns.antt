-- ===== src/Campaigns.antt =====
-- Marketing campaigns (backend/app/services/campaigns.py, campaign_recovery.py and the tier check
-- of whatsapp_window.py): `Lookup` finds a campaign and counts its recipients, `Create` builds one,
-- `Lifecycle` moves it between its states, `Recovery` restarts it.
pub mod Lookup
pub mod Lifecycle
pub mod Create
pub mod Recovery
