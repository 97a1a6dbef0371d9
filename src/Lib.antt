-- ===== src/Lib.antt =====
-- Watesly is a service for customer messaging over WhatsApp: accounts with branches (organizations)
-- and members, channels, contacts, templates, and marketing campaigns that a background task sends
-- through the Meta API. This library models the backend under backend/app and proves how it behaves.
--
-- The parts and their files:
--   Base            shared types and lemmas: Boolean tests, lists, tables of rows with a primary key
--                   (`get`, `put`, `update_where`), results and actions on a state, ORDER BY, texts.
--   Models          the rows of backend/app/models and the database as a record of tables.
--   Permissions     core/permissions.py: roles, permissions, custom permissions.
--   Access          services/membership_access.py and membership_channels.py: what a member reaches.
--   Phone           services/phone_normalize.py.
--   Reachability    services/contact_reachability.py: who may be addressed by a campaign.
--   Outbox          services/outbox.py and workers/outbox_tasks.py: events and their delivery.
--   Campaigns       services/campaigns.py: `Create` builds a campaign, `Lifecycle` moves it between
--                   its states, `Recovery` (services/campaign_recovery.py) restarts it.
--   Assignments     services/assignments.py: teams (`Teams`), rules and the automatic assignment of a
--                   conversation.
--   Billing         services/billing_period.py, billing_limits.py, mac_tracking.py and mac_usage.py:
--                   periods, charges, and (`Activity`) the contacts that count in a period.
--   Employees       services/team.py: whom a member may manage, changing (`Update`), creating and
--                   inviting (`Invite`, `Capacity`) and accepting (`Accept`).
--   Inbound         services/inbound_whatsapp.py and find_contact of services/contacts.py: one message
--                   of a contact, and from services/whatsapp.py the loops over the messages
--                   (`receive`) and over the reported statuses (`Statuses`) of a webhook.
--   Worker          workers/campaign_tasks.py: the task that sends a campaign, row by row.
--   Fixtures        sample rows for the tests.
--
-- How they interact. Campaign requests find their campaign through the checks of Access, create and
-- start it, and write events to the outbox in the same transaction. The task of Worker reads the
-- campaign before every message, so that a pause, a cancellation or a newer task stops it; it writes
-- what it learns of a contact through Reachability, and numbers through Phone. Recovery gives a
-- campaign a new token, which makes the old task stale. A message of a contact passes through Phone,
-- finds or makes the contact and its conversation, lets Assignments give the conversation to a member
-- and Billing count the contact. A status report comes back to the message that Worker sent and, by
-- Reachability, to the contact.
--
-- How code becomes definitions. A service function that writes is an `Action Database`, a function
-- from the database to a result with the new database; `ValueError(code)` is `err code`, and an
-- error carries no database since the session is dropped without a commit; a row that breaks a
-- unique constraint gives the error `integrity_conflict`. A function that only reads is a function
-- of the database. A query without ORDER BY returns the rows in the order of the table. The
-- changes of members are functions from the tables to a `Result` with the tables; one row is one
-- object of the session, so an actor that changes itself is seen as changed by the later checks.
-- Ids, tokens, instants and durations are natural numbers (instants in seconds, in the billing
-- periods dates with a time of day); a fresh id, a fresh token and the clock are arguments. A text
-- is a string, or its code points where the code looks at characters; what Python's `str` and `re`
-- do beyond ASCII is the record `PythonText`.
--
-- Code outside the repository is a parameter: the event bus is the outcome of each publication, the
-- task queue the id that it returns, the Meta API the `reply` of an `Environment`, and what other
-- transactions commit between two reads of the task its `other`. The rows that others have locked
-- when a batch is read are its `locked`, and the objects that the ORM session gives for the rows of
-- the query its `held`, since a session that holds an object does not load its row again; what is
-- taken from the ORM is that such an object has the primary key of its row (`HoldsKeys`). Between two
-- reads the task is taken to run alone.
--
-- Bounds and fuel. The task's loop has no bound of its own, since a message that is refused for the
-- moment is queued again; `run_batches` takes the number of turns as fuel and gives no status when
-- they are used up, and what is proved of it holds for every number. The search for a billing period
-- goes on by a month at least on each turn, so `period_fuel`, the months of the subscription and two,
-- is enough. Every other loop is over a list.
--
-- Not modelled: routes and schemas beyond the request of a campaign, migrations, the Meta clients,
-- realtime notices, e-mail, reports and exports, catalog and CRM, conversations beyond their
-- assignment, the summaries of billing and payments, automations, the texts and media of messages, and
-- the web client. Of the inbound webhooks the ingress and its retries are left out, and so is what
-- follows a stored message (notices, automations, the opt-out from marketing).
pub mod Access
pub mod Assignments
pub mod Base
pub mod Billing
pub mod Campaigns
pub mod Employees
pub mod Fixtures
pub mod Inbound
pub mod Models
pub mod Outbox
pub mod Permissions
pub mod Phone
pub mod Reachability
pub mod Worker
