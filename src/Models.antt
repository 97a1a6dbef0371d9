-- ===== src/Models.antt =====
-- The rows of the database (backend/app/models), with the columns that the modelled services read
-- or write. An identifier (UUID) and an instant (datetime) are numbers, a nullable column is an
-- option, a JSON column is its text.
mod Billing
mod Tenancy
mod Campaigns
mod Messaging
mod Assignment
mod Tables
mod People
pub use Billing.*
pub use Tenancy.*
pub use Campaigns.*
pub use Messaging.*
pub use Assignment.*
pub use Tables.*
pub use People.*
