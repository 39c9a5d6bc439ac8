-- ===== src/Notifier.antt =====
-- The notifier (services/notifier/src/notifier).
pub mod Domain
pub mod Models
pub mod Gateway
pub mod Consumer
pub mod Outcomes
pub mod Repeats
pub mod Stream
pub mod Rows
pub mod Accounts
pub mod Turns
pub mod Lossless
pub mod Redeliveries
pub mod Turnover
pub mod Http
mod Examples
