-- ===== src/Booking/Service.antt =====
-- services/booking/src/booking/service.py: the use cases, the only place that talks to the
-- database.
pub mod Queries
pub mod Commands
pub mod Paths
pub mod Availability
pub mod Race
pub mod Transitions
pub mod Retries
