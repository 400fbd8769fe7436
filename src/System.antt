-- ===== src/System.antt =====
-- The services together: every write of the API as a request, and runs of requests.
pub mod Inserted
pub mod Sound
pub mod Registered
pub mod Admitted
pub mod Filed
pub mod Requests
pub mod Reachable
pub mod Race
pub mod Rivalry
