-- ===== src/Tests.antt =====
-- Small databases, and the theorems of the development at them.
mod Sample
mod Reservations
mod Assignments
mod Capacities
mod Events
mod Reporting
mod Runs
mod Edges
mod Callers
mod Gate
mod Caching
