-- ===== src/Tests.antt =====
-- Concrete runs of the definitions and of the theorems about them.
mod Store
mod Tables
mod Timers
mod Locks
mod Requests
mod Sessions
mod Receptions
mod Writes
mod Clients
mod Objects
mod Directories
mod Disposals
