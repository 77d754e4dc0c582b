-- ===== src/Examples.antt =====
-- Worked examples of the theorems, and runs of the definitions on small inputs.
pub mod Data
pub mod Protocol
pub mod Lists
pub mod Sessions
pub mod Operations
pub mod Passwords
pub mod Names
pub mod Fetching
pub mod Uris
pub mod Models
pub mod Devices
pub mod Managers
pub mod Services
pub mod Decisions
pub mod Refusals
pub mod Touches
