-- ===== src/Tests.antt =====
-- The theorems at concrete inputs: machines to run the clients on, and an instance of each theorem.
pub mod Machines
pub mod Wire
pub mod Texts
pub mod Plans
pub mod Leaks
pub mod Bodies
pub mod Requests
pub mod Signing
pub mod Clients
pub mod Runs
pub mod Sent
