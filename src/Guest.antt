-- ===== src/Guest.antt =====
-- crates/qomicex-connector/src/guest: the side that joins a room.
pub mod Tcp
pub mod Keys
pub mod Session
pub mod Requests
pub mod Joining
pub mod Member
pub mod Dialogue
pub mod Calls
pub mod Listing
pub mod Greeting
pub mod Meeting
pub mod Address
pub mod Delegates
pub mod Beating
