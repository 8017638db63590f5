-- ===== src/Tests.antt =====
-- Runs at concrete inputs.
pub mod Codec
pub mod Setting
pub mod Discovery
pub mod PlayerList
pub mod Rooms
pub mod Guests
pub mod Network
pub mod Clients
pub mod Commands
pub mod Tokens
pub mod Printing
pub mod Meeting
pub mod Delegates
pub mod Beats
pub mod Serving
