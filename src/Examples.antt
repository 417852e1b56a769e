-- ===== src/Examples.antt =====
-- The theorems at concrete labels, tables and requests.
pub mod Data
pub mod Codes
pub mod Minted
pub mod Texts
pub mod Tables
pub mod Drawn
pub mod Reached
pub mod Answered
pub mod Registered
pub mod Logins
pub mod Boards
pub mod Boot
pub mod Views
pub mod Rendered
pub mod Visited
pub mod Requests
