-- ===== src/Web.antt =====
-- crates/web and crates/auth: the handlers, over the tables and the photo store.
pub mod State
pub mod Form
pub mod Duck
pub mod Flock
pub mod Auth
pub mod AdminRoutes
pub mod Pages
pub mod Config
pub mod Router
pub mod Views
pub mod Scan
