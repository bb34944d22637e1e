-- ===== src/Client.antt =====
-- The client: packages client/fsys and client/event.
pub mod Direct
pub mod Downloads
pub mod Event
pub mod Multi
pub mod Nanny
pub mod Replace
pub mod Serving
pub mod Settings
pub mod Share
