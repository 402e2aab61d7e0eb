-- ===== src/Routers.antt =====
-- src/routers/storage: the handlers of `/api/storage`.
pub mod Counting
pub mod Handlers
pub mod Reading
pub mod Checked
pub mod Signed
pub mod Writes
pub mod Protected
