-- ===== src/Drivers.antt =====
-- src/drivers: the storage driver, the file system under it, and signing.
pub mod PosixPath
pub mod Paths
pub mod FileSystem
pub mod Layout
pub mod Stream
pub mod LocalFs
pub mod Registry
pub mod Signing
pub mod Quote
