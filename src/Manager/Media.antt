-- ===== src/Manager/Media.antt =====
-- The media files of the container, as the manager keeps them (manager/communication/
-- controlmanager.cpp).
pub mod Table
pub mod Paths
pub mod Sync
pub mod Lookup
pub mod Steps
pub mod Directory
pub mod Shows
pub mod Refinement
pub mod Dump
