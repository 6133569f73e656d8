-- ===== src/Manager/Apps.antt =====
-- The applications of the container on the desktop (manager/communication/).
pub mod Desktop
pub mod Renaming
pub mod Icon
pub mod Install
pub mod Installing
pub mod Library
