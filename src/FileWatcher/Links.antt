-- ===== src/FileWatcher/Links.antt =====
-- filewatcher/file-watcher.cpp: the links on the desktop, and the slots that make and delete them.
pub mod FileSystem
pub mod Link
pub mod Slots
pub mod Safety
pub mod Workers
pub mod Start
pub mod Starting
pub mod Gentle
