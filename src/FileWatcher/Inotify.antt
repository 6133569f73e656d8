-- ===== src/FileWatcher/Inotify.antt =====
-- filewatcher/file-inotify/file-inotify-watcher.cpp: the two maps between watched paths and watch
-- descriptors, and the buffer of inotify events.
pub mod Watcher
pub mod Consistency
pub mod Effects
pub mod Buffer
pub mod Stream
