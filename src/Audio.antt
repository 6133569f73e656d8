-- ===== src/Audio.antt =====
-- The audio service (audio/playbackworker.cpp, audio/recordingworker.cpp): the sessions in which the
-- container plays and records, one after the other.
pub mod Pcm
pub mod Playback
pub mod Recording
pub mod Server
