-- ===== src/Programs.antt =====
-- How the programs start: the lock files, the main functions and the ends (audio/main.cpp, gps/main.cpp,
-- sensors/main.cpp, filewatcher/main.cpp, manager/main.cpp).
pub mod Lock
pub mod Single
