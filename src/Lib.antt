-- ===== src/Lib.antt =====
-- kylin-kmre-manager runs beside an Android container on a desktop. The file watcher (filewatcher/)
-- makes links between the container's directories and the desktop's, and tells the manager about new
-- images and videos so that the container's media database learns of them. The manager (manager/)
-- chooses the display of the container, sets the container's properties for it, hands cameras to it,
-- keeps tables of its media files, writes desktop files for its applications and installs them. The
-- audio service (audio/) plays and records for the container, one session after the other. Two small
-- programs (gps/, sensors/) write positions and accelerations to sockets of the container.
--
-- The program's parts and the files that model them:
-- - Base and Base/: shared names, Boolean tests and lemmas, texts, ints, and association lists.
-- - FileWatcher/Inotify: FileInotifyWatcher of filewatcher/file-inotify/file-inotify-watcher.cpp. Watcher
--   has its two maps and every operation on them; Buffer has readNextEvent. Consistency is the invariant
--   of the maps, Effects says what each operation does, Stream compares readNextEvent with the kernel's
--   encoding of events.
-- - FileWatcher/Service: FileInotifyService of filewatcher/file-inotify/file-inotify-service.cpp, which
--   owns one FileInotifyWatcher. Queue has addNotifyFileLocked, notifyFile and loopList, and queryService
--   of dbus-client.cpp; Walk has initialize, addWatch, addWatchRecursively, the recursive walk and the
--   body of run; Threads has start, stop, wait and the flags of its two threads. Scan and Large are about
--   the queue, Walked and Coverage about the walk, Kept and Invariant about all operations together,
--   Threads/Starting about the return of start.
-- - FileWatcher/Program: filewatcher/main.cpp, and shouldRun, the names of the containers and the destructor
--   of FileWatcher; Watched says what is watched after the start.
-- - FileWatcher/Links: the slots of FileWatcher in filewatcher/file-watcher.cpp. FileSystem has the
--   interface to the file system and the data of file-watcher.h, Link has makeLink and deleteLink, Slots
--   has the slots, Start has run and the old links. Safety, Starting and Gentle are the theorems.
-- - Manager/Display: manager/kmre/wm/. Size and Ratio model displaysizemanager.cpp; Gpu, Prime, Probe,
--   Vendor and Gles model gpuinfo.cpp and the parts of displaytypemanager.cpp about the GPU and the
--   processor, Kind the rest, and Information what the manager tells of all this. SizeLaws, KindLaws,
--   Vendor/Stays and Gles/Balance are the theorems.
-- - FileWatcher/Links/Workers: the loops of filewatcher/directory-check-worker.cpp and
--   storage-check-worker.cpp, and the signals that connect them with the slots.
-- - Manager/Camera: manager/camera/camera_service.cpp; Service has the choice of a device and the message
--   that carries it, Socket the set-up of the socket and the closing of descriptors, Choice the theorems
--   about the choice.
-- - Feeds: what gps/gpsdataget.cpp (Gps) and sensors/sensordataget.cpp (Sensor) write to the container;
--   Line has the operations on bytes that they share. Throttle is passAcceKey of
--   sensors/dbusadaptor.cpp, Start the start of both and the way from the bus to the container.
-- - Audio: audio/playbackworker.cpp (Playback) and audio/recordingworker.cpp (Recording), over the calls
--   of Pcm. Each has the set-up of the device, the loop of a session and the loop over connections.
--   Playback/Ending says when a session ends, Recording/Waiting and Retries how long one waits, Sizes
--   is about formats and buffers, Accounts and Between are what is kept from one connection to the next.
--   Playback/Life and Recording/Life are the lives of the workers from initData to their destructors, and
--   Playback/Life/Leaving says what one leaves.
--   Server has the threads of audio/audioserver.cpp and audio/threadpool.cpp.
-- - Manager/Media: onSyncFiles of manager/communication/controlmanager.cpp, with the tables (Table), the
--   links to the files of applications (Paths) and the whole slot (Sync). Directory is the
--   specification; Lookup, Steps and Shows lead to the refinement, in Refinement; Dump is about a dump
--   in batches.
-- - Manager/Apps: desktop files (Desktop, with Renaming), icons (Icon, with Staying), installations
--   (Install, with Installing) and the calls of libkmre.so (Library) of
--   manager/communication/backendworker.cpp and controlmanager.cpp,
--   and the file helpers of manager/common/utils.cpp.
-- - Manager/Network: the name servers, of manager/common/utils.cpp and manager/manager/kmremanager.cpp;
--   Servers has the theorem.
-- - Manager/Host: what manager/common/utils.cpp and manager/manager/kmremanager.cpp find out about
--   the host, and the lock file of manager/common/utils.cpp; Facts has the theorems.
-- - Manager/Container: the battery of manager/power/powermanager.cpp and the signals and properties of
--   manager/manager/kmremanager.cpp; Battery has the theorem.
-- - Manager/Entry: the calls of manager/manager/kmremanager.cpp that manager/communication/controlmanager.cpp
--   turns into signals for the thread of BackendWorker; Order compares them with direct calls.
-- - Manager/Session: the end of the session in manager/manager/kmremanager.cpp, and
--   manager/dbus/dbusclient.cpp.
-- - Manager/Startup: the constructor of manager/manager/kmremanager.cpp and the changes of the screen;
--   Published, Current, Screens and Density say which properties of the container are set then.
-- - Manager/Start: manager/main.cpp; Saved reads the file of the environment back.
-- - Programs: the lock files of all programs, and audio/main.cpp, gps/main.cpp and sensors/main.cpp (Lock);
--   Single says that at most one instance runs.
-- - Scenarios: runs on concrete input, and an instance of each theorem that has conditions.
--
-- How the state corresponds: a class is a record of its members, an operation takes the old record and
-- returns the new one with the result. The kernel, the file system, the message bus, the mime
-- database, the screen, the GPU libraries, devices and sockets are arguments: records of their
-- answers, or for the file system of the links a record of operations and laws. Paths and names of the
-- file watcher are lists of characters or bytes; the manager's are lists of code points, or native
-- strings where only literals are compared. A QMap is an association list and a QMultiMap is one with
-- the newest entry first.
--
-- Bounds: no definition has fuel; each loop is structural recursion over a list, over a directory tree
-- that is given whole, over the attempts that the source allows (five at a lock, thirty-one looks for a
-- file), or over the rounds or connections that there are, and a loop that is still running when they are
-- used up says so (the places `playing` and `recording`). The int that holds a
-- file's size wraps around, as do the comparisons of readNextEvent and of the results of ALSA that are
-- put into an unsigned number; the count of retries and the counters of a dump of media files are ints,
-- taken as their 32 bits. Other numbers are unbounded. The bytes that a copy past the end of an array
-- reads are arguments (Feeds).
--
-- Not modelled: locks within a program and timers (each operation runs whole; what another thread sets is
-- an argument), logging, translations, generated D-Bus adaptors, the marshalling of D-Bus values, JSON, the
-- pixels of icons, the way in which the audio, GPS and sensor programs make their sockets, and the socket
-- libraries and chip tables that are copies of other projects' code.
pub mod Base
pub mod FileWatcher
pub mod Feeds
pub mod Audio
pub mod Manager
pub mod Programs
pub mod Scenarios
