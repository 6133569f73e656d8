-- ===== src/Programs/Lock.antt =====
-- The lock file that keeps a second instance of a program from running: do_lock_file of audio/main.cpp,
-- which gps/main.cpp and sensors/main.cpp have as well, test_lockfile of filewatcher/lock-file.cpp, and
-- tryLockFile of manager/common/utils.cpp; and the main functions of the audio, GPS and sensor programs.
use kylin_kmre_manager.Base.{
  ℕ, zero, suc, Bool, true, false, List, [], ◌∷◌, ◌++◌, Option, none, some, take, if◌then◌else◌,
}
use kylin_kmre_manager.Base.Text.{Text, codes}
use kylin_kmre_manager.Base.Int.{ℤ, pos, minus_one}
use kylin_kmre_manager.Manager.Host.{Locked, locks, would_block, fails, LockFile, try_lock_file}

-- What flock answers: 0, or -1 with EWOULDBLOCK, with EBADF or EINVAL, or with another error.
pub data Flock : Type 0 where
  granted busy bad interrupted : Flock

-- A call of flock by an attempt's number, up to five; `left` attempts are left.
unfoldable pub try_from : (ℕ → Flock) → ℕ → ℕ → ℤ
try_from flock zero count = minus_one
try_from flock (suc left) count = elim (flock count) [
  | granted ↦ pos 0
  | busy ↦ minus_one
  | bad ↦ minus_one
  | interrupted ↦ try_from flock left (suc count)
]

unfoldable pub try_lock : (ℕ → Flock) → ℤ
unfolding try_from
try_lock flock = try_from flock 5 0

-- What a call leaves: its result, lockFd, and whether the descriptor was closed.
pub record Attempt : Type 0 where
  pub result : ℤ
  pub lock_fd : Option ℕ
  pub closed : Bool

abbrev pub lock_opened : ℕ → ℤ → Attempt
lock_opened fd (pos n) = record { result = pos 0; lock_fd = some fd; closed = false }
lock_opened fd e = record { result = minus_one; lock_fd = none; closed = true }

-- do_lock_file, for the descriptor that open gives.
unfoldable pub do_lock_file : Option ℕ → (ℕ → Flock) → Attempt
unfolding try_lock
do_lock_file none flock = record { result = minus_one; lock_fd = none; closed = false }
do_lock_file (some fd) flock = lock_opened fd (try_lock flock)

-- test_lockfile of the file watcher: its answer, and whether the descriptor stays open.
unfoldable pub test_lockfile : Option ℕ → Flock → Bool × Bool
test_lockfile none flock = (false, false)
test_lockfile (some fd) granted = (true, true)
test_lockfile (some fd) busy = (false, false)
test_lockfile (some fd) bad = (false, false)
test_lockfile (some fd) interrupted = (false, false)

abbrev pub to_locked : Flock → Locked
to_locked granted = locks
to_locked busy = would_block
to_locked bad = fails
to_locked interrupted = fails

abbrev pub is_zero : ℤ → Bool
is_zero (pos zero) = true
is_zero _ = false

abbrev pub no_lock : LockFile
no_lock = record { lock_fd = none; opened = []; holders = [] }

-- The programs; each has a lock file of its own.
pub data Program : Type 0 where
  audio gps sensors file_watcher manager : Program

-- Whether a program goes on after its lock file, for what open and the calls of flock answer.
unfoldable pub goes_on : Program → Option ℕ → (ℕ → Flock) → Bool
unfolding do_lock_file test_lockfile try_lock_file
goes_on audio fd flock = is_zero (do_lock_file fd flock).result
goes_on gps fd flock = is_zero (do_lock_file fd flock).result
goes_on sensors fd flock = is_zero (do_lock_file fd flock).result
goes_on file_watcher fd flock = (test_lockfile fd (flock 0)).0
goes_on manager fd flock = (try_lock_file fd (to_locked (flock 0)) (to_locked (flock 1)) no_lock).1

-- snprintf into an array of 1024 bytes.
abbrev pub print_1024 : Text → Text
print_1024 s = take 1023 s

abbrev pub home_dir : Option Text → Text → Text
home_dir none user = print_1024 (codes "/home/" ++ print_1024 user)
home_dir (some home) user = home

-- The lock file, for $HOME, the user's name and the file's name.
unfoldable pub lock_file_path : Text → Option Text → Text → Text
lock_file_path name home user =
    print_1024 (print_1024 (home_dir home user ++ codes "/.kmre") ++ codes "/" ++ name)

-- What main does once it goes on.
pub data Action : Type 0 where
  inits registers executes : Action
  unlocks closes : ℕ → Action

-- unlock_fd.
abbrev pub unlock_fd : Option ℕ → List Action
unlock_fd none = []
unlock_fd (some fd) = unlocks fd ∷ closes fd ∷ []

abbrev pub audio_locked : Attempt → Bool → ℤ → List Action × ℤ
audio_locked a registered code =
    if is_zero a.result
    then (if registered
        then (inits ∷ registers ∷ executes ∷ unlock_fd a.lock_fd, code)
        else (inits ∷ registers ∷ [], pos 1))
    else ([], minus_one)

-- main of audio/main.cpp, with its exit code: whether the service can be registered, and what exec
-- returns.
unfoldable pub audio_main : Option ℕ → (ℕ → Flock) → Bool → ℤ → List Action × ℤ
unfolding do_lock_file
audio_main fd flock registered code = audio_locked (do_lock_file fd flock) registered code

abbrev pub feed_locked : Attempt → ℤ → List Action × ℤ
feed_locked a code =
    if is_zero a.result then (inits ∷ executes ∷ unlock_fd a.lock_fd, code) else ([], minus_one)

-- main of gps/main.cpp and of sensors/main.cpp.
unfoldable pub gps_main : Option ℕ → (ℕ → Flock) → ℤ → List Action × ℤ
unfolding do_lock_file
gps_main fd flock code = feed_locked (do_lock_file fd flock) code

unfoldable pub sensors_main : Option ℕ → (ℕ → Flock) → ℤ → List Action × ℤ
unfolding do_lock_file
sensors_main fd flock code = feed_locked (do_lock_file fd flock) code
