-- ===== src/FileWatcher/Links/FileSystem.antt =====
-- What FileWatcher uses of Qt's file system and storage classes (filewatcher/file-watcher.cpp).
use kylin_kmre_manager.Base.{◌≡◌, Bool, true, List, Option, none, some}
use kylin_kmre_manager.Base.Text.{Text}

-- QFile, QDir and QFileInfo on one file system. `target` is QFile::symLinkTarget, with `none` for the
-- empty text that it returns for what is no link; it returns an absolute path also for a link that was
-- made with a relative one. `exists` follows links.
pub record FileSystem : Type 1 where
  pub Fs : Type 0
  pub target : Fs → Text → Option Text
  pub exists : Fs → Text → Bool
  pub dir_exists : Fs → Text → Bool  -- QDir::exists
  pub link : Text → Text → Fs → Fs  -- QFile::link(source, name)
  pub can_link : Text → Text → Fs → Bool  -- whether that succeeds
  pub remove : Text → Fs → Fs  -- QFile::remove
  pub can_remove : Text → Fs → Bool
  pub mkpath : Text → Fs → Fs  -- QDir::mkpath
  pub set_icon : Text → Text → Fs → Fs  -- file_set_custom_icon
  pub absolute : Text → Text → Text  -- the absolute path that a link of this name and source leads to
  -- A link that was made leads to its source.
  pub target-link :
      (source name : Text) (fs : Fs)
      → can_link source name fs ≡ true
      → target (link source name fs) name ≡ some (absolute name source)
  -- What was removed is no link.
  pub target-remove :
      (name : Text) (fs : Fs) → can_remove name fs ≡ true → target (remove name fs) name ≡ none
  -- An icon is metadata: no link changes.
  pub target-set_icon :
      (name icon path : Text) (fs : Fs) → target (set_icon name icon fs) path ≡ target fs path

-- QStorageInfo of a path; `fuse_device` and `fuse_type` say that the device is /dev/fuse and the type
-- fuse.
pub record StorageInfo : Type 0 where
  pub valid : Bool
  pub ready : Bool
  pub fuse_device : Bool
  pub fuse_type : Bool

-- LinkDestination.
pub record LinkDestination : Type 0 where
  pub destination : Text
  pub icon_path : Text
  pub should_create : Bool

-- LinkInfo.
pub record LinkInfo : Type 0 where
  pub destination : Text
  pub link_name : Text

-- PendingDirectory.
pub record PendingDirectory : Type 0 where
  pub depend_path : Text
  pub relative_link_path : Text
  pub pending_name : Text
  pub pending_path : Text

-- DependDirectory.
pub record DependDirectory : Type 0 where
  pub target_path : Text
  pub directories : List Text
  pub dest_link : LinkDestination

-- CHECK_TYPE_…
pub data CheckType : Type 0 where
  normal pending depend linking : CheckType

-- The signals that FileWatcher emits.
pub data Signal : Type 0 where
  check : Text → CheckType → Signal
  check_storage : Text → Bool → Signal

-- A change of the file system, as it was asked for.
pub data Command : Type 0 where
  links : Text → Text → Command
  removes makes_path : Text → Command
  sets_icon : Text → Text → Command
