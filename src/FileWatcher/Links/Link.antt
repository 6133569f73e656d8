-- ===== src/FileWatcher/Links/Link.antt =====
-- FileWatcher::makeLink and deleteLink (filewatcher/file-watcher.cpp).
use kylin_kmre_manager.Base.{
  ◌≡◌, refl, ◌≢◌, ◌⊎◌, ◌∙◌, true, false, List, ◌∷◌, Option, none, some, list_eq, if◌then◌else◌, All,
  Bool-cases, if_both, inl, inr,
}
use kylin_kmre_manager.Base.Text.{Text, is_empty}
use kylin_kmre_manager.FileWatcher.Links.FileSystem.{
  FileSystem, LinkDestination, LinkInfo, PendingDirectory, DependDirectory, Signal, Command, links,
  removes, makes_path, sets_icon,
}

module _ (y : FileSystem) where
  open y use {
    Fs, target, exists, link, can_link, remove, can_remove, mkpath, set_icon, absolute, target-link,
    target-remove, target-set_icon,
  }

  -- The members of FileWatcher that its slots use, the file system that they change, the signals
  -- emitted and the changes asked for, each with the file system that it met; newest first.
  pub record State : Type 0 where
    pub fs : Fs
    pub log : List (Fs × Command)
    pub signals : List Signal
    pub system_watch : List Text  -- the paths of m_pSystemWatcher, and so on
    pub pending_watch : List Text
    pub depend_watch : List Text
    pub link_watch : List Text
    pub hash_directory : List (Text × LinkDestination)
    pub hash_storage : List (Text × LinkDestination)
    pub hash_pending : List (Text × PendingDirectory)
    pub hash_depend : List (Text × DependDirectory)
    pub hash_link : List (Text × LinkInfo)
    pub directory_workers : List Text

  unfoldable pub do_link : Text → Text → State → State
  do_link source name s = record s {
    fs = link source name s.fs;
    log = (s.fs, links source name) ∷ s.log;
  }

  unfoldable pub do_remove : Text → State → State
  do_remove name s = record s { fs = remove name s.fs; log = (s.fs, removes name) ∷ s.log }

  unfoldable pub do_mkpath : Text → State → State
  do_mkpath path s = record s { fs = mkpath path s.fs; log = (s.fs, makes_path path) ∷ s.log }

  unfoldable pub do_set_icon : Text → Text → State → State
  do_set_icon name icon s = record s {
    fs = set_icon name icon s.fs;
    log = (s.fs, sets_icon name icon) ∷ s.log;
  }

  -- Both makeLink functions: what to do about a destination with the given link target, where `make`
  -- makes the link. A target that is the source and one that is not both end the call.
  unfoldable pub link_if_vacant : (State → State) → Text → Text → Option Text → State → State
  link_if_vacant make dest source (some path) s = s
  link_if_vacant make dest source none s =
      if is_empty source then s else if exists s.fs dest then s else make s

  -- makeLink(dest, source, iconPath).
  unfoldable pub make_link_with_icon : Text → Text → Text → State → State
  unfolding link_if_vacant do_link do_set_icon
  make_link_with_icon dest source icon s =
      link_if_vacant (λ t. do_set_icon dest icon (do_link source dest t)) dest source
        (target s.fs dest) s

  -- makeLink(dest, source).
  unfoldable pub make_link : Text → Text → State → State
  unfolding link_if_vacant do_link
  make_link dest source s = link_if_vacant (do_link source dest) dest source (target s.fs dest) s

  unfoldable pub delete_unless_real : Text → Option Text → State → State
  delete_unless_real dest (some path) s = do_remove dest s
  delete_unless_real dest none s = if exists s.fs dest then s else do_remove dest s

  unfoldable pub delete_link : Text → State → State
  unfolding delete_unless_real do_remove
  delete_link dest s = delete_unless_real dest (target s.fs dest) s

  -- Something other than a link is there.
  abbrev pub IsReal : Fs → Text → Type 0
  IsReal fs path = (target fs path ≡ none) × (exists fs path ≡ true)

  -- What a change may do: remove nothing but links and missing files.
  abbrev pub IsAllowed : Fs × Command → Type 0
  IsAllowed (fs, removes name) = ¬ IsReal fs name
  IsAllowed (fs, links source name) = Unit {0}
  IsAllowed (fs, makes_path path) = Unit {0}
  IsAllowed (fs, sets_icon name icon) = Unit {0}

  abbrev pub IsGentle : State → Type 0
  IsGentle s = All IsAllowed s.log

  vacant-IsGentle :
      (make : State → State) (dest source : Text) (o : Option Text) (s : State)
      → ((t : State) → IsGentle t → IsGentle (make t))
      → IsGentle s
      → IsGentle (link_if_vacant make dest source o s)
  unfolding link_if_vacant
  vacant-IsGentle make dest source (some path) s keep h = h
  vacant-IsGentle make dest source none s keep h =
      if_both IsGentle (is_empty source) h (if_both IsGentle (exists s.fs dest) h (keep s h))

  pub make_link_with_icon-IsGentle :
      (dest source icon : Text) (s : State)
      → IsGentle s
      → IsGentle (make_link_with_icon dest source icon s)
  unfolding make_link_with_icon
  make_link_with_icon-IsGentle dest source icon s h =
      vacant-IsGentle _ dest source (target s.fs dest) s (λ t g. (tt, (tt, g))) h

  pub make_link-IsGentle :
      (dest source : Text) (s : State) → IsGentle s → IsGentle (make_link dest source s)
  unfolding make_link
  make_link-IsGentle dest source s h =
      vacant-IsGentle _ dest source (target s.fs dest) s (λ t g. (tt, g)) h

  deleted-IsGentle :
      (dest : Text) (o : Option Text) (s : State)
      → target s.fs dest ≡ o
      → IsGentle s
      → IsGentle (delete_unless_real dest o s)
  unfolding delete_unless_real do_remove
  deleted-IsGentle dest (some path) s e h = (λ real. cc (real.0), h)
  deleted-IsGentle dest none s e h = elim (Bool-cases (exists s.fs dest)) [
    | inl there ↦ rw there h
    | inr vacant ↦ rw vacant (λ real. cc (real.1), h)
  ]

  pub delete_link-IsGentle : (dest : Text) (s : State) → IsGentle s → IsGentle (delete_link dest s)
  unfolding delete_link
  delete_link-IsGentle dest s h = deleted-IsGentle dest (target s.fs dest) s refl h

  vacant_occupied :
      (make : State → State) (dest source : Text) (o : Option Text) (s : State)
      → (o ≢ none) ⊎ (exists s.fs dest ≡ true)
      → link_if_vacant make dest source o s ≡ s
  unfolding link_if_vacant
  vacant_occupied make dest source (some path) s h = refl
  vacant_occupied make dest source none s (inl h) = absurd (h refl)
  vacant_occupied make dest source none s (inr there) =
      rw there (if_both (λ t. t ≡ s) (is_empty source) refl refl)

  deleted-target :
      (dest : Text) (o : Option Text) (s : State)
      → target s.fs dest ≡ o
      → ¬ IsReal s.fs dest
      → can_remove dest s.fs ≡ true
      → target (delete_unless_real dest o s).fs dest ≡ none
  unfolding delete_unless_real do_remove
  deleted-target dest (some path) s e unreal ok = target-remove dest s.fs ok
  deleted-target dest none s e unreal ok = elim (Bool-cases (exists s.fs dest)) [
    | inl there ↦ absurd (unreal (e, there))
    | inr vacant ↦ rw vacant (target-remove dest s.fs ok)
  ]

  -- makeLink with an icon, with a source that is not empty. At a vacant destination where the link
  -- can be made, the destination leads to the source afterwards. Where something is, a link or not,
  -- the state is unchanged.
  pub make_link_with_icon_lem :
      (dest source icon : Text) (s : State)
      → is_empty source ≡ false
      → (target s.fs dest ≡ none
          → exists s.fs dest ≡ false
          → can_link source dest s.fs ≡ true
          → target (make_link_with_icon dest source icon s).fs dest ≡ some (absolute dest source))
        × ((target s.fs dest ≢ none) ⊎ (exists s.fs dest ≡ true)
            → make_link_with_icon dest source icon s ≡ s)
  unfolding make_link_with_icon
  make_link_with_icon_lem dest source icon s real_source = (
    λ no_link vacant ok.
        rw (no_link, link_if_vacant, real_source, vacant)
          (target-set_icon dest icon dest _ ∙ target-link source dest s.fs ok),
    λ occupied. vacant_occupied _ dest source (target s.fs dest) s occupied,
  )

  -- deleteLink: what is there and is no link stays, with the whole state. Otherwise, if the
  -- destination can be removed, no link is there afterwards.
  pub delete_link_lem :
      (dest : Text) (s : State)
      → (IsReal s.fs dest → delete_link dest s ≡ s)
        × (¬ IsReal s.fs dest
            → can_remove dest s.fs ≡ true
            → target (delete_link dest s).fs dest ≡ none)
  unfolding delete_link
  delete_link_lem dest s = (
    λ real. rw (real.0, delete_unless_real, real.1),
    λ unreal ok. deleted-target dest (target s.fs dest) s refl unreal ok,
  )
