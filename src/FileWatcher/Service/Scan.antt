-- ===== src/FileWatcher/Service/Scan.antt =====
-- What the scans of loopList announce, and when a file leaves the queue (filewatcher/file-inotify/
-- file-inotify-service.cpp, dbus-client.cpp).
use mathlib.Core.List.{Memᴰ, append-nil}
use kylin_kmre_manager.Base.{
  ℕ, ◌<◌, ◌≡◌, ◌≢◌, refl, inl, inr, sym, Bool, true, false, List, [], ◌∷◌, ◌++◌, map, Option, none,
  some, length, if◌then◌else◌, All, All-append, All-imp, keep_if, arith, Bool-cases, drop-append,
}
use kylin_kmre_manager.Base.Text.{Text}
use kylin_kmre_manager.Base.Int.{pos, int_beq, int_beq_iff, to_int32_small}
use kylin_kmre_manager.FileWatcher.Service.Queue.{
  NotifyFileInfo, Answers, Announcement, container_prefix, is_media, replace_front, query_service,
  notify_file, visit_sized, visit, scan, scans, fresh,
}

-- A file that has a size below 2 GiB that two rounds see alike, and for which the bus daemon knows
-- the manager's name in the second round.
pub record IsSettled (size : Text → ℕ) (a b : Answers) (p : Text) : Type 0 where
  pub first_size : a.stat_size p ≡ some (size p)
  pub second_size : b.stat_size p ≡ some (size p)
  pub small : size p < 2147483648
  pub known : b.name_has_owner p ≡ some true

abbrev pub announcement : Answers → Text → Text → Announcement
announcement a home p = (replace_front (length home) container_prefix p, a.mime_of_content p)

abbrev measured : (Text → ℕ) → Text → NotifyFileInfo
measured size p = record { path = p; size = pos (size p) }

visit-fresh :
    (size : Text → ℕ) (a b : Answers) (home : Text) (owned : Bool) (p : Text)
    → IsSettled size a b p
    → visit a home owned (fresh p) ≡ (some (measured size p), owned, [])
unfolding visit visit_sized
visit-fresh size a b home owned p s = ground (arith, to_int32_small (size p))

scan-fresh :
    (size : Text → ℕ) (a b : Answers) (home : Text) (owned : Bool) (ps : List Text)
    → All (IsSettled size a b) ps
    → scan a home owned (map fresh ps) ≡ (map (measured size) ps, owned, [])
unfolding scan
scan-fresh size a b home owned [] s = refl
scan-fresh size a b home owned (p ∷ ps) s =
    ground (arith, visit-fresh size a b home owned p s.0, scan-fresh size a b home owned ps s.1)

visit-measured :
    (size : Text → ℕ) (a b : Answers) (home : Text) (owned : Bool) (p : Text)
    → IsSettled size a b p
    → visit b home owned (measured size p)
      ≡ (none, true, if is_media (b.mime_of_content p) then announcement b home p ∷ [] else [])
unfolding visit visit_sized notify_file query_service
visit-measured size a b home owned p s = ground (arith, int_beq_iff (pos (size p)) (pos (size p)))

scan-measured :
    (size : Text → ℕ) (a b : Answers) (home : Text) (owned : Bool) (ps : List Text)
    → All (IsSettled size a b) ps
    → ((scan b home owned (map (measured size) ps)).0 ≡ [])
      × ((scan b home owned (map (measured size) ps)).2
          ≡ map (announcement b home) (keep_if (λ p. is_media (b.mime_of_content p)) ps))
unfolding scan
scan-measured size a b home owned [] s = (refl, refl)
scan-measured size a b home owned (p ∷ ps) s =
    ground
      (arith, visit-measured size a b home owned p s.0, scan-measured size a b home true ps s.1)

-- Files that were just queued, whose sizes below 2 GiB two rounds see alike and for which the bus
-- daemon knows the manager in the second round, are all off the queue after the two rounds, and
-- those whose content is an image or a video were announced, each once and in the queue's order.
pub scans_settled :
    (size : Text → ℕ) (a b : Answers) (home : Text) (owned : Bool) (ps : List Text)
    → All (IsSettled size a b) ps
    → let out = scans (a ∷ b ∷ []) home owned (map fresh ps) in
      (out.0 ≡ [])
      × (out.2 ≡ map (announcement b home) (keep_if (λ p. is_media (b.mime_of_content p)) ps))
unfolding scans
scans_settled size a b home owned ps s = ground (
  arith,
  scan-fresh size a b home owned ps s,
  scan-measured size a b home owned ps s,
  append-nil (map (announcement b home) (keep_if (λ p. is_media (b.mime_of_content p)) ps)),
)

-- The entry from which an announcement comes.
pub record ComesFrom (a : Answers) (home : Text) (l : List NotifyFileInfo) (m : Announcement)
    : Type 0 where
  pub entry : NotifyFileInfo
  pub queued : Memᴰ entry l
  pub stable : (n : ℕ) × (a.stat_size entry.path ≡ some n) × (entry.size ≡ pos n)
  pub media : is_media (a.mime_of_content entry.path) ≡ true
  pub as_seen : m ≡ announcement a home entry.path

sized-ComesFrom :
    (a : Answers) (home : Text) (owned : Bool) (i : NotifyFileInfo) (l : List NotifyFileInfo)
    (o : Option ℕ)
    → a.stat_size i.path ≡ o
    → All (ComesFrom a home (i ∷ l)) (visit_sized a home owned i o).2
unfolding visit_sized notify_file
sized-ComesFrom a home owned i l none e = tt
sized-ComesFrom a home owned i l (some n) e = elim (Bool-cases (int_beq (pos n) i.size)) [
  | inr grew ↦ rw (grew, visit_sized) tt
  | inl same ↦ elim (Bool-cases (query_service (a.name_has_owner i.path) owned).0) [
    | inr away ↦ rw (same, away, visit_sized) tt
    | inl there ↦ elim (Bool-cases (is_media (a.mime_of_content i.path))) [
      | inr other ↦ rw (same, there, other, visit_sized) tt
      | inl media ↦ rw (same, there, media, visit_sized) (made same media, tt)
    ]
  ]
]
  where
    made :
        int_beq (pos n) i.size ≡ true
        → is_media (a.mime_of_content i.path) ≡ true
        → ComesFrom a home (i ∷ l) (announcement a home i.path)
    made same media = record {
      entry = i;
      queued = Memᴰ.head refl;
      stable = (n, e, sym ((int_beq_iff (pos n) i.size).0 same));
      media = media;
      as_seen = refl;
    }

ComesFrom-cons :
    (a : Answers) (home : Text) (i : NotifyFileInfo) (l : List NotifyFileInfo) (m : Announcement)
    → ComesFrom a home l m
    → ComesFrom a home (i ∷ l) m
ComesFrom-cons a home i l m c = record {
  entry = c.entry;
  queued = Memᴰ.tail c.queued;
  stable = c.stable;
  media = c.media;
  as_seen = c.as_seen;
}

-- Every announcement of a round comes from a queued file that still has the size it had in the round
-- before and whose content is an image or a video, and names that file's type and its path with the
-- home directory's length cut off behind the container's prefix.
pub scan-ComesFrom :
    (a : Answers) (home : Text) (owned : Bool) (l : List NotifyFileInfo)
    → All (ComesFrom a home l) (scan a home owned l).2
unfolding scan visit
scan-ComesFrom a home owned [] = tt
scan-ComesFrom a home owned (i ∷ l) =
    let owned' = (visit a home owned i).1 in
    All-append (ComesFrom a home (i ∷ l)) (visit a home owned i).2 (scan a home owned' l).2
      (sized-ComesFrom a home owned i l (a.stat_size i.path) refl)
      (All-imp (ComesFrom a home l) (ComesFrom a home (i ∷ l)) (scan a home owned' l).2
        (ComesFrom-cons a home i l) (scan-ComesFrom a home owned' l))

-- A path under the home directory is announced as the rest of the path behind the prefix.
pub announcement_under_home :
    (a : Answers) (home rest : Text)
    → announcement a home (home ++ rest)
      ≡ (container_prefix ++ rest, a.mime_of_content (home ++ rest))
unfolding replace_front
announcement_under_home a home rest = rw (drop-append home rest)

-- Once the manager's name was seen on the bus, every file that is unchanged since the last round
-- leaves the queue, whatever the bus daemon would answer now.
visit_owned :
    (a : Answers) (home : Text) (i : NotifyFileInfo) (n : ℕ)
    → a.stat_size i.path ≡ some n
    → i.size ≡ pos n
    → ((visit a home true i).0 ≡ none) × ((visit a home true i).1 ≡ true)
unfolding visit visit_sized notify_file query_service
visit_owned a home i n e s = ground (arith, int_beq_iff (pos n) i.size)

-- While the bus daemon does not know the manager, a file that exists stays queued with the size just
-- seen, and nothing is announced for it.
visit_unknown :
    (a : Answers) (home : Text) (i : NotifyFileInfo) (n : ℕ)
    → a.stat_size i.path ≡ some n
    → a.name_has_owner i.path ≢ some true
    → n < 2147483648
    → visit a home false i ≡ (some (measured (λ _. n) i.path), false, [])
unfolding visit visit_sized notify_file query_service
visit_unknown a home i n e away small = ground (arith, int_beq_iff (pos n) i.size, to_int32_small n)
