-- ===== src/Audio/Server.antt =====
-- The threads of the audio service (audio/audioserver.cpp: onInit, onSleep for Wayland; audio/
-- threadpool.cpp; audio/kmreaudio.cpp: init, onStopApplication).
use kylin_kmre_manager.Base.{
  ℕ, suc, ◌<◌, ◌≡◌, ◌⊎◌, inl, inr, refl, sym, ap, subst, ◌∙◌, Bool, true, false, List, [], ◌∷◌,
  ◌++◌, Option, none, some, ◌==◌, list_eq, nat_beq, if◌then◌else◌, arith,
}
use kylin_kmre_manager.Base.Text.{Text, codes}

-- ThreadPool: the threads that it has, and those that were asked to quit, by their numbers.
pub record Pool : Type 0 where
  pub next : ℕ
  pub threads : List ℕ
  pub quitting : List ℕ

unfoldable pub new_thread : Pool → Pool × ℕ
new_thread p = (record p { next = suc p.next; threads = p.threads ++ p.next ∷ [] }, p.next)

-- takeAt(indexOf(thread)).
unfoldable pub take_thread : ℕ → List ℕ → List ℕ
take_thread t [] = []
take_thread t (x ∷ l) = let rest = take_thread t l in if nat_beq x t then l else x ∷ rest

abbrev pub has_thread : ℕ → List ℕ → Bool
has_thread t [] = false
has_thread t (x ∷ l) = let rest = has_thread t l in if nat_beq x t then true else rest

unfoldable pub quit_thread : ℕ → Pool → Pool
unfolding take_thread
quit_thread t p =
    if has_thread t p.threads
    then record p { threads = take_thread t p.threads; quitting = p.quitting ++ t ∷ [] }
    else p

unfoldable pub quit_all : Pool → Pool
quit_all p = record p { quitting = p.quitting ++ p.threads }

-- The thread of the playback worker and that of the recording worker, and the threads whose worker was
-- deleted with them.
pub record Server : Type 0 where
  pub pool : Pool
  pub play_thread : Option ℕ
  pub record_thread : Option ℕ
  pub deleted : List ℕ

abbrev pub new_server : Server
new_server = record {
  pool = record { next = 0; threads = []; quitting = [] };
  play_thread = none;
  record_thread = none;
  deleted = [];
}

-- KmreAudio::init: the server's own thread is the first of the pool.
unfoldable pub init : Server → Server
unfolding new_thread
init s = record s { pool = (new_thread s.pool).0 }

-- A new playback worker in a new thread.
abbrev pub start_play : Server → Server
start_play s = record s { pool = (new_thread s.pool).0; play_thread = some (new_thread s.pool).1 }

abbrev pub start_record : Server → Server
start_record s = record s {
  pool = (new_thread s.pool).0;
  record_thread = some (new_thread s.pool).1;
}

unfoldable pub on_init : Server → Server
unfolding new_thread
on_init s = start_record (start_play s)

-- exitPlayback, and the end of the worker with its thread.
abbrev pub end_play : Option ℕ → Server → Server
end_play none s = s
end_play (some t) s = record s { pool = quit_thread t s.pool; deleted = s.deleted ++ t ∷ [] }

unfoldable pub on_sleep : Bool → Server → Server
unfolding new_thread quit_thread
on_sleep true s = s
on_sleep false s = start_play (end_play s.play_thread s)

unfoldable pub wakes : List Bool → Server → Server
unfolding on_sleep
wakes [] s = s
wakes (sleep ∷ l) s = wakes l (on_sleep sleep s)

-- onStopApplication, for the user's id and name: whether the program exits.
unfoldable pub on_stop_application : Text → Text → Text → Bool
on_stop_application uid user container =
    (codes "kmre-" ++ (uid ++ (codes "-" ++ user))) == container

-- A server with its own thread 0, its recording thread 2 and one playback thread: the pool has these
-- three, the playback thread is neither 0 nor 2 and below the next number, and every thread that was
-- asked to quit is deleted.
record IsPaired (s : Server) : Type 0 where
  thread : ℕ
  plays : s.play_thread ≡ some thread
  apart : nat_beq thread 2 ≡ false
  other : 0 < thread
  pooled : (s.pool.threads ≡ 0 ∷ thread ∷ 2 ∷ []) ⊎ (s.pool.threads ≡ 0 ∷ 2 ∷ thread ∷ [])
  below : thread < s.pool.next
  ready : 2 < s.pool.next
  records : s.record_thread ≡ some 2
  quits : s.pool.quitting ≡ s.deleted

-- What a wake leaves of a pool with the three threads.
quit_paired :
    (t : ℕ) (p : Pool)
    → nat_beq t 2 ≡ false
    → 0 < t
    → (p.threads ≡ 0 ∷ t ∷ 2 ∷ []) ⊎ (p.threads ≡ 0 ∷ 2 ∷ t ∷ [])
    → ((quit_thread t p).threads ≡ 0 ∷ 2 ∷ [])
      × ((quit_thread t p).quitting ≡ p.quitting ++ t ∷ [])
      × ((quit_thread t p).next ≡ p.next)
unfolding quit_thread take_thread
quit_paired t p h g (inl e) = rw e (ground arith)
quit_paired t p h g (inr e) = rw e (ground arith)

restart-IsPaired :
    (t : ℕ) (s : Server)
    → nat_beq t 2 ≡ false
    → 0 < t
    → (s.pool.threads ≡ 0 ∷ t ∷ 2 ∷ []) ⊎ (s.pool.threads ≡ 0 ∷ 2 ∷ t ∷ [])
    → 2 < s.pool.next
    → s.record_thread ≡ some 2
    → s.pool.quitting ≡ s.deleted
    → IsPaired (start_play (end_play (some t) s))
unfolding new_thread
restart-IsPaired t s apart other pooled ready records quits =
    let (threads, quitting, next) = quit_paired t s.pool apart other pooled in
    record {
      thread = (quit_thread t s.pool).next;
      plays = refl;
      apart = ground (arith, next);
      other = omega (arith, next);
      pooled = inr (ap (λ l. l ++ (quit_thread t s.pool).next ∷ []) threads);
      below = omega arith;
      ready = omega (arith, next);
      records = records;
      quits = quitting ∙ ap (λ l. l ++ t ∷ []) quits;
    }

on_sleep-IsPaired : (sleep : Bool) (s : Server) → IsPaired s → IsPaired (on_sleep sleep s)
unfolding on_sleep
on_sleep-IsPaired true s h = h
on_sleep-IsPaired false s h =
    subst (λ o. IsPaired (start_play (end_play o s))) (sym h.plays)
      (restart-IsPaired h.thread s h.apart h.other h.pooled h.ready h.records h.quits)

wakes-IsPaired : (l : List Bool) (s : Server) → IsPaired s → IsPaired (wakes l s)
unfolding wakes
wakes-IsPaired [] s h = h
wakes-IsPaired (sleep ∷ l) s h = wakes-IsPaired l (on_sleep sleep s) (on_sleep-IsPaired sleep s h)

on_init-IsPaired : IsPaired (on_init (init new_server))
unfolding init on_init
on_init-IsPaired = record {
  thread = 1;
  plays = refl;
  apart = refl;
  other = omega arith;
  pooled = inl refl;
  below = omega arith;
  ready = omega arith;
  records = refl;
  quits = refl;
}

-- However often the machine goes to sleep and wakes up after the start, there is one playback thread
-- beside the recording thread, the pool has these two and the server's own thread and no other, and
-- exactly the threads that were asked to quit are deleted.
pub wakes-on_init :
    (l : List Bool)
    → let s = wakes l (on_init (init new_server)) in
      (t : ℕ) × (s.play_thread ≡ some t)
      × (s.record_thread ≡ some 2)
      × ((s.pool.threads ≡ 0 ∷ t ∷ 2 ∷ []) ⊎ (s.pool.threads ≡ 0 ∷ 2 ∷ t ∷ []))
      × (s.pool.quitting ≡ s.deleted)
wakes-on_init l =
    let h = wakes-IsPaired l (on_init (init new_server)) on_init-IsPaired in
    (h.thread, h.plays, h.records, h.pooled, h.quits)
