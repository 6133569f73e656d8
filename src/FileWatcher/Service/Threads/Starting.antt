-- ===== src/FileWatcher/Service/Threads/Starting.antt =====
-- When FileInotifyService::start returns, and when it ends the program (filewatcher/file-inotify/
-- file-inotify-service.cpp).
use kylin_kmre_manager.Base.{◌≡◌, refl, ap, ◌∙◌, Bool, true, false, List, [], ◌∷◌, ◌++◌, arith}
use kylin_kmre_manager.FileWatcher.Service.Threads.{
  Thread, no_thread, begins, loops, ended, Threads, new_threads, start, stop, wait, watcher_turn,
  list_turn, main_turn, Turn, initializes, starts, stops, waits, main, watcher, list, step, run,
}

abbrev is_active : Thread → Bool
is_active no_thread = false
is_active begins = true
is_active loops = true
is_active ended = false

abbrev is_looping : Thread → Bool
is_looping loops = true
is_looping _ = false

-- While start waits nobody has asked the threads to stop and the watcher thread is there; a watcher
-- thread in its loop has set its flag; and mIsRunning is set while there is one.
record IsOrderly (t : Threads) : Type 0 where
  waiting : t.starting ≡ true → (t.stop_watcher ≡ false) × (is_active t.watcher_thread ≡ true)
  flagged : is_looping t.watcher_thread ≡ true → t.is_thread_running ≡ true
  marked : is_active t.watcher_thread ≡ true → t.is_running ≡ true

step-IsOrderly : (a : Turn) (t : Threads) → IsOrderly t → IsOrderly (step a t)
unfolding step start stop wait watcher_turn list_turn main_turn
step-IsOrderly initializes t h = ground arith
step-IsOrderly starts t h = ground arith
step-IsOrderly stops t h = ground arith
step-IsOrderly waits t h = ground arith
step-IsOrderly main t h = ground arith
step-IsOrderly watcher t h = ground arith
step-IsOrderly list t h = ground arith

run-IsOrderly : (l : List Turn) (t : Threads) → IsOrderly t → IsOrderly (run l t)
unfolding run
run-IsOrderly [] t h = h
run-IsOrderly (a ∷ l) t h = run-IsOrderly l (step a t) (step-IsOrderly a t h)

new_threads-IsOrderly : IsOrderly new_threads
new_threads-IsOrderly = record {
  waiting = λ h. ground arith;
  flagged = λ h. ground arith;
  marked = λ h. ground arith;
}

returns : (t : Threads) → IsOrderly t → (main_turn (watcher_turn t)).starting ≡ false
unfolding watcher_turn main_turn
returns t h = ground arith

run-append : (l k : List Turn) (t : Threads) → run (l ++ k) t ≡ run k (run l t)
unfolding run
run-append [] k t = refl
run-append (a ∷ l) k t = run-append l k (step a t)

run_two : (t : Threads) → run (watcher ∷ main ∷ []) t ≡ main_turn (watcher_turn t)
unfolding run step
run_two t = refl

-- Whatever was called and whatever turns the threads had before, in any order: if start waits, it has
-- returned once the watcher thread and then the waiting one have had a turn.
pub start_returns : (l : List Turn) → (run (l ++ watcher ∷ main ∷ []) new_threads).starting ≡ false
start_returns l =
    ap (λ (t : Threads). t.starting)
      (run-append l (watcher ∷ main ∷ []) new_threads ∙ run_two (run l new_threads))
    ∙ returns (run l new_threads) (run-IsOrderly l new_threads new_threads-IsOrderly)

start_running : (t : Threads) → t.is_running ≡ true → start t ≡ t
unfolding start
start_running t h = ground arith

-- While there is a watcher thread that has not ended, start does nothing: there are never two.
start_active :
    (l : List Turn)
    → is_active (run l new_threads).watcher_thread ≡ true
    → start (run l new_threads) ≡ run l new_threads
start_active l h =
    start_running (run l new_threads) ((run-IsOrderly l new_threads new_threads-IsOrderly).marked h)

-- A second start, after the watcher thread has ended on a stop and was not joined, ends the program.
start_aborts :
    (t : Threads)
    → t.initialized ≡ true
    → t.is_running ≡ false
    → t.watcher_thread ≡ ended
    → (start t).aborted ≡ true
unfolding start
start_aborts t h k e = ground arith
