-- ===== src/Manager/Entry/Order.antt =====
-- In which order the library is called for what comes over the session bus (manager/manager/
-- kmremanager.cpp, manager/communication/).
use kylin_kmre_manager.Base.{
  ◌≡◌, refl, sym, ap, ◌∙◌, List, [], ◌∷◌, ◌++◌, ℕ, zero, suc, ◌+◌, ◌-◌, ◌≤◌, length, length-append,
  replicate, arith,
}
use kylin_kmre_manager.Base.Int.{ℤ}
use kylin_kmre_manager.Base.Text.{Text}
use mathlib.Core.List.{append_assoc, append-nil}
use kylin_kmre_manager.Manager.Apps.Library.{
  Library, Event, set_prop, get_prop, close_app_of, control, insert_one_record, remove_one_record,
  request_all_files,
}
use kylin_kmre_manager.Manager.Entry.{
  Signal, slot, Command, close_app, control_app, adds_record, removes_record,
  command_to_get_all_files, set_system_prop, signal_of, Manager, new_manager, emit, turn, turn_with,
  get_system_prop, Happening, queues, turns, asks, happen, run,
}

-- The commands among what happens, in their order.
unfoldable pub commands : List Happening → List Command
commands [] = []
commands (queues c ∷ hs) = c ∷ commands hs
commands (turns ∷ hs) = commands hs
commands (asks type name ∷ hs) = commands hs

-- The specification: the calls of the library that are made for a command.
unfoldable pub carried_out : Library → Command → List Event
carried_out lib (close_app app pkg force_kill) = close_app_of lib app pkg
carried_out lib (control_app id pkg type value) = control lib id pkg type value
carried_out lib (adds_record path mime_type) = insert_one_record lib path mime_type
carried_out lib (removes_record path mime_type) = remove_one_record lib path mime_type
carried_out lib (command_to_get_all_files type) = request_all_files lib type
carried_out lib (set_system_prop type name value) = set_prop lib type name value

-- Each command is carried out at once.
unfoldable pub direct : Library → List Command → List Event
direct lib [] = []
direct lib (c ∷ cs) = carried_out lib c ++ direct lib cs

-- The signal that is emitted for a command is connected to the slot that carries it out.
slot-signal_of : (lib : Library) (c : Command) → slot lib (signal_of c) ≡ carried_out lib c
unfolding slot signal_of carried_out
slot-signal_of lib (close_app app pkg force_kill) = refl
slot-signal_of lib (control_app id pkg type value) = refl
slot-signal_of lib (adds_record path mime_type) = refl
slot-signal_of lib (removes_record path mime_type) = refl
slot-signal_of lib (command_to_get_all_files type) = refl
slot-signal_of lib (set_system_prop type name value) = refl

unfoldable pub slots : Library → List Signal → List Event
slots lib [] = []
slots lib (s ∷ l) = slot lib s ++ slots lib l

slots-append : (lib : Library) (l k : List Signal) → slots lib (l ++ k) ≡ slots lib l ++ slots lib k
unfolding slots
slots-append lib [] k = refl
slots-append lib (s ∷ l) k =
    ground (arith, slots-append lib l k, append_assoc (slot lib s) (slots lib l) (slots lib k))

-- A step: what is done and what is pending, and what is pending counted.
turn-slots :
    (lib : Library) (m : Manager)
    → (turn lib m).done ++ slots lib (turn lib m).pending ≡ m.done ++ slots lib m.pending
unfolding turn
turn-slots lib m = cases m.pending
  where
    cases :
        (l : List Signal)
        → (turn_with lib l (record m { pending = l })).done
            ++ slots lib (turn_with lib l (record m { pending = l })).pending
          ≡ m.done ++ slots lib l
    cases [] = refl
    cases (s ∷ l) = unfold slots in append_assoc m.done (slot lib s) (slots lib l)

emit-slots :
    (lib : Library) (s : Signal) (m : Manager)
    → (emit s m).done ++ slots lib (emit s m).pending
      ≡ (m.done ++ slots lib m.pending) ++ slot lib s
unfolding emit
emit-slots lib s m =
    ap (λ t. m.done ++ t) (slots-append lib m.pending (s ∷ []) ∙ last)
    ∙ sym (append_assoc m.done (slots lib m.pending) (slot lib s))
  where
    last : slots lib m.pending ++ slots lib (s ∷ []) ≡ slots lib m.pending ++ slot lib s
    last = unfold slots in ap (λ t. slots lib m.pending ++ t) (append-nil (slot lib s))

-- What is done and what is pending, for a state that the rest happens to.
run-slots :
    (lib : Library) (hs : List Happening) (m : Manager)
    → (run lib hs m).done ++ slots lib (run lib hs m).pending
      ≡ (m.done ++ slots lib m.pending) ++ direct lib (commands hs)
unfolding run happen commands direct
run-slots lib [] m = sym (append-nil (m.done ++ slots lib m.pending))
run-slots lib (queues c ∷ hs) m =
    run-slots lib hs (emit (signal_of c) m)
    ∙ ap (λ t. t ++ direct lib (commands hs)) (emit-slots lib (signal_of c) m)
    ∙ append_assoc (m.done ++ slots lib m.pending) (slot lib (signal_of c))
        (direct lib (commands hs))
    ∙ ap (λ t. (m.done ++ slots lib m.pending) ++ (t ++ direct lib (commands hs)))
        (slot-signal_of lib c)
run-slots lib (turns ∷ hs) m =
    run-slots lib hs (turn lib m) ∙ ap (λ t. t ++ direct lib (commands hs)) (turn-slots lib m)
run-slots lib (asks type name ∷ hs) m =
    run-slots lib hs (happen lib (asks type name) m) ∙ unfold get_system_prop in refl

run-append :
    (lib : Library) (hs ks : List Happening) (m : Manager)
    → run lib (hs ++ ks) m ≡ run lib ks (run lib hs m)
unfolding run
run-append lib [] ks m = refl
run-append lib (h ∷ hs) ks m = run-append lib hs ks (happen lib h m)

length-emit : (s : Signal) (m : Manager) → length (emit s m).pending ≡ length m.pending + 1
unfolding emit
length-emit s m = omega (arith, length-append m.pending (s ∷ []))

length-turn : (lib : Library) (m : Manager) → length (turn lib m).pending ≤ length m.pending - 1
unfolding turn
length-turn lib m = cases m.pending
  where
    cases :
        (l : List Signal)
        → length (turn_with lib l (record m { pending = l })).pending ≤ length l - 1
    cases [] = omega arith
    cases (s ∷ l) = omega arith

pending-le :
    (lib : Library) (hs : List Happening) (m : Manager)
    → length (run lib hs m).pending ≤ length m.pending + length (commands hs)
unfolding run happen commands
pending-le lib [] m = omega arith
pending-le lib (queues c ∷ hs) m =
    omega (arith, pending-le lib hs (emit (signal_of c) m), length-emit (signal_of c) m)
pending-le lib (turns ∷ hs) m = omega (arith, pending-le lib hs (turn lib m), length-turn lib m)
pending-le lib (asks type name ∷ hs) m =
    omega (arith, pending-le lib hs (happen lib (asks type name) m))

nil_of_le : (l : List Signal) → length l ≤ 0 → l ≡ []
nil_of_le [] h = refl
nil_of_le (s ∷ l) h = absurd (omega arith)

turns-commands : (n : ℕ) → commands (replicate n turns) ≡ []
unfolding commands
turns-commands zero = refl
turns-commands (suc n) = turns-commands n

turns-pending :
    (lib : Library) (n : ℕ) (m : Manager)
    → length m.pending ≤ n
    → (run lib (replicate n turns) m).pending ≡ []
unfolding run happen
turns-pending lib zero m h = nil_of_le m.pending h
turns-pending lib (suc n) m h = turns-pending lib n (turn lib m) (omega (arith, length-turn lib m))

cancel :
    (lib : Library) (before after : List Event) (l : List Signal) (cs : List Command)
    → before ++ slots lib l ≡ after ++ direct lib cs
    → l ≡ []
    → cs ≡ []
    → before ≡ after
unfolding slots direct
cancel lib before after [] [] e p q = sym (append-nil before) ∙ e ∙ append-nil after
cancel lib before after (s ∷ l) cs e p q = cc
cancel lib before after [] (c ∷ cs) e p q = cc

-- Turns that leave nothing pending do what was pending.
turns-done :
    (lib : Library) (n : ℕ) (m : Manager)
    → length m.pending ≤ n
    → (run lib (replicate n turns) m).done ≡ m.done ++ slots lib m.pending
turns-done lib n m h =
    cancel lib _ _ (run lib (replicate n turns) m).pending (commands (replicate n turns))
      (run-slots lib (replicate n turns) m) (turns-pending lib n m h) (turns-commands n)

run-slots_new :
    (lib : Library) (hs : List Happening)
    → (run lib hs new_manager).done ++ slots lib (run lib hs new_manager).pending
      ≡ direct lib (commands hs)
unfolding slots
run-slots_new lib hs = run-slots lib hs new_manager

-- Whatever calls come over the bus, in whatever order with the turns of the worker's thread and with
-- getSystemProp: what the worker's thread has done, followed by what the signals that are still queued
-- will do, is what the library calls of each command, one command after the other, would do; and after as
-- many more turns as there were calls, exactly that is done.
pub run-direct :
    (lib : Library) (hs : List Happening)
    → ((run lib hs new_manager).done ++ slots lib (run lib hs new_manager).pending
        ≡ direct lib (commands hs))
      × ((run lib (hs ++ replicate (length (commands hs)) turns) new_manager).done
          ≡ direct lib (commands hs))
run-direct lib hs =
    let now = run-slots_new lib hs in
    (
      now,
      ap (λ (m : Manager). m.done)
            (run-append lib hs (replicate (length (commands hs)) turns) new_manager)
          ∙ turns-done lib (length (commands hs)) (run lib hs new_manager)
              (omega (arith, pending-le lib hs new_manager))
          ∙ now,
    )

-- getSystemProp overtakes: asked right after a property is set, it calls the library before the
-- property is set there.
get_system_prop_overtakes :
    (lib : Library) (type : ℤ) (name value : Text)
    → (run lib
        (queues (set_system_prop type name value) ∷ asks type name ∷ turns ∷ [])
        new_manager).log
      ≡ (get_prop lib type name).1 ++ set_prop lib type name value
unfolding run happen signal_of emit turn get_system_prop slot
get_system_prop_overtakes lib type name value = refl
