-- ===== src/Manager/Camera/Socket.antt =====
-- The socket of the camera service and the closing of descriptors (manager/camera/camera_service.cpp:
-- the constructor, startWorker).
use kylin_kmre_manager.Base.{
  ℕ, suc, ◌≡◌, ◌⊎◌, inl, inr, refl, sym, subst, if_both, Bool, true, false, List, [], ◌∷◌, ◌++◌,
  Option, none, some, ◌==◌, list_eq, if◌then◌else◌, arith, ==-refl,
}
use kylin_kmre_manager.Base.Int.{ℤ, pos}
use kylin_kmre_manager.Base.Text.{Text, codes}
use kylin_kmre_manager.Manager.Camera.Service.{
  Answers, is_positive, video, usable, numbers, Camera, selected, fall_back, Served, serve,
}

-- The constructor: the device that kmre.ini names, `none` without that file or key.
abbrev pub device_or_empty : Option Text → Text
device_or_empty none = []
device_or_empty (some device) = device

unfoldable pub new_camera : Option Text → Camera
new_camera conf = record { device_name = device_or_empty conf; use_selected = false }

unfoldable pub socket_path : Text → Text → Text
socket_path uid user =
    codes "/var/lib/kmre/kmre-" ++ (uid ++ (codes "-" ++ (user ++ codes "/sockets/kmre_camera")))

-- What the kernel answers while the socket is made.
pub record SetUp : Type 0 where
  pub socket : Option ℕ
  pub binds : Bool
  pub listens : Bool

-- Whether startWorker has returned or waits for one more client.
pub data Ending : Type 0 where
  returned serving : Ending

-- What startWorker leaves: the sockets that are open, whether its path is there, the state, and what
-- each client got.
pub record Worker : Type 0 where
  pub open_sockets : List ℕ
  pub has_path : Bool
  pub camera : Camera
  pub served : List Served
  pub ending : Ending

-- The loop, for what accept gives: a client's socket with the answers while it is served.
unfoldable pub accept_loop : ℕ → List (Option (ℕ × Answers)) → Camera → Worker
accept_loop listen_fd [] c = record {
  open_sockets = listen_fd ∷ [];
  has_path = true;
  camera = c;
  served = [];
  ending = serving;
}
accept_loop listen_fd (none ∷ l) c = record {
  open_sockets = [];
  has_path = false;
  camera = c;
  served = [];
  ending = returned;
}
accept_loop listen_fd (some (com_fd, k) ∷ l) c =
    let rest = accept_loop listen_fd l (serve k c).camera in
    record rest { served = serve k c ∷ rest.served }

-- The end after an error, with the socket closed and its path unlinked.
abbrev pub given_up : Bool → Camera → Worker
given_up there c = record {
  open_sockets = [];
  has_path = there;
  camera = c;
  served = [];
  ending = returned;
}

-- startWorker; `there` tells whether a file stands at the path before.
unfoldable pub start_worker : SetUp → Bool → List (Option (ℕ × Answers)) → Camera → Worker
unfolding accept_loop
start_worker u there clients c = elim u.socket [
  | none ↦ given_up there c
  | some fd ↦
      if u.binds
      then (if u.listens then accept_loop fd clients c else given_up false c)
      else given_up false c
]

-- The calls of close in the loop over the devices, for the selected name and the descriptor before.
abbrev pub close_if_positive : ℤ → List ℤ
close_if_positive fd = if is_positive fd then fd ∷ [] else []

unfoldable pub search_closes : Answers → List ℕ → Text → ℤ → List ℤ
search_closes k [] name fd = []
search_closes k (i ∷ is) name fd =
    let skipped = search_closes k is name fd in
    let next = search_closes k is (video i) (k.open_device (suc i) (video i)) in
    close_if_positive fd
    ++ (if video i == name then skipped else if usable k (suc i) (video i) then [] else next)

-- All calls of close on descriptors of devices while a client is served.
unfoldable pub device_closes : Answers → Camera → List ℤ
unfolding search_closes fall_back
device_closes k c =
    if usable k 0 (selected c)
    then k.open_device 0 (selected c) ∷ []
    else search_closes k numbers (selected c) (k.open_device 0 (selected c))
      ++ (fall_back k c).1 ∷ []

-- What is left: nothing after the return, and the listening socket at its path while it serves.
abbrev pub Leaves : ℕ → Worker → Type 0
Leaves fd w =
    ((w.ending ≡ returned) × (w.open_sockets ≡ []) × (w.has_path ≡ false))
    ⊎ ((w.ending ≡ serving) × (w.open_sockets ≡ fd ∷ []) × (w.has_path ≡ true))

accept_loop-Leaves :
    (fd : ℕ) (l : List (Option (ℕ × Answers))) (c : Camera) → Leaves fd (accept_loop fd l c)
unfolding accept_loop
accept_loop-Leaves fd [] c = inr (refl, refl, refl)
accept_loop-Leaves fd (none ∷ l) c = inl (refl, refl, refl)
accept_loop-Leaves fd (some (com_fd, k) ∷ l) c = accept_loop-Leaves fd l (serve k c).camera

-- When startWorker has got a socket: either it has returned, no socket of it is open and its path is
-- gone; or it serves, and the listening socket alone is open, at its path.
start_worker-Leaves :
    (fd : ℕ) (u : SetUp) (there : Bool) (clients : List (Option (ℕ × Answers))) (c : Camera)
    → u.socket ≡ some fd
    → Leaves fd (start_worker u there clients c)
unfolding start_worker
start_worker-Leaves fd u there clients c e =
    subst
      (λ (o : Option ℕ). Leaves fd (elim o [
        | none ↦ given_up there c
        | some fd ↦
            if u.binds
            then (if u.listens then accept_loop fd clients c else given_up false c)
            else given_up false c
      ]))
      (sym e)
      (if_both (Leaves fd) u.binds
        (if_both (Leaves fd) u.listens (accept_loop-Leaves fd clients c) (inl (refl, refl, refl)))
        (inl (refl, refl, refl)))

-- A selected device /dev/video<i> that opens and is no camera is closed twice, one round after the other,
-- whatever is opened later.
search_closes_twice :
    (k : Answers) (i j n : ℕ) (is : List ℕ)
    → (rest : List ℤ) × (search_closes k (i ∷ j ∷ is) (video i) (pos (suc n))
        ≡ pos (suc n) ∷ pos (suc n) ∷ rest)
unfolding search_closes
search_closes_twice k i j n is = (
  if video j == video i
      then search_closes k is (video i) (pos (suc n))
      else if usable k (suc j) (video j)
      then []
      else search_closes k is (video j) (k.open_device (suc j) (video j)),
  ground (arith, ==-refl (video i)),
)
