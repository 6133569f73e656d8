-- ===== src/Manager/Camera/Choice.antt =====
-- What a client of the container's camera gets (manager/camera/camera_service.cpp).
use kylin_kmre_manager.Base.{
  ℕ, suc, ◌≡◌, refl, sym, ap, ◌∙◌, ◌⊎◌, inl, inr, Bool, true, false, ◌&&◌, ◌||◌, not, List, [], ◌∷◌,
  some, ◌==◌, nat_eq, list_eq, ==-refl, any, length, Bool-cases, &&-eq-true, subst, arith,
}
use kylin_kmre_manager.Base.Text.{Text}
use kylin_kmre_manager.Base.Int.{ℤ, pos, negsuc, minus_one, int_beq}
use kylin_kmre_manager.Manager.Camera.Service.{
  Answers, is_positive, video, usable, search, numbers, Camera, selected, fall_back, hand_over,
  Served, serve, Message, message, send_fd,
}

-- Whether a name and a descriptor are those of a usable attempt of the loop.
abbrev pub is_result : Answers → Text × ℤ → ℕ → Bool
is_result k (name, fd) i =
    usable k (suc i) (video i)
    && ((video i == name) && int_beq (k.open_device (suc i) (video i)) fd)

-- A device that the loop will not skip: usable, and not the one that was tried last.
abbrev pub offered : Answers → Text → ℕ → Bool
offered k name i = usable k (suc i) (video i) && not (video i == name)

-- The names differ.
abbrev pub are_distinct : List ℕ → Bool
are_distinct [] = true
are_distinct (i ∷ is) = not (any (λ j. video j == video i) is) && are_distinct is

int_beq_refl : (z : ℤ) → int_beq z z ≡ true
int_beq_refl (pos n) = ground arith
int_beq_refl (negsuc n) = ground arith

offered_distinct :
    (k : Answers) (name other : Text) (is : List ℕ)
    → any (offered k name) is ≡ true
    → any (λ j. video j == other) is ≡ false
    → any (offered k other) is ≡ true
offered_distinct k name other [] h fresh = cc
offered_distinct k name other (i ∷ is) h fresh = ground (arith, offered_distinct k name other is)

-- One step of the loop, by what the device is.
search-step :
    (k : Answers) (i : ℕ) (is : List ℕ) (name : Text) (fd : ℤ)
    → (video i == name ≡ true) × (search k (i ∷ is) name fd ≡ search k is name fd)
      ⊎ ((video i == name ≡ false)
            × (usable k (suc i) (video i) ≡ true)
            × (search k (i ∷ is) name fd ≡ (video i, k.open_device (suc i) (video i)))
          ⊎ (usable k (suc i) (video i) ≡ false)
            × (search k (i ∷ is) name fd ≡ search k is (video i) (k.open_device (suc i) (video i))))
unfolding search
search-step k i is name fd = elim (Bool-cases (video i == name)) [
  | inl same ↦ inl (same, rw same refl)
  | inr new ↦ elim (Bool-cases (usable k (suc i) (video i))) [
    | inl good ↦ inr (inl (new, good, rw (new, good) refl))
    | inr bad ↦ inr (inr (bad, rw (new, bad) refl))
  ]
]

or_right : (a b : Bool) → b ≡ true → (a || b) ≡ true
or_right a b h = ground arith

or_left : (a b : Bool) → a ≡ true → (a || b) ≡ true
or_left a b h = ground arith

is_result_itself :
    (k : Answers) (i : ℕ)
    → usable k (suc i) (video i) ≡ true
    → is_result k (video i, k.open_device (suc i) (video i)) i ≡ true
is_result_itself k i h =
    ground (arith, ==-refl (video i), int_beq_refl (k.open_device (suc i) (video i)))

distinct_numbers : are_distinct numbers ≡ true
unfolding video numbers
distinct_numbers = refl

search-is_result :
    (k : Answers) (is : List ℕ) (name : Text) (fd : ℤ)
    → are_distinct is ≡ true
    → any (offered k name) is ≡ true
    → any (is_result k (search k is name fd)) is ≡ true
search-is_result k [] name fd d h = cc
search-is_result k (i ∷ is) name fd d h =
    let Found = λ (r : Text × ℤ). any (is_result k r) (i ∷ is) ≡ true in
    let (fresh, d') = &&-eq-true (not (any (λ j. video j == video i) is)) (are_distinct is) d in
    elim (search-step k i is name fd)
      as (λ _. any (is_result k (search k (i ∷ is) name fd)) (i ∷ is) ≡ true) [
        | inl (same, e) ↦
            let r = search k is name fd in
            let later : any (offered k name) is ≡ true = ground (arith, same, h) in
            subst Found (sym e) (
              or_right (is_result k r i) (any (is_result k r) is)
                (search-is_result k is name fd d' later))
        | inr (inl (new, good, e)) ↦
            let r : Text × ℤ = (video i, k.open_device (suc i) (video i)) in
            subst Found (sym e)
              (or_left (is_result k r i) (any (is_result k r) is) (is_result_itself k i good))
        | inr (inr (bad, e)) ↦
            let fd' = k.open_device (suc i) (video i) in
            let r = search k is (video i) fd' in
            let later : any (offered k name) is ≡ true = ground (arith, bad, h) in
            let other : any (λ j. video j == video i) is ≡ false = ground (arith, fresh) in
            subst Found (sym e) (
              or_right (is_result k r i) (any (is_result k r) is) (
                search-is_result k is (video i) fd' d'
                  (offered_distinct k name (video i) is later other)))
      ]

result-is_positive :
    (k : Answers) (r : Text × ℤ) (is : List ℕ)
    → any (is_result k r) is ≡ true
    → is_positive r.1 ≡ true
result-is_positive k r [] h = cc
result-is_positive k (name, pos n) (i ∷ is) h =
    ground (arith, result-is_positive k (name, pos n) is)
result-is_positive k (name, negsuc n) (i ∷ is) h =
    ground (arith, result-is_positive k (name, negsuc n) is)

handed_over :
    (c : Camera) (first : Bool) (r : Text × ℤ)
    → is_positive r.1 ≡ true
    → let out = hand_over c first r in
      (out.sent ≡ some r) × (out.camera.device_name ≡ r.0) × (first ≡ true → out.current ≡ some r.0)
unfolding hand_over
handed_over c first (name, fd) up = ground arith

serve_first :
    (k : Answers) (c : Camera)
    → usable k 0 (selected c) ≡ true
    → serve k c ≡ hand_over c true (selected c, k.open_device 0 (selected c))
unfolding serve
serve_first k c good = rw good refl

serve-fall_back :
    (k : Answers) (c : Camera)
    → usable k 0 (selected c) ≡ false
    → serve k c ≡ hand_over c false (fall_back k c)
unfolding serve
serve-fall_back k c bad = rw bad refl

fall_back-is_result :
    (k : Answers) (c : Camera)
    → any (offered k (selected c)) numbers ≡ true
    → any (is_result k (fall_back k c)) numbers ≡ true
unfolding fall_back
fall_back-is_result k c h =
    search-is_result k numbers (selected c) (k.open_device 0 (selected c)) distinct_numbers h

-- A client gets the selected device if that is a camera, and it is announced as the current one.
-- Otherwise, if some /dev/video0 to /dev/video11 other than the selected device is a camera, it gets one
-- of those that are, and that one is selected from then on.
pub serve_lem :
    (k : Answers) (c : Camera)
    → let out = serve k c in
      (usable k 0 (selected c) ≡ true
        → (out.sent ≡ some (selected c, k.open_device 0 (selected c)))
          × (out.current ≡ some (selected c)))
      × (usable k 0 (selected c) ≡ false
          → any (offered k (selected c)) numbers ≡ true
          → (r : Text × ℤ) × (out.sent ≡ some r)
            × (any (is_result k r) numbers ≡ true)
            × (out.camera.device_name ≡ r.0))
serve_lem k c = (
  λ good.
      let r : Text × ℤ = (selected c, k.open_device 0 (selected c)) in
      let up : is_positive r.1 ≡ true = ground (arith, good) in
      let (sent, kept, current) = handed_over c true r up in
      (
        ap (λ (o : Served). o.sent) (serve_first k c good) ∙ sent,
        ap (λ (o : Served). o.current) (serve_first k c good) ∙ current refl,
      ),
  λ bad h.
      let r = fall_back k c in
      let found = fall_back-is_result k c h in
      let (sent, kept, current) = handed_over c false r (result-is_positive k r numbers found) in
      (
        r,
        ap (λ (o : Served). o.sent) (serve-fall_back k c bad) ∙ sent,
        found,
        ap (λ (o : Served). o.camera.device_name) (serve-fall_back k c bad) ∙ kept,
      ),
)

-- send_fd reports a failure also when everything was sent: whether sendmsg fails or sends all bytes of
-- the message, the return code is -1.
send_fd_lem :
    (sendmsg : Message → ℤ) (fd : ℤ) (number : ℕ)
    → (sendmsg (message fd number) ≡ pos (length (message fd number).bytes))
      ⊎ ((e : ℕ) × (sendmsg (message fd number) ≡ negsuc e))
    → send_fd sendmsg fd number ≡ minus_one
unfolding send_fd message
send_fd_lem sendmsg (pos fd) number (inl all) = rw all refl
send_fd_lem sendmsg (negsuc fd) number (inl all) = rw all refl
send_fd_lem sendmsg (pos fd) number (inr (e, failed)) = rw failed refl
send_fd_lem sendmsg (negsuc fd) number (inr (e, failed)) = rw failed refl
