-- ===== src/Feeds/Throttle.antt =====
-- How often accelerations are passed on (sensors/dbusadaptor.cpp: passAcceKey; sensors/myutils.h:
-- time_diff_us).
use mathlib.Core.List.{append-nil, append_assoc}
use kylin_kmre_manager.Base.{
  ℕ, ◌+◌, ◌-◌, ◌*◌, ◌/◌, ◌≤◌, ◌<◌, ◌≡◌, refl, sym, ap, ◌∙◌, Bool, true, false, not, List, [], ◌∷◌,
  ◌++◌, ltb, if◌then◌else◌, arith, ◌⊎◌, inl, inr,
}
use kylin_kmre_manager.Base.Text.{Text, codes, is_empty}

-- timespec.
pub record Time : Type 0 where
  pub sec : ℕ
  pub nsec : ℕ

-- What time_diff_us adds and what it takes away, each division rounding toward zero.
abbrev pub gained : Time → Time → ℕ
gained now stamp = (now.sec - stamp.sec) * 1000000 + (now.nsec - stamp.nsec) / 1000

-- Whether time_diff_us(now, stamp) is more than a number of microseconds.
unfoldable pub is_longer : ℕ → Time → Time → Bool
is_longer us now stamp = ltb (us + gained stamp now) (gained now stamp)

-- The adaptor's `flag` and `stamp`, and what was handed to SensordataGet::sendData.
pub record Adaptor : Type 0 where
  pub flag : Bool
  pub stamp : Time
  pub sent : List Text

abbrev pub shaken : Bool → Text
shaken true = codes "-8.:3.0:6.6"
shaken false = codes "2.9:-4.:2.6"

-- The text that an empty one stands for alternates.
abbrev pub data_of : Bool → Text → Text
data_of flag text = if is_empty text then shaken flag else text

abbrev pub flag_after : Bool → Text → Bool
flag_after flag text = if is_empty text then not flag else flag

-- passAcceKey at a time; `inter` is the interval in microseconds.
unfoldable pub pass_acce_key : ℕ → Adaptor → Text × Time → Adaptor
unfolding is_longer
pass_acce_key inter a (text, now) = record {
  flag = flag_after a.flag text;
  stamp = now;
  sent = a.sent ++ (if is_longer inter now a.stamp then data_of a.flag text ∷ [] else []);
}

unfoldable pub pass_all : ℕ → Adaptor → List (Text × Time) → Adaptor
unfolding pass_acce_key
pass_all inter a [] = a
pass_all inter a (c ∷ cs) = pass_all inter (pass_acce_key inter a c) cs

-- A time in nanoseconds, and the nanoseconds of a timespec, which are less than a second.
abbrev pub nanos : Time → ℕ
nanos t = t.sec * 1000000000 + t.nsec

abbrev pub IsTime : Time → Type 0
IsTime t = t.nsec < 1000000000

-- Each call has a time, and comes either at most 100 ms after the one before (or earlier than it), or at
-- least 100.001 ms after it: the source counts in microseconds and drops what is below one.
abbrev pub AreTimed : Time → List (Text × Time) → Type 0
AreTimed stamp [] = IsTime stamp
AreTimed stamp ((text, now) ∷ cs) =
    IsTime stamp
    × ((nanos now ≤ nanos stamp + 100000000) ⊎ (nanos stamp + 100001000 ≤ nanos now))
    × AreTimed now cs

abbrev pub if_due : Time → Time → Text → List Text
if_due stamp now text = if ltb (nanos stamp + 100000000) (nanos now) then text ∷ [] else []

-- The specification: the texts of the calls that come more than 100 ms after the call before, where two
-- fixed texts stand for the empty ones in turn.
abbrev pub texts_due : Time → Bool → List (Text × Time) → List Text
texts_due stamp turn [] = []
texts_due stamp true (([], now) ∷ cs) =
    if_due stamp now (codes "-8.:3.0:6.6") ++ texts_due now false cs
texts_due stamp false (([], now) ∷ cs) =
    if_due stamp now (codes "2.9:-4.:2.6") ++ texts_due now true cs
texts_due stamp turn ((c ∷ text, now) ∷ cs) = if_due stamp now (c ∷ text) ++ texts_due now turn cs

is_longer-nanos :
    (now stamp : Time)
    → IsTime now
    → IsTime stamp
    → (nanos now ≤ nanos stamp + 100000000) ⊎ (nanos stamp + 100001000 ≤ nanos now)
    → is_longer 100000 now stamp ≡ ltb (nanos stamp + 100000000) (nanos now)
unfolding is_longer
is_longer-nanos now stamp p q (inl close) =
    let short : gained now stamp ≤ 100000 + gained stamp now = omega arith in
    let e : ltb (100000 + gained stamp now) (gained now stamp) ≡ false = ground arith in
    let f : ltb (nanos stamp + 100000000) (nanos now) ≡ false = ground arith in e ∙ sym f
is_longer-nanos now stamp p q (inr apart) =
    let long : 100000 + gained stamp now < gained now stamp = omega arith in
    let e : ltb (100000 + gained stamp now) (gained now stamp) ≡ true = ground arith in
    let f : ltb (nanos stamp + 100000000) (nanos now) ≡ true = ground arith in e ∙ sym f

AreTimed-IsTime : (stamp : Time) (cs : List (Text × Time)) → AreTimed stamp cs → IsTime stamp
AreTimed-IsTime stamp [] h = h
AreTimed-IsTime stamp ((text, now) ∷ cs) h = h.0

due_step :
    (flag : Bool) (stamp : Time) (text : Text) (now : Time) (cs : List (Text × Time))
    → (if ltb (nanos stamp + 100000000) (nanos now) then data_of flag text ∷ [] else [])
        ++ texts_due now (flag_after flag text) cs
      ≡ texts_due stamp flag ((text, now) ∷ cs)
due_step true stamp [] now cs = refl
due_step false stamp [] now cs = refl
due_step true stamp (c ∷ text) now cs = refl
due_step false stamp (c ∷ text) now cs = refl

-- What passAcceKey hands on of any calls at such times.
pub pass_all_due :
    (a : Adaptor) (cs : List (Text × Time))
    → AreTimed a.stamp cs
    → (pass_all 100000 a cs).sent ≡ a.sent ++ texts_due a.stamp a.flag cs
unfolding pass_all pass_acce_key
pass_all_due a [] h = sym (append-nil a.sent)
pass_all_due a ((text, now) ∷ cs) h =
    let passes = is_longer-nanos now a.stamp (AreTimed-IsTime now cs h.2) h.0 h.1 in
    let due : Bool → List Text = λ b. if b then data_of a.flag text ∷ [] else [] in
    pass_all_due (pass_acce_key 100000 a (text, now)) cs h.2
    ∙ append_assoc a.sent (due (is_longer 100000 now a.stamp))
        (texts_due now (flag_after a.flag text) cs)
    ∙ ap (λ b. a.sent ++ (due b ++ texts_due now (flag_after a.flag text) cs)) passes
    ∙ ap (λ l. a.sent ++ l) (due_step a.flag a.stamp text now cs)
