-- ===== src/Feeds/Sensor.antt =====
-- SensordataGet (sensors/sensordataget.cpp). sprintf's output is taken to fit its array of 128 bytes.
use mathlib.Core.List.{append_assoc}
use kylin_kmre_manager.Base.{
  ℕ, ◌+◌, ◌-◌, ◌≤◌, ◌≡◌, ◌≢◌, ◌∙◌, refl, ap, true, false, List, [], ◌∷◌, ◌++◌, Option, none, some,
  if◌then◌else◌, take, replicate, length, All, arith,
}
use kylin_kmre_manager.Base.Text.{Text, codes}
use kylin_kmre_manager.Base.Int.{ℤ}
use kylin_kmre_manager.Feeds.Line.{
  to_latin1, copied, until_nul, is_negative, Writes, length-to_latin1, copied_past, until_nul_lem,
}

-- What the memory holds behind the byte array and behind senddata, and the digits of the time.
pub record Memory : Type 0 where
  pub heap : List ℕ
  pub stack : List ℕ
  pub time : List ℕ

unfoldable pub acceleration : Text → Text
acceleration text = codes "acceleration:" ++ text

-- senddata, an array of 24 bytes.
unfoldable pub senddata : Memory → Text → List ℕ
unfolding acceleration
senddata m text = copied 24 (to_latin1 (acceleration text)) m.heap

-- The array of 128 bytes, with bytes printed into it.
abbrev pub padded : List ℕ → List ℕ
padded bytes = take 128 (bytes ++ replicate 128 0)

unfoldable pub sensordata : Memory → Text → List ℕ
unfolding senddata
sensordata m text = padded (until_nul (senddata m text ++ m.stack) ++ (codes "sync:" ++ m.time))

-- writeData on m_stream; `none` where a null pointer is followed.
unfoldable pub write_data : (ℕ → ℤ) → Memory → Option ℕ → Text → Option (ℤ × Writes)
unfolding sensordata
write_data put m none text = none
write_data put m (some s) text = some (put s, (s, sensordata m text) ∷ [])

-- The second attempt, on what accept gave.
unfoldable pub resend : (ℕ → ℤ) → Memory → Option ℕ → Text → Writes → Option (Option ℕ × Writes)
unfolding write_data
resend put m accept text writes = elim (write_data put m accept text) [
  | none ↦ none
  | some (ret, more) ↦ some (accept, writes ++ more)
]

unfoldable pub send_by :
    (ℕ → ℤ) → Memory → Option ℕ → ℕ → Text → ℤ × Writes → Option (Option ℕ × Writes)
unfolding resend
send_by put m accept s text (ret, writes) =
    if is_negative ret then resend put m accept text writes else some (some s, writes)

-- sendData: the new m_stream and the writes. `accept` is what updateSocket's accept gives.
unfoldable pub send_data :
    (ℕ → ℤ) → Memory → Option ℕ → Option ℕ → Text → Option (Option ℕ × Writes)
unfolding write_data send_by
send_data put m accept none text = some (none, [])
send_data put m accept (some s) text = elim (write_data put m (some s) text) [
  | none ↦ none
  | some out ↦ send_by put m accept s text out
]

length-acceleration : (text : Text) → length (to_latin1 (acceleration text)) ≡ 13 + length text
unfolding acceleration
length-acceleration text = omega (arith, length-to_latin1 text)

printed :
    (m : Memory) (text : Text)
    → length text ≤ 10
    → All (λ b. b ≢ 0) (to_latin1 (acceleration text))
    → until_nul (senddata m text ++ m.stack) ≡ to_latin1 (acceleration text)
unfolding senddata
printed m text short clean =
    let whole = to_latin1 (acceleration text) in
    let k = 10 - length text in
    let size = length-acceleration text in
    ap (λ l. until_nul (l ++ m.stack)) (copied_past 24 k whole m.heap (omega (arith, size, short)))
    ∙ ap until_nul (append_assoc whole (0 ∷ take k m.heap) m.stack)
    ∙ until_nul_lem whole (take k m.heap ++ m.stack) clean

-- An acceleration of at most ten characters, without a zero in its Latin-1 form, arrives as it is,
-- followed by the time, whatever lies in memory.
sensordata_lem :
    (m : Memory) (text : Text)
    → length text ≤ 10
    → All (λ b. b ≢ 0) (to_latin1 (acceleration text))
    → sensordata m text ≡ padded (to_latin1 (acceleration text) ++ (codes "sync:" ++ m.time))
unfolding sensordata
sensordata_lem m text short clean =
    ap (λ l. padded (l ++ (codes "sync:" ++ m.time))) (printed m text short clean)

-- sendData without a stream does nothing. With one it writes the message, and only if that fails it
-- waits for another client: that client gets the message once and is the stream from then on,
-- but if accept gives none, the program follows a null pointer.
send_data_null :
    (put : ℕ → ℤ) (m : Memory) (accept : Option ℕ) (s : ℕ) (text : Text)
    → let line = sensordata m text in
      let out = send_data put m accept (some s) text in
      (send_data put m accept none text ≡ some (none, []))
      × (is_negative (put s) ≡ false → out ≡ some (some s, (s, line) ∷ []))
      × (is_negative (put s) ≡ true → accept ≡ none → out ≡ none)
      × ((t : ℕ)
          → is_negative (put s) ≡ true
          → accept ≡ some t
          → out ≡ some (some t, (s, line) ∷ (t, line) ∷ []))
unfolding send_data
send_data_null put m accept s text = (
  refl,
  λ fine. rw fine refl,
  λ failed nobody. rw (failed, nobody) refl,
  λ t failed other. rw (failed, other) refl,
)
