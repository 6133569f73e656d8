-- ===== src/Feeds/Gps.antt =====
-- GpsdataGet (gps/gpsdataget.cpp).
use kylin_kmre_manager.Base.{
  ℕ, ◌+◌, ◌<◌, ◌≡◌, ◌∙◌, refl, true, false, List, [], ◌∷◌, ◌++◌, Option, none, some, if◌then◌else◌,
  take, length, length-append, arith,
}
use kylin_kmre_manager.Base.Text.{Text, codes}
use kylin_kmre_manager.Base.Int.{ℤ, pos}
use kylin_kmre_manager.Feeds.Line.{
  to_latin1, copied, is_negative, Writes, length-to_latin1, copied_within, copied_past,
}

-- The position of the sentence: the data, or a place in Beijing if it is empty.
abbrev pub position : Text → Text
position [] = codes "3954.4405,N,11623.4799,E"
position (c ∷ text) = c ∷ text

unfoldable pub sentence : Text → Text
sentence text = codes "$GPGGA,005548," ++ (position text ++ codes ",1,06,,0.0,M,0.,M,,0000*47")

-- senddata, an array of 65 bytes.
unfoldable pub senddata : List ℕ → Text → List ℕ
senddata beyond text = copied 65 (to_latin1 (sentence text)) beyond

-- writeData: the return code and the writes; `put` is the result of writeFully on a stream.
unfoldable pub write_data : (ℕ → ℤ) → List ℕ → Option ℕ → Text → ℤ × Writes
write_data put beyond none text = (pos 0, [])
write_data put beyond (some s) text = (put s, (s, senddata beyond text) ∷ [])

-- updateSocket and the second attempt, for what accept gives.
unfoldable pub resend : (ℕ → ℤ) → List ℕ → Option ℕ → Text → Option ℕ × Writes
unfolding write_data
resend put beyond none text = (none, [])
resend put beyond (some s) text = (some s, (write_data put beyond (some s) text).1)

-- sendData: the new m_stream and the writes.
unfoldable pub send_data : (ℕ → ℤ) → List ℕ → Option ℕ → Option ℕ → Text → Option ℕ × Writes
unfolding write_data resend
send_data put beyond accept stream text =
    let (ret, writes) = write_data put beyond stream text in
    let (stream', more) = resend put beyond accept text in
    if is_negative ret then (stream', writes ++ more) else (stream, writes)

length-sentence : (text : Text) → length (sentence text) ≡ 40 + length (position text)
unfolding sentence
length-sentence text =
    omega (arith, length-append (position text) (codes ",1,06,,0.0,M,0.,M,,0000*47"))

length-latin1-sentence :
    (text : Text) → length (to_latin1 (sentence text)) ≡ 40 + length (position text)
length-latin1-sentence text = length-to_latin1 (sentence text) ∙ length-sentence text

-- The bytes for the container. A position of 24 characters gives the whole sentence with its closing
-- zero, whatever lies in memory. A shorter one is followed by bytes that lie in memory behind the
-- sentence. Of a longer one the end of the sentence is cut off.
pub senddata_lem :
    (beyond : List ℕ) (text : Text)
    → let whole = to_latin1 (sentence text) in
      (length (position text) ≡ 24 → senddata beyond text ≡ whole ++ 0 ∷ [])
      × ((k : ℕ)
          → length (position text) + k ≡ 24
          → senddata beyond text ≡ whole ++ 0 ∷ take k beyond)
      × (24 < length (position text) → senddata beyond text ≡ take 65 whole)
unfolding senddata
senddata_lem beyond text =
    let whole = to_latin1 (sentence text) in
    let size = length-latin1-sentence text in
    (
      λ h. copied_past 65 0 whole beyond (omega (arith, size)),
      λ k h. copied_past 65 k whole beyond (omega (arith, size)),
      λ h. copied_within 65 whole beyond (omega (arith, size)),
    )

-- sendData on a connected stream writes the 65 bytes to it. Only if that fails does it wait for another
-- client, which then gets the same bytes once and is the stream from then on; without another
-- client no stream is left.
send_data_lem :
    (put : ℕ → ℤ) (beyond : List ℕ) (accept : Option ℕ) (s : ℕ) (text : Text)
    → let line = senddata beyond text in
      let out = send_data put beyond accept (some s) text in
      (is_negative (put s) ≡ false → out ≡ (some s, (s, line) ∷ []))
      × (is_negative (put s) ≡ true → accept ≡ none → out ≡ (none, (s, line) ∷ []))
      × ((t : ℕ)
          → is_negative (put s) ≡ true
          → accept ≡ some t
          → out ≡ (some t, (s, line) ∷ (t, line) ∷ []))
unfolding send_data
send_data_lem put beyond accept s text = (
  λ fine. rw fine refl,
  λ failed nobody. rw (failed, nobody) refl,
  λ t failed other. rw (failed, other) refl,
)
