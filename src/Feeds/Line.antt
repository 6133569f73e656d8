-- ===== src/Feeds/Line.antt =====
-- What GpsdataGet and SensordataGet do with bytes (gps/gpsdataget.cpp, sensors/sensordataget.cpp).
-- `beyond` is what the memory holds behind a byte array, which a copy that is too long reads.
use kylin_kmre_manager.Base.{
  ℕ, zero, suc, ◌+◌, ◌≤◌, ◌≡◌, refl, ap, ◌≢◌, Bool, true, false, List, [], ◌∷◌, ◌++◌, All, ltb,
  nat_beq, if◌then◌else◌, take, length, arith,
}
use kylin_kmre_manager.Base.Text.{Text}
use kylin_kmre_manager.Base.Int.{ℤ, pos, negsuc}

-- QString::toLatin1: a character that Latin-1 has not becomes a question mark.
abbrev pub to_latin1 : Text → List ℕ
to_latin1 [] = []
to_latin1 (c ∷ s) = (if ltb c 256 then c else 63) ∷ to_latin1 s

-- memcpy of n bytes from a QByteArray, which ends in a zero.
unfoldable pub copied : ℕ → List ℕ → List ℕ → List ℕ
copied n bytes beyond = take n (bytes ++ 0 ∷ beyond)

-- What printf's %s reads: the bytes before the first zero.
unfoldable pub until_nul : List ℕ → List ℕ
until_nul [] = []
until_nul (b ∷ bytes) = let rest = until_nul bytes in if nat_beq b 0 then [] else b ∷ rest

abbrev pub is_negative : ℤ → Bool
is_negative (pos n) = false
is_negative (negsuc n) = true

-- A socket by its number, and the writes made: the socket and the bytes of each.
abbrev pub Writes : Type 0
Writes = List (ℕ × List ℕ)

pub length-to_latin1 : (s : Text) → length (to_latin1 s) ≡ length s
length-to_latin1 [] = refl
length-to_latin1 (c ∷ s) = ap suc (length-to_latin1 s)

take_within : (n : ℕ) (xs ys : List ℕ) → n ≤ length xs → take n (xs ++ ys) ≡ take n xs
take_within zero xs ys h = refl
take_within (suc n) [] ys h = absurd (omega (arith, h))
take_within (suc n) (x ∷ xs) ys h = ap (λ l. x ∷ l) (take_within n xs ys (omega arith))

take_past : (n k : ℕ) (xs ys : List ℕ) → n ≡ length xs + k → take n (xs ++ ys) ≡ xs ++ take k ys
take_past n k [] ys h = ground arith
take_past zero k (x ∷ xs) ys h = absurd (omega (arith, h))
take_past (suc n) k (x ∷ xs) ys h = ap (λ l. x ∷ l) (take_past n k xs ys (omega arith))

-- A copy that is no longer than the array takes its first bytes.
pub copied_within :
    (n : ℕ) (bytes beyond : List ℕ) → n ≤ length bytes → copied n bytes beyond ≡ take n bytes
unfolding copied
copied_within n bytes beyond h = take_within n bytes (0 ∷ beyond) h

-- A copy that is longer takes the array, the zero, and what lies behind it.
pub copied_past :
    (n k : ℕ) (bytes beyond : List ℕ)
    → n ≡ length bytes + suc k
    → copied n bytes beyond ≡ bytes ++ 0 ∷ take k beyond
unfolding copied
copied_past n k bytes beyond h = take_past n (suc k) bytes (0 ∷ beyond) h

-- Bytes without a zero in front of a zero are what %s reads.
pub until_nul_lem :
    (bytes rest : List ℕ) → All (λ b. b ≢ 0) bytes → until_nul (bytes ++ 0 ∷ rest) ≡ bytes
unfolding until_nul
until_nul_lem [] rest h = refl
until_nul_lem (b ∷ bytes) rest h = ground (arith, until_nul_lem bytes rest)
