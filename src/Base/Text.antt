-- ===== src/Base/Text.antt =====
-- A QString as the list of its code points, with the operations of Qt that the program uses.
use Prim.Native.Nat.{ℕ}
use Prim.Native.Char.{code}
use Prim.Native.String.{String}
use mathlib.Core.Path.{◌≡◌, refl, sym, ap}
use mathlib.Core.Bool.{Bool, true, false, not, ◌&&◌, ◌||◌}
use mathlib.Core.List.{List, [], ◌∷◌, ◌++◌, append-nil, append_assoc}
use native.Mathlib.Omega.{arith}
use kylin_kmre_manager.Base.Tests.{nat_beq, if◌then◌else◌}
use kylin_kmre_manager.Base.Lists.{length, drop}

abbrev pub Text : Type 0
Text = List ℕ

-- The text of a literal.
abbrev pub codes : String → Text
codes String.[] = []
codes (String.◌∷◌ c s) = code c ∷ codes s

-- QString::startsWith.
abbrev pub starts_with : Text → Text → Bool
starts_with s [] = true
starts_with [] (y ∷ ys) = false
starts_with (x ∷ xs) (y ∷ ys) = nat_beq x y && starts_with xs ys

pub starts_with-append : (s t : Text) → starts_with (s ++ t) s ≡ true
starts_with-append [] t = refl
starts_with-append (x ∷ xs) t = ground (arith, starts_with-append xs t)

-- A text that starts with `t` is `t` and the rest.
pub append-drop_of_starts_with : (s t : Text) → starts_with s t ≡ true → s ≡ t ++ drop (length t) s
append-drop_of_starts_with s [] h = refl
append-drop_of_starts_with [] (y ∷ ys) h = ground arith
append-drop_of_starts_with (x ∷ xs) (y ∷ ys) h = ground (arith, append-drop_of_starts_with xs ys)

-- QString::contains, and QString::indexOf other than -1.
unfoldable pub contains_text : Text → Text → Bool
contains_text [] t = starts_with [] t
contains_text (c ∷ s) t = starts_with (c ∷ s) t || contains_text s t

-- A text without a character.
unfoldable pub lacks : ℕ → Text → Bool
lacks c [] = true
lacks c (x ∷ s) = not (nat_beq x c) && lacks c s

pub lacks-append :
    (c : ℕ) (s t : Text) → lacks c s ≡ true → lacks c t ≡ true → lacks c (s ++ t) ≡ true
unfolding lacks
lacks-append c [] t p q = q
lacks-append c (x ∷ s) t p q = ground (arith, lacks-append c s t)

abbrev pub is_empty : Text → Bool
is_empty [] = true
is_empty (c ∷ s) = false

abbrev pub flush : Text → List Text
flush [] = []
flush (c ∷ s) = (c ∷ s) ∷ []

unfoldable pub pieces : ℕ → Text → Text → List Text
pieces sep [] current = flush current
pieces sep (c ∷ s) current =
    let next = flush current ++ pieces sep s [] in
    let longer = pieces sep s (current ++ c ∷ []) in if nat_beq c sep then next else longer

-- QString::split at a character, with SkipEmptyParts.
unfoldable pub split_skip_empty : Text → ℕ → List Text
unfolding pieces
split_skip_empty s sep = pieces sep s []

-- A piece that lacks the character, at the end and before the character.
pub pieces_last :
    (sep : ℕ) (s current : Text) → lacks sep s ≡ true → pieces sep s current ≡ flush (current ++ s)
unfolding pieces lacks
pieces_last sep [] current h = ap flush (sym (append-nil current))
pieces_last sep (c ∷ s) current h =
    ground (arith, pieces_last sep s (current ++ c ∷ []), append_assoc current (c ∷ []) s)

pub pieces_next :
    (sep : ℕ) (p s current : Text)
    → lacks sep p ≡ true
    → pieces sep (p ++ sep ∷ s) current ≡ flush (current ++ p) ++ pieces sep s []
unfolding pieces lacks
pieces_next sep [] s current h = ground (arith, append-nil current)
pieces_next sep (c ∷ p) s current h =
    ground (arith, pieces_next sep p s (current ++ c ∷ []), append_assoc current (c ∷ []) p)
