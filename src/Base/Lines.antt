-- ===== src/Base/Lines.antt =====
-- The lines of a text file: how they are written one by one, and how QTextStream reads them. Files have
-- no carriage returns.
use mathlib.Core.Path.{◌≡◌, refl, ap, ◌∙◌}
use mathlib.Core.Bool.{Bool, true}
use mathlib.Core.List.{List, [], ◌∷◌, ◌++◌, append-nil, append_assoc}
use native.Mathlib.Omega.{arith}
use kylin_kmre_manager.Base.Tests.{nat_beq, if◌then◌else◌}
use kylin_kmre_manager.Base.Lists.{All}
use kylin_kmre_manager.Base.Text.{Text, lacks, flush}

-- Each line followed by a newline.
unfoldable pub unlines : List Text → Text
unlines [] = []
unlines (l ∷ ls) = l ++ 10 ∷ unlines ls

-- QTextStream::readLine until atEnd.
unfoldable pub read_lines : Text → Text → List Text
read_lines current [] = flush current
read_lines current (c ∷ s) =
    let next = current ∷ read_lines [] s in
    let longer = read_lines (current ++ c ∷ []) s in if nat_beq c 10 then next else longer

-- A text without a newline.
abbrev pub is_line : Text → Bool
is_line s = lacks 10 s

pub read_lines-line :
    (l rest current : Text)
    → is_line l ≡ true
    → read_lines current (l ++ 10 ∷ rest) ≡ (current ++ l) ∷ read_lines [] rest
unfolding read_lines lacks
read_lines-line [] rest current h = rw (append-nil current) refl
read_lines-line (c ∷ l) rest current h =
    ground (arith, read_lines-line l rest (current ++ c ∷ []), append_assoc current (c ∷ []) l)

-- Lines that are written are read again.
pub read_lines-unlines :
    (ls : List Text) → All (λ l. is_line l ≡ true) ls → read_lines [] (unlines ls) ≡ ls
unfolding unlines
read_lines-unlines [] h = unfold read_lines in refl
read_lines-unlines (l ∷ ls) h =
    read_lines-line l (unlines ls) [] h.0 ∙ ap (λ t. l ∷ t) (read_lines-unlines ls h.1)
