-- ===== src/Manager/Network/Servers.antt =====
-- The name servers of a resolv.conf (manager/common/utils.cpp, manager/manager/kmremanager.cpp).
use kylin_kmre_manager.Base.{
  ℕ, zero, suc, ◌≡◌, refl, sym, replicate, inl, inr, ap, ◌∙◌, Bool, true, false, not, ◌&&◌, List,
  [], ◌∷◌, ◌++◌, map, some, length, nat_beq, if◌then◌else◌, arith, Bool-cases, ==→≡, nat_eq, All,
}
use kylin_kmre_manager.Base.Text.{
  Text, codes, lacks, is_empty, contains_text, flush, pieces, split_skip_empty, pieces_last,
  pieces_next,
}
use kylin_kmre_manager.Base.Lines.{unlines, is_line, read_lines-unlines}
use kylin_kmre_manager.Manager.Network.{
  is_space, trim_front, trim_back, trimmed, second_of_two, if_address, from_spaces, from_tabs,
  dns_of_line, dns_of_lines, dns_list,
}

-- A line of the file: a name server, after one tab or one space and `more` of them; a comment; and a line
-- that is about something else.
pub data ResolvLine : Type 0 where
  nameserver : (tab : Bool) (more : ℕ) (address : Text) → ResolvLine
  comment other : Text → ResolvLine

abbrev pub print_line : ResolvLine → Text
print_line (nameserver true more address) = codes "nameserver" ++ 9 ∷ (replicate more 9 ++ address)
print_line (nameserver false more address) =
    codes "nameserver" ++ 32 ∷ (replicate more 32 ++ address)
print_line (comment t) = b'#' ∷ t
print_line (other t) = t

unfoldable pub has_no_space : Text → Bool
has_no_space [] = true
has_no_space (c ∷ s) = not (is_space c) && has_no_space s

-- An address is not empty and has no white space; a comment has no newline; and another line has neither
-- a newline nor the word of a name server.
unfoldable pub IsGood : ResolvLine → Type 0
IsGood (nameserver tab more address) = (has_no_space address ≡ true) × (is_empty address ≡ false)
IsGood (comment t) = is_line t ≡ true
IsGood (other t) = (is_line t ≡ true) × (contains_text t (codes "nameserver") ≡ false)

-- The addresses of the name servers that have four parts between dots.
unfoldable pub addresses : List ResolvLine → List Text
addresses [] = []
addresses (nameserver tab more address ∷ ls) =
    if nat_beq (length (split_skip_empty address b'.')) 4
    then address ∷ addresses ls
    else addresses ls
addresses (comment t ∷ ls) = addresses ls
addresses (other t ∷ ls) = addresses ls

lacks_blanks :
    (c d n : ℕ) (s : Text)
    → nat_beq d c ≡ false
    → lacks c s ≡ true
    → lacks c (d ∷ (replicate n d ++ s)) ≡ true
unfolding lacks
lacks_blanks c d zero s h k = ground arith
lacks_blanks c d (suc n) s h k = ground (arith, lacks_blanks c d n s)

pieces_blanks : (sep n : ℕ) (s : Text) → pieces sep (replicate n sep ++ s) [] ≡ pieces sep s []
unfolding pieces
pieces_blanks sep zero s = refl
pieces_blanks sep (suc n) s = ground (arith, pieces_blanks sep n s)

lacks_space : (c : ℕ) (s : Text) → is_space c ≡ true → has_no_space s ≡ true → lacks c s ≡ true
unfolding lacks has_no_space
lacks_space c [] h k = refl
lacks_space c (x ∷ s) h k = elim (Bool-cases (nat_beq x c)) [
  | inl same ↦ absurd (ground (arith, h, k, ap is_space (==→≡ x c same)))
  | inr differs ↦ ground (arith, lacks_space c s h)
]

trim_front_plain : (s : Text) → has_no_space s ≡ true → trim_front s ≡ s
unfolding trim_front has_no_space
trim_front_plain [] h = refl
trim_front_plain (c ∷ s) h = ground arith

trim_back_plain : (s : Text) → has_no_space s ≡ true → trim_back s ≡ s
unfolding trim_back has_no_space
trim_back_plain [] h = refl
trim_back_plain (c ∷ s) h = ground (arith, trim_back_plain s)

trimmed_plain : (s : Text) → has_no_space s ≡ true → trimmed s ≡ s
unfolding trimmed
trimmed_plain s h = ap trim_back (trim_front_plain s h) ∙ trim_back_plain s h

nonempty : (a : Text) → is_empty a ≡ false → flush a ≡ a ∷ []
nonempty [] h = ground arith
nonempty (c ∷ a) h = refl

-- The parts of a name server's line, at the separator that it has.
split_blanks :
    (sep n : ℕ) (a : Text)
    → lacks sep (codes "nameserver") ≡ true
    → lacks sep a ≡ true
    → flush a ≡ a ∷ []
    → split_skip_empty (codes "nameserver" ++ sep ∷ (replicate n sep ++ a)) sep
      ≡ codes "nameserver" ∷ a ∷ []
unfolding split_skip_empty
split_blanks sep n a w h e =
    pieces_next sep (codes "nameserver") (replicate n sep ++ a) [] w
    ∙ ap (λ l. codes "nameserver" ∷ l) (pieces_blanks sep n a ∙ pieces_last sep a [] h ∙ e)

no_tab :
    (n : ℕ) (a : Text)
    → lacks 9 a ≡ true
    → split_skip_empty (codes "nameserver" ++ 32 ∷ (replicate n 32 ++ a)) 9
      ≡ (codes "nameserver" ++ 32 ∷ (replicate n 32 ++ a)) ∷ []
unfolding split_skip_empty lacks
no_tab n a h =
    pieces_last 9 (codes "nameserver" ++ 32 ∷ (replicate n 32 ++ a)) []
      (lacks_blanks 9 32 n a refl h)

if_address-plain :
    (a : Text)
    → has_no_space a ≡ true
    → if_address (trimmed a) ≡ (if nat_beq (length (split_skip_empty a b'.')) 4 then a ∷ [] else [])
unfolding if_address
if_address-plain a h = rw (trimmed_plain a h) refl

dns_of_line-print_line :
    (l : ResolvLine) → IsGood l → dns_of_line (print_line l) ≡ addresses (l ∷ [])
unfolding dns_of_line IsGood addresses contains_text lacks
dns_of_line-print_line (nameserver true n a) good =
    let tabs =
      split_blanks 9 n a refl (lacks_space 9 a (unfold is_space in refl) good.0)
        (nonempty a good.1) in
    ap (λ ps. from_tabs (second_of_two ps) (print_line (nameserver true n a))) tabs
    ∙ if_address-plain a good.0
dns_of_line-print_line (nameserver false n a) good =
    let none_there = no_tab n a (lacks_space 9 a (unfold is_space in refl) good.0) in
    let spaces =
      split_blanks 32 n a refl (lacks_space 32 a (unfold is_space in refl) good.0)
        (nonempty a good.1) in
    ap (λ ps. from_tabs (second_of_two ps) (print_line (nameserver false n a))) none_there
    ∙ ap (λ ps. from_spaces (second_of_two ps)) spaces
    ∙ if_address-plain a good.0
dns_of_line-print_line (comment t) good = refl
dns_of_line-print_line (other t) good = ground (arith, good.1)

addresses-cons :
    (l : ResolvLine) (ls : List ResolvLine)
    → addresses (l ∷ ls) ≡ addresses (l ∷ []) ++ addresses ls
unfolding addresses
addresses-cons (nameserver tab n a) ls = ground arith
addresses-cons (comment t) ls = refl
addresses-cons (other t) ls = refl

dns_of_lines-print_line :
    (ls : List ResolvLine) → All IsGood ls → dns_of_lines (map print_line ls) ≡ addresses ls
unfolding dns_of_lines
dns_of_lines-print_line [] good = unfold addresses in refl
dns_of_lines-print_line (l ∷ ls) good =
    ap (λ t. t ++ dns_of_lines (map print_line ls)) (dns_of_line-print_line l good.0)
    ∙ ap (λ t. addresses (l ∷ []) ++ t) (dns_of_lines-print_line ls good.1)
    ∙ sym (addresses-cons l ls)

print_line-is_line : (l : ResolvLine) → IsGood l → is_line (print_line l) ≡ true
unfolding IsGood lacks
print_line-is_line (nameserver true n a) good =
    lacks_blanks 10 9 n a refl (lacks_space 10 a (unfold is_space in refl) good.0)
print_line-is_line (nameserver false n a) good =
    lacks_blanks 10 32 n a refl (lacks_space 10 a (unfold is_space in refl) good.0)
print_line-is_line (comment t) good = good
print_line-is_line (other t) good = good.0

print_lines-is_line :
    (ls : List ResolvLine) → All IsGood ls → All (λ t. is_line t ≡ true) (map print_line ls)
print_lines-is_line [] good = tt
print_lines-is_line (l ∷ ls) good = (print_line-is_line l good.0, print_lines-is_line ls good.1)

-- If each line of the file is a comment, a line without the word of a name server, or a name server with
-- an address without white space that stands, with nothing behind it, after any number of tabs or after
-- any number of spaces, then those of the addresses that have four parts between dots are read, as they
-- stand in the file and in that order; and the others, such as those of IPv6, are not.
pub dns_list-print_line :
    (ls : List ResolvLine)
    → All IsGood ls
    → dns_list (some (unlines (map print_line ls))) ≡ addresses ls
unfolding dns_list
dns_list-print_line ls good =
    ap dns_of_lines (read_lines-unlines (map print_line ls) (print_lines-is_line ls good))
    ∙ dns_of_lines-print_line ls good
