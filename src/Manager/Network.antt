-- ===== src/Manager/Network.antt =====
-- The name servers that the container gets (manager/common/utils.cpp: getDnsListFromSysConfig;
-- manager/manager/kmremanager.cpp: initDockerDns).
pub mod Servers
use kylin_kmre_manager.Base.{
  ℕ, Bool, true, false, not, ◌&&◌, ◌||◌, List, [], ◌∷◌, ◌++◌, Option, none, some, length, keep_if,
  nat_beq, leb, if◌then◌else◌,
}
use kylin_kmre_manager.Base.Text.{
  Text, codes, starts_with, contains_text, is_empty, split_skip_empty,
}
use kylin_kmre_manager.Base.Lines.{read_lines}

-- QChar::isSpace.
unfoldable pub is_space : ℕ → Bool
is_space c =
    (leb 9 c && leb c 13)
    || (nat_beq c 32
        || (nat_beq c 0x85
            || (nat_beq c 0xa0
                || (nat_beq c 0x1680
                    || ((leb 0x2000 c && leb c 0x200a)
                        || (nat_beq c 0x2028
                            || (nat_beq c 0x2029
                                || (nat_beq c 0x202f
                                    || (nat_beq c 0x205f || nat_beq c 0x3000)))))))))

-- QString::trimmed.
unfoldable pub trim_front : Text → Text
trim_front [] = []
trim_front (c ∷ s) = let rest = trim_front s in if is_space c then rest else c ∷ s

unfoldable pub trim_back : Text → Text
trim_back [] = []
trim_back (c ∷ s) = let rest = trim_back s in if is_space c && is_empty rest then [] else c ∷ rest

unfoldable pub trimmed : Text → Text
unfolding trim_front trim_back
trimmed s = trim_back (trim_front s)

-- The second of two parts.
abbrev pub second_of_two : List Text → Option Text
second_of_two [] = none
second_of_two (a ∷ []) = none
second_of_two (a ∷ b ∷ []) = some b
second_of_two (a ∷ b ∷ c ∷ l) = none

-- An address of four parts.
unfoldable pub if_address : Text → List Text
if_address dns = if nat_beq (length (split_skip_empty dns b'.')) 4 then dns ∷ [] else []

abbrev pub from_spaces : Option Text → List Text
from_spaces none = []
from_spaces (some part) = if_address (trimmed part)

abbrev pub from_tabs : Option Text → Text → List Text
from_tabs none line = from_spaces (second_of_two (split_skip_empty line 32))
from_tabs (some part) line = if_address (trimmed part)

unfoldable pub dns_of_line : Text → List Text
unfolding if_address trimmed
dns_of_line line =
    if not (starts_with line (codes "#")) && contains_text line (codes "nameserver")
    then from_tabs (second_of_two (split_skip_empty line 9)) line
    else []

unfoldable pub dns_of_lines : List Text → List Text
unfolding dns_of_line
dns_of_lines [] = []
dns_of_lines (l ∷ ls) = dns_of_line l ++ dns_of_lines ls

-- getDnsListFromSysConfig, for what /etc/resolv.conf holds, if it can be opened.
unfoldable pub dns_list : Option Text → List Text
unfolding dns_of_lines
dns_list none = []
dns_list (some content) = dns_of_lines (read_lines [] content)

-- initDockerDns: the values of sys.custom.dns1 and sys.custom.dns2.
abbrev pub first_two : List Text → Text × Text
first_two [] = (codes "8.8.8.8", codes "114.114.114.114")
first_two (a ∷ []) = (a, codes "114.114.114.114")
first_two (a ∷ b ∷ l) = (a, b)

unfoldable pub init_docker_dns : Option Text → Text × Text
unfolding dns_list
init_docker_dns content =
    first_two (keep_if (λ dns. not (starts_with dns (codes "127"))) (dns_list content))
