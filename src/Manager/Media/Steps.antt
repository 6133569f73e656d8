-- ===== src/Manager/Media/Steps.antt =====
-- What one batch does to the tables and the counters (manager/communication/controlmanager.cpp).
use mathlib.Core.List.{append-nil, append_assoc}
use kylin_kmre_manager.Base.{
  ℕ, ◌≡◌, ◌≢◌, refl, ap, ◌∙◌, ◌⊎◌, inl, inr, Bool, true, false, ◌&&◌, ◌||◌, List, [], ◌∷◌, ◌++◌,
  Option, none, some, nat_beq, length, replicate, if◌then◌else◌, arith, Bool-cases, All,
}
use kylin_kmre_manager.Base.Int.{int_leb, int_leb_zero}
use kylin_kmre_manager.Manager.Media.Table.{AndroidMeta, Tables, insert_meta, remove_meta}
use kylin_kmre_manager.Manager.Media.Paths.{
  Host, FileCommand, is_of_app, type_part, name_part, link_named, remove_named, link_commands,
  remove_commands,
}
use kylin_kmre_manager.Manager.Media.Sync.{Media, emit_message, announce, sync_meta, sync_each}

-- A file that belongs to an application has a type and a path that are not made of slashes only.
abbrev pub IsProper : AndroidMeta → Type 0
IsProper m = (is_of_app m ≡ false) ⊎ ((type_part m ≢ none) × (name_part m ≢ none))

named_defined :
    (h : Host) (m : AndroidMeta) (part name : Option _)
    → part ≢ none
    → name ≢ none
    → ((cs : List FileCommand) × (link_named h m part name ≡ some cs))
      × ((cs : List FileCommand) × (remove_named h m part name ≡ some cs))
unfolding link_named remove_named
named_defined h m none name p n = absurd (p refl)
named_defined h m (some part) none p n = absurd (n refl)
named_defined h m (some part) (some name) p n = ((_, refl), (_, refl))

pub commands_defined :
    (h : Host) (m : AndroidMeta)
    → IsProper m
    → ((cs : List FileCommand) × (link_commands h m ≡ some cs))
      × ((cs : List FileCommand) × (remove_commands h m ≡ some cs))
unfolding link_commands remove_commands
commands_defined h m (inl none_of) = rw none_of (([], refl), ([], refl))
commands_defined h m (inr proper) = elim (Bool-cases (is_of_app m)) [
  | inl app ↦ rw app (named_defined h m (type_part m) (name_part m) proper.0 proper.1)
  | inr none_of ↦ rw none_of (([], refl), ([], refl))
]

-- The change of the tables for one file, by the type of the message.
abbrev pub change_tables : ℕ → AndroidMeta → Tables → Tables
change_tables type m t =
    if nat_beq type 0 || nat_beq type 1
    then insert_meta m t
    else if nat_beq type 2
    then remove_meta m t
    else t

abbrev pub change_all : ℕ → List AndroidMeta → Tables → Tables
change_all type [] t = t
change_all type (m ∷ l) t = change_all type l (change_tables type m t)

-- A dump of all files is complete.
abbrev pub is_complete : ℕ → ℕ → ℕ → Bool
is_complete type total current = nat_beq type 0 && int_leb total current

-- The counters after a file, and the signals for it.
abbrev pub after : ℕ → ℕ → ℕ → ℕ → ℕ
after type total current n = if is_complete type total current then 0 else n

abbrev pub is_told : ℕ → ℕ → ℕ → Bool
is_told type total current =
    if nat_beq type 0 then int_leb total current else nat_beq type 1 || nat_beq type 2

abbrev pub told : ℕ → List AndroidMeta → ℕ → ℕ → List (ℕ × List AndroidMeta)
told type metas total current = if is_told type total current then (type, metas) ∷ [] else []

-- What a file leads to.
pub record Stepped (type : ℕ) (metas : List AndroidMeta) (m : AndroidMeta) (s t : Media)
    : Type 0 where
  pub tables : t.tables ≡ change_tables type m s.tables
  pub current : t.current_num ≡ after type s.total_num s.current_num s.current_num
  pub total : t.total_num ≡ after type s.total_num s.current_num s.total_num
  pub messages : t.messages ≡ s.messages ++ told type metas s.total_num s.current_num

abbrev added : List FileCommand → Media → Media
added cs s = record s { commands = s.commands ++ cs }

announce-Stepped :
    (type : ℕ) (metas : List AndroidMeta) (m : AndroidMeta) (s : Media) (cs : List FileCommand)
    → (nat_beq type 0 || nat_beq type 1) ≡ true
    → Stepped type metas m s
        (added cs (announce type metas (record s { tables = insert_meta m s.tables })))
unfolding announce
announce-Stepped type metas m s cs e = record {
  tables = ground arith;
  current = ground arith;
  total = ground arith;
  messages = ground (arith, append-nil s.messages);
}

removed-Stepped :
    (type : ℕ) (metas : List AndroidMeta) (m : AndroidMeta) (s : Media) (cs : List FileCommand)
    → (nat_beq type 0 || nat_beq type 1) ≡ false
    → nat_beq type 2 ≡ true
    → Stepped type metas m s
        (added cs (emit_message type metas (record s { tables = remove_meta m s.tables })))
removed-Stepped type metas m s cs e two = record {
  tables = ground arith;
  current = ground arith;
  total = ground arith;
  messages = ground arith;
}

other-Stepped :
    (type : ℕ) (metas : List AndroidMeta) (m : AndroidMeta) (s : Media)
    → (nat_beq type 0 || nat_beq type 1) ≡ false
    → nat_beq type 2 ≡ false
    → Stepped type metas m s s
other-Stepped type metas m s e two = record {
  tables = ground arith;
  current = ground arith;
  total = ground arith;
  messages = ground (arith, append-nil s.messages);
}

pub sync_meta_lem :
    (h : Host) (type : ℕ) (metas : List AndroidMeta) (m : AndroidMeta) (s : Media)
    → IsProper m
    → (t : Media) × (sync_meta h type metas m s ≡ some t) × Stepped type metas m s t
unfolding sync_meta
sync_meta_lem h type metas m s proper =
    let ((links, l), (removals, r)) = commands_defined h m proper in
    elim (Bool-cases (nat_beq type 0 || nat_beq type 1)) [
      | inl e ↦ (_, rw (e, l) refl, announce-Stepped type metas m s links e)
      | inr e ↦ elim (Bool-cases (nat_beq type 2)) [
        | inl two ↦ (_, rw (e, two, r) refl, removed-Stepped type metas m s removals e two)
        | inr two ↦ (s, rw (e, two) refl, other-Stepped type metas m s e two)
      ]
    ]

abbrev pub counter_after : ℕ → List AndroidMeta → ℕ → ℕ → ℕ → ℕ
counter_after type [] total current n = n
counter_after type (m ∷ l) total current n = after type total current n

abbrev pub all_told : ℕ → List AndroidMeta → List AndroidMeta → ℕ → ℕ → List (ℕ × List AndroidMeta)
all_told type metas l total current =
    if is_told type total current then replicate (length l) (type, metas) else []

-- What a list of files leads to.
pub record Batched (type : ℕ) (metas l : List AndroidMeta) (s t : Media) : Type 0 where
  pub tables : t.tables ≡ change_all type l s.tables
  pub current : t.current_num ≡ counter_after type l s.total_num s.current_num s.current_num
  pub total : t.total_num ≡ counter_after type l s.total_num s.current_num s.total_num
  pub messages : t.messages ≡ s.messages ++ all_told type metas l s.total_num s.current_num

Batched-nil : (type : ℕ) (metas : List AndroidMeta) (s : Media) → Batched type metas [] s s
Batched-nil type metas s = record {
  tables = refl;
  current = refl;
  total = refl;
  messages = ground (arith, append-nil s.messages);
}

list_cases :
    (l : List AndroidMeta) → (l ≡ []) ⊎ ((m : AndroidMeta) × (k : List AndroidMeta) × (l ≡ m ∷ k))
list_cases [] = inl refl
list_cases (m ∷ k) = inr (m, k, refl)

Batched-cons :
    (type : ℕ) (metas : List AndroidMeta) (m : AndroidMeta) (l : List AndroidMeta) (s t u : Media)
    → Stepped type metas m s t
    → Batched type metas l t u
    → Batched type metas (m ∷ l) s u
Batched-cons type metas m l s t u one rest = record {
  tables = rest.tables ∙ ap (change_all type l) one.tables;
  current = ground (arith, one.current, one.total, rest.current, int_leb_zero, list_cases l);
  total = ground (arith, one.current, one.total, rest.total, int_leb_zero, list_cases l);
  messages = ground (
    arith,
    one.current,
    one.total,
    one.messages,
    rest.messages,
    int_leb_zero,
    append_assoc s.messages ((type, metas) ∷ []) (replicate (length l) (type, metas)),
    append-nil s.messages,
  );
}

pub sync_each_lem :
    (h : Host) (type : ℕ) (metas l : List AndroidMeta) (s : Media)
    → All IsProper l
    → (t : Media) × (sync_each h type metas l s ≡ some t) × Batched type metas l s t
unfolding sync_each
sync_each_lem h type metas [] s proper = (s, refl, Batched-nil type metas s)
sync_each_lem h type metas (m ∷ l) s proper =
    let (t, e, one) = sync_meta_lem h type metas m s proper.0 in
    let (u, f, rest) = sync_each_lem h type metas l t proper.1 in
    (u, rw e f, Batched-cons type metas m l s t u one rest)
