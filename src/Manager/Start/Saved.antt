-- ===== src/Manager/Start/Saved.antt =====
-- The environment that the manager saves for the other programs (manager/main.cpp).
use mathlib.Core.List.{append-nil, append_assoc, map-append}
use kylin_kmre_manager.Base.{
  ℕ, ◌≡◌, refl, sym, ap, ◌∙◌, Bool, true, false, ◌&&◌, List, [], ◌∷◌, ◌++◌, map, Option, some, All,
  All-append, if◌then◌else◌, arith, list_eq,
}
use kylin_kmre_manager.Base.Text.{Text, codes, lacks}
use kylin_kmre_manager.Base.Lines.{unlines, read_lines, is_line, read_lines-unlines}
use kylin_kmre_manager.Manager.Display.Prime.{split_first}
use kylin_kmre_manager.Manager.Start.{
  Variable, Host, Saving, use_software_render, put_env, write, save_theme, save_swrast_x86,
  save_swrast_arm, save_i965, save_driver, save_iris, set_and_save_env,
}

-- The specification: which variables the host asks for, in order.
abbrev pub mesa_override : Text → Variable
mesa_override driver = (codes "MESA_LOADER_DRIVER_OVERRIDE", driver)

abbrev swrast_if : Bool → List Variable
swrast_if b = if b then mesa_override (codes "swrast") ∷ [] else []

abbrev driver_wanted : Host → List Variable
driver_wanted h =
    if use_software_render h.virt_type
    then swrast_if (h.is_x86_64 && h.has_swrast_x86) ++ swrast_if (h.is_aarch64 && h.has_swrast_arm)
    else if h.prefers_i965 && h.has_i965
    then mesa_override (codes "i965") ∷ []
    else []

abbrev iris_wanted : Host → List Variable
iris_wanted h = if h.has_iris then (codes "KMRE_ENV_DRI_DRIVER", codes "iris") ∷ [] else []

abbrev pub variables : Host → List Variable
variables h = (codes "QT_QPA_PLATFORMTHEME", codes "ukui") ∷ driver_wanted h ++ iris_wanted h

-- The environment with each of them set that can be set.
unfoldable pub set_all : (Text → Bool) → List Variable → List Variable → List Variable
set_all can_set [] env = env
set_all can_set (v ∷ vs) env = set_all can_set vs (if can_set v.0 then v ∷ env else env)

set_all-append :
    (can_set : Text → Bool) (vs ws env : List Variable)
    → set_all can_set (vs ++ ws) env ≡ set_all can_set ws (set_all can_set vs env)
unfolding set_all
set_all-append can_set [] ws env = refl
set_all-append can_set (v ∷ vs) ws env =
    set_all-append can_set vs ws (if can_set v.0 then v ∷ env else env)

abbrev env_line : Variable → Text
env_line v = v.0 ++ (codes "=" ++ v.1)

unlines-append : (ls ms : List Text) → unlines (ls ++ ms) ≡ unlines ls ++ unlines ms
unfolding unlines
unlines-append [] ms = refl
unlines-append (l ∷ ls) ms =
    ap (λ t. l ++ 10 ∷ t) (unlines-append ls ms)
    ∙ sym (append_assoc l (10 ∷ unlines ls) (unlines ms))

-- A step that sets these variables and writes a line for each.
record Saves (can_set : Text → Bool) (vs : List Variable) (s t : Saving) : Type 0 where
  env : t.env ≡ set_all can_set vs s.env
  written : t.written ≡ s.written ++ unlines (map env_line vs)

Saves-none : (can_set : Text → Bool) (s : Saving) → Saves can_set [] s s
unfolding set_all unlines
Saves-none can_set s = record { env = refl; written = sym (append-nil s.written) }

Saves-then :
    (can_set : Text → Bool) (vs ws : List Variable) (s t u : Saving)
    → Saves can_set vs s t
    → Saves can_set ws t u
    → Saves can_set (vs ++ ws) s u
Saves-then can_set vs ws s t u a b = record {
  env = b.env ∙ ap (set_all can_set ws) a.env ∙ sym (set_all-append can_set vs ws s.env);
  written =
      b.written
      ∙ ap (λ l. l ++ unlines (map env_line ws)) a.written
      ∙ append_assoc s.written (unlines (map env_line vs)) (unlines (map env_line ws))
      ∙ ap (λ l. s.written ++ l)
          (sym (unlines-append (map env_line vs) (map env_line ws))
            ∙ ap unlines (sym (map-append env_line vs ws)));
}

-- qputenv and the write of one variable.
Saves-one :
    (can_set : Text → Bool) (v : Variable) (line : Text) (s : Saving)
    → line ≡ unlines (env_line v ∷ [])
    → Saves can_set (v ∷ []) s (write line (put_env can_set v.0 v.1 s))
unfolding write put_env set_all
Saves-one can_set v line s e = record { env = refl; written = ap (λ l. s.written ++ l) e }

Saves-if :
    (can_set : Text → Bool) (b : Bool) (v : Variable) (line : Text) (s : Saving)
    → line ≡ unlines (env_line v ∷ [])
    → Saves can_set
        (if b then v ∷ [] else [])
        s
        (if b then write line (put_env can_set v.0 v.1 s) else s)
Saves-if can_set true v line s e = Saves-one can_set v line s e
Saves-if can_set false v line s e = Saves-none can_set s

save_driver-Saves :
    (can_set : Text → Bool) (h : Host) (s : Saving)
    → Saves can_set (driver_wanted h) s (save_driver can_set h s)
unfolding save_driver save_swrast_x86 save_swrast_arm save_i965 unlines
save_driver-Saves can_set h s = cases (use_software_render h.virt_type) h.prefers_i965
  where
    x86 : Saving
    x86 = save_swrast_x86 can_set h s

    cases :
        (software prefers : Bool)
        → Saves can_set
            (if software
              then swrast_if (h.is_x86_64 && h.has_swrast_x86)
                ++ swrast_if (h.is_aarch64 && h.has_swrast_arm)
              else if prefers && h.has_i965
              then mesa_override (codes "i965") ∷ []
              else [])
            s
            (if software
              then save_swrast_arm can_set h (save_swrast_x86 can_set h s)
              else if prefers
              then save_i965 can_set h s
              else s)
    cases true prefers =
        Saves-then can_set _ _ s x86 _
          (Saves-if can_set (h.is_x86_64 && h.has_swrast_x86) (mesa_override (codes "swrast")) _ s
            refl)
          (Saves-if can_set (h.is_aarch64 && h.has_swrast_arm) (mesa_override (codes "swrast")) _
            x86 refl)
    cases false true = Saves-if can_set h.has_i965 (mesa_override (codes "i965")) _ s refl
    cases false false = Saves-none can_set s

all_saved :
    (can_set : Text → Bool) (h : Host) (s : Saving)
    → Saves can_set
        (variables h)
        s
        (save_iris can_set h (save_driver can_set h (save_theme can_set s)))
unfolding save_theme save_iris unlines
all_saved can_set h s =
    let theme = save_theme can_set s in
    let driver = save_driver can_set h theme in
    Saves-then can_set ((codes "QT_QPA_PLATFORMTHEME", codes "ukui") ∷ []) _ s theme _
      (Saves-one can_set (codes "QT_QPA_PLATFORMTHEME", codes "ukui") _ s refl)
      (Saves-then can_set (driver_wanted h) (iris_wanted h) theme driver _
        (save_driver-Saves can_set h theme)
        (Saves-if can_set h.has_iris (codes "KMRE_ENV_DRI_DRIVER", codes "iris") _ driver refl))

-- A line that is read: the name before the first equals sign, and the value after it.
unfoldable pub read_variables : List Text → List (Option (Text × Text))
read_variables [] = []
read_variables (l ∷ ls) = split_first b'=' l ∷ read_variables ls

split_first-append :
    (c : ℕ) (a b : Text) → lacks c a ≡ true → split_first c (a ++ c ∷ b) ≡ some (a, b)
unfolding split_first lacks
split_first-append c [] b h = ground arith
split_first-append c (x ∷ a) b h = ground (arith, split_first-append c a b)

-- A name without an equals sign, and no newline.
abbrev IsPrintable : Variable → Type 0
IsPrintable v = (lacks b'=' v.0 ≡ true) × (is_line (env_line v) ≡ true)

read_variables-env_line :
    (vs : List Variable) → All IsPrintable vs → read_variables (map env_line vs) ≡ map some vs
unfolding read_variables
read_variables-env_line [] h = refl
read_variables-env_line (v ∷ vs) h =
    ap (λ o. o ∷ read_variables (map env_line vs)) (first v h.0)
    ∙ ap (λ t. some v ∷ t) (read_variables-env_line vs h.1)
  where
    first : (v : Variable) → IsPrintable v → split_first b'=' (env_line v) ≡ some v
    first v h = split_first-append b'=' v.0 v.1 h.0

lines_of : (vs : List Variable) → All IsPrintable vs → All (λ l. is_line l ≡ true) (map env_line vs)
lines_of [] h = tt
lines_of (v ∷ vs) h = (h.0.1, lines_of vs h.1)

optional : (b : Bool) (v : Variable) → IsPrintable v → All IsPrintable (if b then v ∷ [] else [])
optional true v h = (h, tt)
optional false v h = tt

driver-IsPrintable : (driver : Text) → is_line driver ≡ true → IsPrintable (mesa_override driver)
unfolding lacks
driver-IsPrintable driver h = (refl, h)

driver_wanted-IsPrintable : (h : Host) → All IsPrintable (driver_wanted h)
unfolding lacks
driver_wanted-IsPrintable h =
    let swrast = driver-IsPrintable (codes "swrast") refl in
    cases swrast (driver-IsPrintable (codes "i965") refl) (use_software_render h.virt_type)
  where
    cases :
        IsPrintable (mesa_override (codes "swrast"))
        → IsPrintable (mesa_override (codes "i965"))
        → (software : Bool)
        → All IsPrintable (
            if software
            then swrast_if (h.is_x86_64 && h.has_swrast_x86)
              ++ swrast_if (h.is_aarch64 && h.has_swrast_arm)
            else if h.prefers_i965 && h.has_i965
            then mesa_override (codes "i965") ∷ []
            else [])
    cases p q true =
        All-append IsPrintable (swrast_if (h.is_x86_64 && h.has_swrast_x86))
          (swrast_if (h.is_aarch64 && h.has_swrast_arm))
          (optional (h.is_x86_64 && h.has_swrast_x86) _ p)
          (optional (h.is_aarch64 && h.has_swrast_arm) _ p)
    cases p q false = optional (h.prefers_i965 && h.has_i965) _ q

variables-IsPrintable : (h : Host) → All IsPrintable (variables h)
unfolding lacks
variables-IsPrintable h = (
  (refl, refl),
  All-append IsPrintable (driver_wanted h) (iris_wanted h) (driver_wanted-IsPrintable h)
      (optional h.has_iris _ (refl, refl)),
)

-- When the file for the environment can be opened, what it holds is read back, line by line, as the
-- variables that the host asks for, in order; and the program's own environment is that before with
-- each of these set, to the same value, that can be set.
pub set_and_save_env-read :
    (can_set : Text → Bool) (h : Host) (env : List Variable) (content : Text)
    → (set_and_save_env true can_set h env).1 ≡ some content
    → (read_variables (read_lines [] content) ≡ map some (variables h))
      × ((set_and_save_env true can_set h env).0 ≡ set_all can_set (variables h) env)
unfolding set_and_save_env
set_and_save_env-read can_set h env content e =
    let printable = variables-IsPrintable h in
    let saved = all_saved can_set h (record { env = env; written = [] }) in
    (
      ap (λ t. read_variables (read_lines [] t)) (some_eq _ _ (sym e) ∙ saved.written)
          ∙ ap read_variables
              (read_lines-unlines (map env_line (variables h)) (lines_of (variables h) printable))
          ∙ read_variables-env_line (variables h) printable,
      saved.env,
    )
  where
    some_eq : (a b : Text) → some a ≡ some b → a ≡ b
    some_eq a b p = cc
