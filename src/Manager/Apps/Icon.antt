-- ===== src/Manager/Apps/Icon.antt =====
-- The icons of the container's applications (manager/communication/backendworker.cpp: convertPngToSvg,
-- generateIcon, updateDekstopAndIcon; with removeDekstopAndIcon, as controlmanager.cpp calls them). The
-- directories of icons and desktop files are there or can be made.
pub mod Staying
use kylin_kmre_manager.Base.{
  ℕ, ◌≡◌, refl, ◌∙◌, Bool, true, false, not, ◌&&◌, ◌||◌, List, [], ◌∷◌, ◌++◌, Option, none, some,
  ◌==◌, list_eq, list_beq, ==-refl, nat_beq, nat_beq_iff, if◌then◌else◌, arith,
}
use kylin_kmre_manager.Base.Text.{Text, codes, is_empty}
use kylin_kmre_manager.Manager.Apps.Desktop.{
  AppInfo, DesktopFile, generate_desktop, png_icon, svg_icon, desktop_name, desktop_path,
  remove_desktop_and_icon, if_there,
}

-- Which files there are.
abbrev pub Files : Type 0
Files = Text → Bool

abbrev pub with_file : Text → Files → Files
with_file p f q = if q == p then true else f q

abbrev pub without : Text → Files → Files
without p f q = if q == p then false else f q

unfoldable pub without_all : List Text → Files → Files
without_all [] f = f
without_all (p ∷ ps) f = without_all ps (without p f)

-- convertPngToSvg; `loads` tells which files are images.
unfoldable pub convert_png_to_svg : (Text → Bool) → Text → Text → Files → Files × Bool
convert_png_to_svg loads png svg f =
    if is_empty png || not (f png)
    then (f, false)
    else if loads png
    then (with_file svg f, true)
    else (f, false)

-- The calls of sed on an icon.
pub data Edit : Type 0 where
  inserts_badge : Text → Edit
  substitutes : Text → Text → Text → Edit

abbrev pub edits : Text → List Edit
edits svg =
    inserts_badge svg
    ∷ substitutes (codes "\"96\"") (codes "\"83\"") svg
    ∷ substitutes (codes "\"128\"") (codes "\"83\"") svg
    ∷ substitutes (codes "\"256\"") (codes "\"83\"") svg
    ∷ substitutes (codes "viewBox=\"0 0 128 128\"") (codes "viewBox=\"0 0 96 96\"") svg
    ∷ substitutes (codes "viewBox=\"0 0 256 256\"") (codes "viewBox=\"0 0 96 96\"") svg
    ∷ []

-- containerIconPath.
unfoldable pub container_icon : Text → Text → Text → Text
container_icon uid user pkg =
    codes "/var/lib/kmre/kmre-"
    ++ uid
    ++ codes "-"
    ++ user
    ++ codes "/data/local/icons/"
    ++ pkg
    ++ codes ".png"

-- The worker's members and the home directory.
pub record Login : Type 0 where
  pub home : Text
  pub uid : Text
  pub user : Text

pub record Generated : Type 0 where
  pub files : Files
  pub edited : List Edit
  pub result : Bool

abbrev pub after_conversion : Text → Files × Bool → Generated
after_conversion svg (f, true) = record { files = f; edited = edits svg; result = true }
after_conversion svg (f, false) = record { files = f; edited = []; result = false }

unfoldable pub generate_icon : (Text → Bool) → Login → Text → Files → Generated
unfolding convert_png_to_svg
generate_icon loads u [] f = record { files = f; edited = []; result = false }
generate_icon loads u (c ∷ pkg) f =
    let png = container_icon u.uid u.user (c ∷ pkg) in
    let svg = svg_icon u.home (c ∷ pkg) in
    if f png
    then after_conversion svg (convert_png_to_svg loads png svg (without svg f))
    else record { files = f; edited = []; result = false }

-- updateDekstopAndIcon, for whether the desktop file can be opened: the files, and the answer.
unfoldable pub update_desktop_and_icon :
    (Text → Bool) → Bool → Login → AppInfo → Files → Files × Bool
unfolding generate_icon
update_desktop_and_icon loads can_open u a f = elim (generate_desktop can_open u.home a) [
  | none ↦ (f, false)
  | some d ↦ (
    (generate_icon loads u a.pkg_name (with_file (desktop_path u.home a.pkg_name) f)).files,
    true,
  )
]

-- removeDekstopAndIcon, where each file can be removed.
unfoldable pub removed : Login → Text → Files → Files
unfolding without_all
removed u pkg f = without_all (remove_desktop_and_icon f u.home pkg) f
