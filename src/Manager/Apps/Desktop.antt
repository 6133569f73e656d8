-- ===== src/Manager/Apps/Desktop.antt =====
-- The desktop files and icons of the container's applications (manager/communication/backendworker.cpp:
-- generateDesktop, removeDekstopAndIcon; controlmanager.cpp: updateAllAppNameInDesktop, getAppInfo,
-- onUpdateAppDesktopAndIcon). Files have no carriage returns.
use kylin_kmre_manager.Base.{
  ℕ, ◌-◌, Bool, ◌&&◌, not, List, [], ◌∷◌, ◌++◌, map, Option, none, some, ◌==◌, list_eq, nat_beq,
  take, drop, length, keep_if, if◌then◌else◌,
}
use kylin_kmre_manager.Base.Text.{Text, codes, starts_with, is_empty}
use kylin_kmre_manager.Base.Lines.{unlines, read_lines}

pub record AppInfo : Type 0 where
  pub pkg_name : Text
  pub app_name : Text
  pub version : Text

-- The lines that generateDesktop writes.
unfoldable pub desktop_lines : Text → AppInfo → List Text
desktop_lines home a =
    codes "[Desktop Entry]"
    ∷ codes "Terminal=false"
    ∷ codes "Type=Application"
    ∷ codes "StartupNotify=false"
    ∷ codes "Keywords=Android;App;Apk"
    ∷ codes "Categories=Android;App;Apk"
    ∷ codes "X-GXDE-KMREAPP=true"
    ∷ (codes "X-GXDE-KMRE-PKGNAME=" ++ a.pkg_name)
    ∷ (codes "Name=" ++ a.app_name)
    ∷ (codes "Name[zh_CN]=" ++ a.app_name)
    ∷ (codes "Comment=" ++ a.app_name)
    ∷ (codes "Comment[zh_CN]=" ++ a.app_name)
    ∷ (codes "Exec=/usr/bin/startapp " ++ (a.pkg_name ++ (codes " " ++ a.version)))
    ∷ (codes "Icon=" ++ (home ++ (codes "/.local/share/icons/" ++ (a.pkg_name ++ codes ".svg"))))
    ∷ []

-- A desktop file: its name in the directory, and what it holds.
pub record DesktopFile : Type 0 where
  pub name : Text
  pub content : Text

unfoldable pub desktop_name : Text → Text
desktop_name pkg = codes "gxme-" ++ (pkg ++ codes ".desktop")

-- generateDesktop, if the file can be opened.
unfoldable pub generate_desktop : Bool → Text → AppInfo → Option DesktopFile
generate_desktop can_open home a =
    if is_empty a.pkg_name
    then none
    else if can_open
    then some (record { name = desktop_name a.pkg_name; content = unlines (desktop_lines home a) })
    else none

unfoldable pub rename_line : Text → Text → Text
rename_line name line =
    if starts_with line (codes "Name=")
    then codes "Name=" ++ name
    else if starts_with line (codes "Name[zh_CN]=")
    then codes "Name[zh_CN]=" ++ name
    else if starts_with line (codes "Comment=")
    then codes "Comment=" ++ name
    else if starts_with line (codes "Comment[zh_CN]=")
    then codes "Comment[zh_CN]=" ++ name
    else line

unfoldable pub new_content : Text → Text → Text
unfolding rename_line
new_content name content = unlines (map (rename_line name) (read_lines [] content))

-- The package of a desktop file: chop and remove.
unfoldable pub pkg_of_desktop : Text → Text
pkg_of_desktop name = drop 5 (take (length name - 8) name)

-- The name in the first entry for a package, empty if there is none.
unfoldable pub app_name_in : List AppInfo → Text → Text
app_name_in [] pkg = []
app_name_in (a ∷ l) pkg = if a.pkg_name == pkg then a.app_name else app_name_in l pkg

-- One round of updateAllAppNameInDesktop. A content that stays empty is not written, which is the same.
unfoldable pub update_file : (Text → Bool) → List AppInfo → DesktopFile → DesktopFile
unfolding new_content
update_file can_open apps f =
    let name = app_name_in apps (pkg_of_desktop f.name) in
    if is_empty name
    then f
    else if can_open f.name
    then record f { content = new_content name f.content }
    else f

unfoldable pub update_all : (Text → Bool) → List AppInfo → List DesktopFile → List DesktopFile
update_all can_open apps fs = map (update_file can_open apps) fs

-- The entries of the list that getInstalledAppList keeps, from those that the JSON array has.
unfoldable pub installed : List AppInfo → List AppInfo
installed l =
    keep_if
      (λ a.
        not (a.pkg_name == codes "com.antutu.benchmark.full")
        && not (a.pkg_name == codes "com.antutu.benchmark.full.lite"))
      l

-- getAppInfo.
abbrev pub no_app : AppInfo
no_app = record { pkg_name = []; app_name = []; version = [] }

unfoldable pub get_app_info : List AppInfo → Text → AppInfo
get_app_info [] pkg = no_app
get_app_info (a ∷ l) pkg = if a.pkg_name == pkg then a else get_app_info l pkg

unfoldable pub png_icon : Text → Text → Text
png_icon home pkg = home ++ (codes "/.local/share/icons/" ++ (pkg ++ codes ".png"))

-- linuxSvgPath of generateIcon.
unfoldable pub svg_icon : Text → Text → Text
svg_icon home pkg = home ++ (codes "/.local/share/icons/" ++ (pkg ++ codes ".svg"))

unfoldable pub desktop_path : Text → Text → Text
unfolding desktop_name
desktop_path home pkg = home ++ (codes "/.local/share/applications/" ++ desktop_name pkg)

-- The files that removeDekstopAndIcon removes.
abbrev pub if_there : (Text → Bool) → Text → List Text
if_there exists path = if exists path then path ∷ [] else []

unfoldable pub remove_desktop_and_icon : (Text → Bool) → Text → Text → List Text
unfolding png_icon desktop_path
remove_desktop_and_icon exists home pkg =
    if_there exists (png_icon home pkg) ++ if_there exists (desktop_path home pkg)

-- What onUpdateAppDesktopAndIcon asks for.
pub data AppChange : Type 0 where
  updates : AppInfo → AppChange
  drops : Text → AppChange

unfoldable pub on_update_app : List AppInfo → Text → ℕ → Option AppChange
unfolding get_app_info
on_update_app apps pkg status =
    if nat_beq status 0
    then (if is_empty (get_app_info (installed apps) pkg).pkg_name
        then none
        else some (updates (get_app_info (installed apps) pkg)))
    else if nat_beq status 1
    then some (drops pkg)
    else none
