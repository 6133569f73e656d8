-- ===== src/Manager/Apps/Renaming.antt =====
-- A desktop file that is written again with another name (manager/communication/backendworker.cpp,
-- controlmanager.cpp).
use kylin_kmre_manager.Base.{◌≡◌, true, list_eq}
use kylin_kmre_manager.Base.Text.{Text}
use kylin_kmre_manager.Base.Lines.{unlines, is_line}
use kylin_kmre_manager.Manager.Apps.Desktop.{AppInfo, desktop_lines, DesktopFile, desktop_name}

-- No newline in the home directory and in what an application says of itself.
pub record IsPlain (home : Text) (a : AppInfo) : Type 0 where
  pub home_line : is_line home ≡ true
  pub pkg_line : is_line a.pkg_name ≡ true
  pub name_line : is_line a.app_name ≡ true
  pub version_line : is_line a.version ≡ true

-- The file that generateDesktop writes.
abbrev written : Text → AppInfo → DesktopFile
written home a = record { name = desktop_name a.pkg_name; content = unlines (desktop_lines home a) }
