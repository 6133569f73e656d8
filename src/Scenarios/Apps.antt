-- ===== src/Scenarios/Apps.antt =====
-- Runs of the desktop files, of an installation, of the name servers and of the battery on concrete input
-- (manager/).
use kylin_kmre_manager.Base.{
  ◌==◌, list_eq, ℕ, ◌≡◌, refl, true, false, List, [], ◌∷◌, map, some, nat_eq, list_eq, arith,
}
use kylin_kmre_manager.Base.Int.{pos}
use kylin_kmre_manager.Base.Text.{Text, codes, lacks, contains_text, pieces, split_skip_empty}
use kylin_kmre_manager.Base.Lines.{unlines}
use kylin_kmre_manager.Base.Map.{lookup}
use kylin_kmre_manager.Manager.Apps.Desktop.{
  svg_icon, AppInfo, DesktopFile, desktop_name, desktop_lines,
}
use kylin_kmre_manager.Manager.Apps.Icon.{Login, container_icon, update_desktop_and_icon, removed}
use kylin_kmre_manager.Manager.Apps.Icon.Staying.{removed-update_desktop_and_icon}
use kylin_kmre_manager.Manager.Apps.Install.{Disk, InstallApp, install_app, dest_file, after_slash}
use kylin_kmre_manager.Manager.Apps.Installing.{install_app_lem}
use kylin_kmre_manager.Manager.Network.{is_space, dns_list}
use kylin_kmre_manager.Manager.Network.Servers.{
  ResolvLine, nameserver, comment, other, print_line, has_no_space, addresses, IsGood,
  dns_list-print_line,
}
use kylin_kmre_manager.Manager.Container.{
  Reading, charging, new_power, on_update_battery_state, update_all,
}
use kylin_kmre_manager.Manager.Container.Battery.{update_all_lem}

abbrev chess : AppInfo
chess = record { pkg_name = codes "org.chess"; app_name = codes "Chess"; version = codes "1.0" }

abbrev renamed : AppInfo
renamed = record { pkg_name = codes "org.chess"; app_name = codes "Schach"; version = codes "1.0" }

abbrev home : Text
home = codes "/home/kylin"

abbrev chess_file : DesktopFile
chess_file = record {
  name = desktop_name chess.pkg_name;
  content = unlines (desktop_lines home chess);
}

abbrev disk : Disk
disk = record { can_remove = λ p. true; can_copy = λ p q. true }

abbrev fails : InstallApp
fails = some (λ file app pkg. false)

abbrev apk : Text
apk = codes "/home/kylin/chess.apk"

install_app_lem_example :
    let r = install_app disk fails (codes "1000") (codes "kylin") apk [] [] ((apk, 1 ∷ []) ∷ []) in
    lookup apk r.1 ≡ some (1 ∷ [])
unfolding dest_file after_slash lookup
install_app_lem_example =
    install_app_lem disk fails (codes "1000") (codes "kylin") apk [] [] (1 ∷ [])
      ((apk, 1 ∷ []) ∷ []) apk refl refl refl refl

abbrev resolv : List ResolvLine
resolv =
    comment (codes " Generated")
    ∷ other (codes "search lan")
    ∷ nameserver false 1 (codes "10.0.0.1")
    ∷ nameserver true 0 (codes "fe80::1")
    ∷ nameserver true 0 (codes "10.0.0.2")
    ∷ []

dns_list-print_line_example :
    dns_list (some (unlines (map print_line resolv))) ≡ codes "10.0.0.1" ∷ codes "10.0.0.2" ∷ []
unfolding IsGood addresses has_no_space is_space split_skip_empty pieces lacks contains_text
dns_list-print_line_example =
    dns_list-print_line resolv
      (refl, ((refl, refl), ((refl, refl), ((refl, refl), ((refl, refl), tt)))))

abbrev number : ℕ → Text
number n = n ∷ []

abbrev before : List (Reading ℕ)
before = record { booted = false; state = some (pos 1); percentage = some 50 } ∷ []

update_all_lem_example :
    let p = update_all 0 100 number before (new_power 0 100 number) in
    let q =
      on_update_battery_state 0 100 number
        (record { booted = true; state = some (pos 2); percentage = some 50 })
        p in
    (lookup (codes "battery_charging") q.props ≡ some (charging (pos 2)))
    × (lookup (codes "battery_percent") q.props ≡ some (number 50))
update_all_lem_example =
    update_all_lem 0 100 number before (pos 2) 50 (λ e. ground (arith, e)) (λ e. ground (arith, e))

abbrev login : Login
login = record { home = codes "/home/kylin"; uid = codes "1000"; user = codes "kylin" }

abbrev chess_app : AppInfo
chess_app = record { pkg_name = codes "chess"; app_name = codes "Chess"; version = codes "1" }

abbrev chess_icon : Text
chess_icon = codes "/var/lib/kmre/kmre-1000-kylin/data/local/icons/chess.png"

removed-update_desktop_and_icon_example :
    removed login
      (codes "chess")
      (update_desktop_and_icon (λ p. true) true login chess_app (λ p. p == chess_icon)).0
      (svg_icon (codes "/home/kylin") (codes "chess"))
    ≡ true
unfolding container_icon svg_icon
removed-update_desktop_and_icon_example =
    (removed-update_desktop_and_icon (λ p. true) login chess_app b'c' (codes "hess")
      (λ p. p == chess_icon) refl refl refl refl).1
