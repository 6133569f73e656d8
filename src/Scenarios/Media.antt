-- ===== src/Scenarios/Media.antt =====
-- Runs of the media tables on concrete reports (manager/communication/controlmanager.cpp).
use kylin_kmre_manager.Base.{ℕ, ◌≡◌, refl, inl, inr, true, List, [], ◌∷◌, some, arith}
use kylin_kmre_manager.Base.Text.{Text, codes, pieces, split_skip_empty}
use kylin_kmre_manager.Manager.Media.Table.{AndroidMeta, Kind, table_of}
use kylin_kmre_manager.Manager.Media.Paths.{Host}
use kylin_kmre_manager.Manager.Media.Sync.{Media, new_media}
use kylin_kmre_manager.Manager.Media.Lookup.{find}
use kylin_kmre_manager.Manager.Media.Steps.{IsProper}
use kylin_kmre_manager.Manager.Media.Directory.{Message, receive_all}
use kylin_kmre_manager.Manager.Media.Refinement.{Refines, new_directory, sync_all, sync_all_lem}
use kylin_kmre_manager.Manager.Media.Shows.{no_metas-ShowsFiles}
use kylin_kmre_manager.Manager.Media.Dump.{batches, first_of, dump_lem}

abbrev host : Host
host = record {
  uid = codes "1000";
  user_name = codes "kylin";
  can_make_path = λ p. true;
  can_link = λ src dest. true;
  exists = λ p. true;
}

abbrev picture : AndroidMeta
picture = record {
  path = codes "/storage/emulated/0/a.png";
  mime_type = codes "image/png";
  pkg_name = codes "com.app";
}

abbrev song : AndroidMeta
song = record { path = codes "/storage/b.mp3"; mime_type = codes "audio/mpeg"; pkg_name = [] }

picture-IsProper : IsProper picture
unfolding split_skip_empty pieces
picture-IsProper = inr (λ e. ground (arith, e), λ e. ground (arith, e))

abbrev report : ℕ → List AndroidMeta → ℕ → Message
report type metas total = record { type = type; metas = metas; total = total }

abbrev reports : List Message
reports = report 0 (picture ∷ []) 2 ∷ report 0 (song ∷ []) 2 ∷ report 2 (picture ∷ []) 0 ∷ []

-- The counter holds -7 at first.
sync_all_lem_example :
    (t : Media) × (sync_all host reports (new_media 4294967289 2) ≡ some t)
    × Refines t (receive_all reports (new_directory 4294967289))
sync_all_lem_example =
    sync_all_lem host reports 4294967289 2
      ((picture-IsProper, tt), ((inl refl, tt), ((picture-IsProper, tt), tt)))

dump_lem_example :
    (t : Media) × (sync_all host (batches 2 ((picture ∷ []) ∷ ((song ∷ []) ∷ []))) (new_media 0 2)
      ≡ some t)
    × ((k : Kind) (p : Text) → find p (table_of k t.tables) ≡ first_of k p (picture ∷ song ∷ []))
    × (t.current_num ≡ 0)
    × (t.total_num ≡ 0)
    × (t.messages ≡ (0, song ∷ []) ∷ [])
dump_lem_example =
    dump_lem host 2 ((picture ∷ []) ∷ []) (song ∷ []) (new_media 0 2) (new_directory 0)
      (record { shows = no_metas-ShowsFiles; counted = refl }) refl ((picture-IsProper, tt), tt)
      (inl refl, tt) (λ e. ground (arith, e)) (omega arith) (omega arith) (omega arith)
