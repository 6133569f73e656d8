-- ===== src/Scenarios/Feeds.antt =====
-- Runs of the position and the acceleration feeds on concrete input (gps/, sensors/).
use kylin_kmre_manager.Base.{ℕ, ◌≡◌, refl, true, List, [], ◌∷◌, ◌++◌}
use kylin_kmre_manager.Feeds.Line.{to_latin1}
use kylin_kmre_manager.Feeds.Gps
use kylin_kmre_manager.Feeds.Gps.{sentence, senddata_lem}
use kylin_kmre_manager.Base.Text.{Text, codes}
use kylin_kmre_manager.Feeds.Sensor.{Memory}
use kylin_kmre_manager.Feeds.Throttle.{Time, Adaptor}

senddata_lem_example : Gps.senddata (7 ∷ []) [] ≡ to_latin1 (sentence []) ++ 0 ∷ []
senddata_lem_example = (senddata_lem (7 ∷ []) []).0 refl

abbrev memory : ℕ → Memory
memory i = record { heap = 7 ∷ []; stack = 8 ∷ 0 ∷ []; time = codes "1700000000" }

abbrev adaptor : Adaptor
adaptor = record { flag = true; stamp = record { sec = 5; nsec = 0 }; sent = [] }

-- A call 200 ms after the start, one 50 ms after it, and one 200 ms after that.
abbrev calls : List (Text × Time)
calls =
    (codes "1:2:3", record { sec = 5; nsec = 200000000 })
    ∷ ([], record { sec = 5; nsec = 250000000 })
    ∷ ([], record { sec = 5; nsec = 450000000 })
    ∷ []
