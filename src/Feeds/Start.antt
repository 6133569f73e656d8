-- ===== src/Feeds/Start.antt =====
-- The start of the feeds (gps/gpsdataget.cpp: start; sensors/sensordataget.cpp: start; gps/myutils.h and
-- sensors/myutils.h: getUnixDomainSocketPath), and the way of an acceleration from the bus to the
-- container.
use kylin_kmre_manager.Base.{
  ℕ, suc, Bool, List, [], ◌∷◌, ◌++◌, Option, none, some, ◌>>=◌, if◌then◌else◌,
}
use kylin_kmre_manager.Base.Int.{ℤ}
use kylin_kmre_manager.Base.Text.{Text, codes}
use kylin_kmre_manager.Feeds.Line.{Writes}
use kylin_kmre_manager.Feeds.Gps
use kylin_kmre_manager.Feeds.Sensor
use kylin_kmre_manager.Feeds.Sensor.{Memory, sensordata}
use kylin_kmre_manager.Feeds.Throttle.{Time, Adaptor, pass_all}

-- getUnixDomainSocketPath, for the name of the socket, and the user's id in digits and name.
unfoldable pub socket_path : Text → Text → Text → Text
socket_path name uid [] = []
socket_path name uid (c ∷ user) =
    codes "/var/lib/kmre/kmre-" ++ uid ++ codes "-" ++ (c ∷ user) ++ codes "/sockets/" ++ name

-- start: the stream, for whether listen succeeds and what accept gives.
unfoldable pub start : Text → Bool → Option ℕ → Option ℕ
start [] listens accept = none
start (c ∷ path) listens accept = if listens then accept else none

-- start of the GPS feed sends an empty position to its first client; `next` is what a further accept
-- gives.
abbrev pub greet : (ℕ → ℤ) → List ℕ → Option ℕ → Option ℕ → Option ℕ × Writes
greet put beyond next none = (none, [])
greet put beyond next (some s) = Gps.send_data put beyond next (some s) []

unfoldable pub gps_start :
    (ℕ → ℤ) → List ℕ → Text → Text → Bool → Option ℕ → Option ℕ → Option ℕ × Writes
unfolding start socket_path
gps_start put beyond uid user listens accept next =
    greet put beyond next (start (socket_path (codes "kmre_gps") uid user) listens accept)

unfoldable pub sensors_start : Text → Text → Bool → Option ℕ → Option ℕ
unfolding start socket_path
sensors_start uid user listens accept =
    start (socket_path (codes "kmre_sensors") uid user) listens accept

-- sendData for one text after the other; for the i-th, `m` is what the memory and the clock hold, and
-- `accept` what accept gives if it has to wait.
unfoldable pub send_all :
    (ℕ → ℤ) → (ℕ → Memory) → (ℕ → Option ℕ) → ℕ → List Text → Option ℕ → Option (Option ℕ × Writes)
send_all put m accept i [] stream = some (stream, [])
send_all put m accept i (t ∷ ts) stream = do
  (stream', writes) ← Sensor.send_data put (m i) (accept i) stream t
  (stream'', more) ← send_all put m accept (suc i) ts stream'
  some (stream'', writes ++ more)

-- The accelerations that come over the bus: what passAcceKey lets through is sent. `inter` is 100000.
unfoldable pub feed :
    (ℕ → ℤ)
    → (ℕ → Memory)
    → (ℕ → Option ℕ)
    → Adaptor
    → List (Text × Time)
    → Option ℕ
    → Option (Option ℕ × Writes)
unfolding send_all
feed put m accept a calls stream = send_all put m accept 0 (pass_all 100000 a calls).sent stream

-- The messages for a stream, from the i-th on.
abbrev pub messages : (ℕ → Memory) → ℕ → ℕ → List Text → Writes
messages m s i [] = []
messages m s i (t ∷ ts) = (s, sensordata (m i) t) ∷ messages m s (suc i) ts
