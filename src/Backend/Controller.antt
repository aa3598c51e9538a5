-- ===== src/Backend/Controller.antt =====
-- `controller` of src/backend/server.cpp: one service, with a connector for each pier that its `pier`
-- field lists. `boost::split` is a parameter.
pub mod Restart
pub mod State
use webpier.Base.{ℕ, String, Bool, true, false, List, [], ◌∷◌, ◌++◌, map, if◌then◌else◌}
use webpier.Map.{Map, string_key, find, emplace, update, contains}
use webpier.Store.Types.{Config, Service}
use webpier.Backend.Message.{Status, asleep, broken, lonely, burden, Tunnel}
use webpier.Backend.Connector
use webpier.Backend.Connector.{Connector, is_broken, is_burden, fresh}

-- `m_bundle`; a controller has no other state
abbrev pub Controller : Type 0
Controller = Map String Connector

-- a `std::set` of texts
abbrev pub Texts : Type 0
Texts = Map String (Unit {0})

unfoldable pub to_set : List String → Texts
to_set [] = []
to_set (s ∷ ss) = emplace s tt (to_set ss)

-- the first loop of `restart`
unfoldable pub drop_others : Texts → Controller → Controller
drop_others piers [] = []
drop_others piers ((pier, c) ∷ m) =
    let rest = drop_others piers m in if contains pier piers then (pier, c) ∷ rest else rest

-- a round of its second loop
unfoldable pub restart_pier : Config → Service → String → Controller → Controller
restart_pier config service pier m =
    let single = record service { pier = pier } in
    update pier (Connector.restart config single) (emplace pier (fresh config single) m)

unfoldable pub restart_all : Config → Service → Texts → Controller → Controller
restart_all config service [] m = m
restart_all config service ((pier, _) ∷ piers) m =
    restart_all config service piers (restart_pier config service pier m)

unfoldable pub restart : (String → List String) → Config → Service → Controller → Controller
restart split config service m =
    let piers = to_set (split service.pier) in
    restart_all config service piers (drop_others piers m)

unfoldable pub suspend : Controller → Controller
suspend m = []

-- the loop of `state`, which ends at the first connector that is broken or has a tunnel
unfoldable pub scan : Status → Controller → Status
scan res [] = res
scan res ((_, c) ∷ m) = if is_broken c then broken else if is_burden c then burden else scan res m

unfoldable pub state : Controller → Status
unfolding scan
state [] = scan asleep []
state (e ∷ m) = scan lonely (e ∷ m)

unfoldable pub message : Controller → String
message [] = ""
message ((_, c) ∷ m) = if is_broken c then c.error else message m

unfoldable pub tunnels : Controller → List Tunnel
tunnels [] = []
tunnels ((pier, c) ∷ m) = map (λ pid. record { pier = pier; pid = pid }) c.tunnels ++ tunnels m
