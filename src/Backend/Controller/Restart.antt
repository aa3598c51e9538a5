-- ===== src/Backend/Controller/Restart.antt =====
-- What `controller::restart` of src/backend/server.cpp leaves in the bundle.
use webpier.Base.{
  String, Option, none, some, List, [], ◌∷◌, ◌≡◌, refl, arith, ◌==◌, eq_iff, if◌then◌else◌,
}
use webpier.Map.{string_key, find, emplace, contains, find-emplace, find-update}
use webpier.Map.Distinct.{IsDistinct, emplace-IsDistinct}
use webpier.Store.Types.{Config, Service}
use webpier.Backend.Connector
use webpier.Backend.Connector.{Connector, fresh}
use webpier.Backend.Controller.{
  Controller, Texts, to_set, drop_others, restart_pier, restart_all, restart,
}

-- The connector for a pier: the one that was there, or a new one, restarted for that pier alone.
abbrev pub restarted : Config → Service → String → Option Connector → Connector
restarted config service pier o =
    let single = record service { pier = pier } in
    Connector.restart config single (elim o [ none ↦ fresh config single | some c ↦ c ])

to_set-IsDistinct : (ss : List String) → IsDistinct (to_set ss)
unfolding to_set
to_set-IsDistinct [] = tt
to_set-IsDistinct (s ∷ ss) = emplace-IsDistinct s tt (to_set ss) (to_set-IsDistinct ss)

find-drop_others :
    (p : String) (piers : Texts) (m : Controller)
    → find p (drop_others piers m) ≡ (if contains p piers then find p m else none)
unfolding drop_others find
find-drop_others p piers [] = ground arith
find-drop_others p piers ((q, c) ∷ m) = ground (arith, find-drop_others p piers m, eq_iff q p)

find-restart_pier :
    (config : Config) (service : Service) (p q : String) (m : Controller)
    → find q (restart_pier config service p m)
      ≡ (if p == q then some (restarted config service p (find p m)) else find q m)
unfolding restart_pier
find-restart_pier config service p q m =
    let single = record service { pier = p } in
    ground (
      arith,
      find-update p q (Connector.restart config single) (emplace p (fresh config single) m),
      find-emplace p q (fresh config single) m,
      eq_iff p q,
    )

find-restart_all :
    (config : Config) (service : Service) (piers : Texts) (p : String) (m : Controller)
    → IsDistinct piers
    → find p (restart_all config service piers m)
      ≡ (if contains p piers then some (restarted config service p (find p m)) else find p m)
unfolding restart_all find
find-restart_all config service [] p m d = refl
find-restart_all config service ((q, x) ∷ piers) p m d = ground (
  arith,
  find-restart_all config service piers p (restart_pier config service q m) d.1,
  find-restart_pier config service q p m,
  eq_iff q p,
)

-- After `restart` the bundle has a connector for exactly the piers that the service lists, each
-- restarted with the new settings and that pier alone; one that was there is kept, with its tunnels.
pub find-restart :
    (split : String → List String) (config : Config) (service : Service) (m : Controller)
    (p : String)
    → find p (restart split config service m) ≡ (
        if contains p (to_set (split service.pier))
        then some (restarted config service p (find p m))
        else none)
unfolding restart
find-restart split config service m p =
    let piers = to_set (split service.pier) in
    ground (
      arith,
      find-restart_all config service piers p (drop_others piers m) (to_set-IsDistinct _),
      find-drop_others p piers m,
    )
