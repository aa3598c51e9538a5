-- ===== src/Backend/Engine.antt =====
-- `engine` of src/backend/server.cpp: the pool of services and the commands on it. What a command
-- reads from disk is an argument, a Home, which Backend/Loading fills; the lock on the files is held
-- during the command.
pub mod Reload
pub mod Commands
pub mod Single
pub mod Collisions
pub mod Comply
pub mod Wire
use webpier.Base.{
  ℕ, String, Bool, true, false, Option, none, some, List, [], ◌∷◌, ◌++◌, map, if◌then◌else◌,
  is_empty, Result, ok, err, ◌>>=◌, ◌>>◌, ◌==◌,
}
use webpier.Map.{Map, find, find_key, emplace, update, erase}
use webpier.Store.Types.{Config, Service}
use webpier.Backend.Message.{
  Handle, handle_key, Status, asleep, broken, lonely, burden, other, Health, Report, Command,
  naught, unplug, engage, adjust, status, review, unknown, Content, error, handle, health, report,
  healths, reports, Message,
}
use webpier.Backend.Controller
use webpier.Backend.Controller.{Controller, restart, suspend}

-- What `quard` and the three `load_config` calls answer when a command is run: the lock, the settings,
-- the services of every pier under a repository, and one service (nameless when there is none).
pub record Home : Type 0 where
  pub lock : Result (Unit {0})
  pub conf : Result Config
  pub services : String → Result (List (String × List Service))
  pub service : String → Handle → Result Service

-- `m_pool`
abbrev pub Pool : Type 0
Pool = Map Handle Controller

-- The pool after a command, also after one that throws, and what the command returns.
pub record Outcome {ℓ} (A : Type ℓ) : Type ℓ where
  pub pool : Pool
  pub result : Result A

abbrev pub is_asleep : Controller → Bool
is_asleep c = elim (Controller.state c) [ asleep ↦ true | _ ↦ false ]

-- the order in which the two nested loops visit the services
unfoldable pub of_pier : String → List Service → List (Handle × Service)
of_pier pier [] = []
of_pier pier (serv ∷ rest) = (record { pier = pier; service = serv.name }, serv) ∷ of_pier pier rest

unfoldable pub handles : List (String × List Service) → List (Handle × Service)
unfolding of_pier
handles [] = []
handles ((pier, servs) ∷ rest) = of_pier pier servs ++ handles rest

-- A round of the loop of `engage`, `adjust` and `unplug`: a controller of the old pool is carried
-- over and gets the first change, one that is made anew the second.
unfoldable pub reload_one :
    (known new : Service → Controller → Controller) → Pool → Handle × Service → Pool → Pool
reload_one known new old (id, serv) pool = elim (find id old) [
  | some c ↦ update id (known serv) (emplace id c pool)
  | none ↦ update id (new serv) (emplace id [] pool)
]

unfoldable pub reload_all :
    (known new : Service → Controller → Controller) → Pool → List (Handle × Service) → Pool → Pool
reload_all known new old [] pool = pool
reload_all known new old (item ∷ items) pool =
    reload_all known new old items (reload_one known new old item pool)

unfoldable pub load_all : Home → Result (Config × List (Handle × Service))
load_all home = do
  home.lock
  conf ← home.conf
  services ← home.services conf.repo
  ok (conf, handles services)

unfoldable pub reload :
    (known new : Config → Service → Controller → Controller) → Home → Pool → Outcome (Unit {0})
reload known new home pool = elim (load_all home) [
  | err e ↦ record { pool = pool; result = err e }
  | ok (conf, items) ↦ record {
    pool = reload_all (known conf) (new conf) pool items [];
    result = ok tt;
  }
]

module _ (split : String → List String) where
  -- what `engage` and `adjust` do to a controller that is new
  unfoldable pub start : Config → Service → Controller → Controller
  start conf serv c = if serv.autostart then restart split conf serv c else suspend c

  unfoldable pub engage_known : Config → Service → Controller → Controller
  engage_known conf serv c =
      if serv.autostart then restart split conf serv c else if is_asleep c then c else suspend c

  unfoldable pub adjust_known : Config → Service → Controller → Controller
  adjust_known conf serv c = if is_asleep c then c else restart split conf serv c

  -- `engage()`
  unfoldable pub engage_all : Home → Pool → Outcome (Unit {0})
  engage_all = reload engage_known start

  -- `adjust()`
  unfoldable pub adjust_all : Home → Pool → Outcome (Unit {0})
  adjust_all = reload adjust_known start

unfoldable pub unplug_known : Config → Service → Controller → Controller
unplug_known conf serv c = if is_asleep c then c else suspend c

-- `unplug()`
unfoldable pub unplug_all : Home → Pool → Outcome (Unit {0})
unplug_all = reload unplug_known (λ conf serv c. c)

unfoldable pub load_one : Home → Handle → Result (Config × Service)
load_one home id = do home.lock; conf ← home.conf; serv ← home.service conf.repo id; ok (conf, serv)

-- The controller behind an iterator is missing, or there.
abbrev pub absent : Handle → Pool → Bool
absent id pool = elim (find id pool) [ none ↦ true | some _ ↦ false ]

abbrev pub sleeps : Handle → Pool → Bool
sleeps id pool = elim (find id pool) [ none ↦ true | some c ↦ is_asleep c ]

module _ (split : String → List String) where
  -- `engage(id)`, after the settings and the service were read
  unfoldable pub engage_loaded : Result (Config × Service) → Handle → Pool → Outcome (Unit {0})
  engage_loaded (err e) id pool = record { pool = pool; result = err e }
  engage_loaded (ok (conf, serv)) id pool =
      if is_empty serv.name
      then record { pool = erase id pool; result = err "wrong service" }
      else record {
        pool = update id (restart split conf serv) (emplace id [] pool);
        result = ok tt;
      }

  unfoldable pub engage_one : Home → Handle → Pool → Outcome (Unit {0})
  engage_one home id pool = engage_loaded (load_one home id) id pool

  -- `adjust(id)`
  unfoldable pub adjust_loaded : Result (Config × Service) → Handle → Pool → Outcome (Unit {0})
  adjust_loaded (err e) id pool = record { pool = pool; result = err e }
  adjust_loaded (ok (conf, serv)) id pool =
      if is_empty serv.name
      then record { pool = erase id pool; result = ok tt }
      else if absent id pool
      then record { pool = update id (start split conf serv) (emplace id [] pool); result = ok tt }
      else if sleeps id pool
      then record { pool = pool; result = ok tt }
      else record { pool = update id (restart split conf serv) pool; result = ok tt }

  unfoldable pub adjust_one : Home → Handle → Pool → Outcome (Unit {0})
  adjust_one home id pool = adjust_loaded (load_one home id) id pool

-- `unplug(id)`
unfoldable pub unplug_loaded : Result (Config × Service) → Handle → Pool → Outcome (Unit {0})
unplug_loaded (err e) id pool = record { pool = pool; result = err e }
unplug_loaded (ok (conf, serv)) id pool =
    if is_empty serv.name
    then record { pool = erase id pool; result = ok tt }
    else if sleeps id pool
    then record { pool = pool; result = ok tt }
    else record { pool = update id suspend pool; result = ok tt }

unfoldable pub unplug_one : Home → Handle → Pool → Outcome (Unit {0})
unplug_one home id pool = unplug_loaded (load_one home id) id pool

abbrev pub health_of : Handle → Controller → Health
health_of id c = record { handle = id; state = Controller.state c; message = Controller.message c }

abbrev pub report_of : Handle → Controller → Report
report_of id c = record { health = health_of id c; tunnels = Controller.tunnels c }

-- `status()` and `report()`
unfoldable pub status_all : Pool → List Health
status_all [] = []
status_all ((id, c) ∷ pool) = health_of id c ∷ status_all pool

unfoldable pub report_all : Pool → List Report
report_all [] = []
report_all ((id, c) ∷ pool) = report_of id c ∷ report_all pool

-- `status(id)`, which names the handle that was asked for
unfoldable pub status_one : Handle → Pool → Result Health
status_one id pool = elim (find id pool) [
  | none ↦ err "unknown service"
  | some c ↦ ok (health_of id c)
]

-- `report(id)`, which names the handle that the pool has
unfoldable pub report_one : Handle → Pool → Result Report
report_one id pool = elim (find id pool) [
  | none ↦ err "unknown service"
  | some c ↦ elim (find_key id pool) [ none ↦ err "unknown service" | some j ↦ ok (report_of j c) ]
]
