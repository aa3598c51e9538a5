-- ===== src/Backend/Connector.antt =====
-- `controller::connector` of src/backend/server.cpp: one service on one remote pier, with the
-- negotiation that runs in the spawner's thread, the retry timer and the tunnel processes. The
-- thread and the timer talk to the connector by handlers that run one at a time on the main loop.
pub mod Liveness
use webpier.Base.{
  ℕ, String, Bool, true, false, List, [], ◌∷◌, ◌++◌, not, ◌&&◌, ◌||◌, is_empty, same, map, Option,
  none, some, Result, ok, err, ◌≡◌, if◌then◌else◌,
}
use webpier.Store.Types.{Config, Service}

-- What the spawner's thread posts to the main loop: `connect` with the terms that were negotiated, by
-- what starting the tunnel process for them comes to, its id or what `bp::child` throws; or `fallback`
-- with the error.
pub data Posted : Type 0 where
  connect : Result ℕ → Posted
  fallback : String → Posted

-- `waiting` is a pending wait of `m_timer`, `active` is `m_spawner->active()`, `tunnels` are the
-- process ids in `m_tunnels`, and `posted` are the handlers that wait for the main loop. A wait that is
-- given up is taken not to end any more, also when its time was just up.
pub record Connector : Type 0 where
  pub config : Config
  pub service : Service
  pub waiting : Bool
  pub active : Bool
  pub error : String
  pub tunnels : List ℕ
  pub posted : List Posted

abbrev pub no_tunnels : List ℕ → Bool
no_tunnels [] = true
no_tunnels _ = false

-- `connector::restart`; `spawner::startup` stops the thread that runs, and starts another
unfoldable pub restart : Config → Service → Connector → Connector
restart config service c =
    if service.local || no_tunnels c.tunnels
    then record c { config = config; service = service; waiting = false; error = ""; active = true }
    else record c { config = config; service = service; waiting = false; active = false }

-- the handler that runs `connector::connect`
unfoldable pub on_connect : Result ℕ → Connector → Result Connector
on_connect (err what) c = err what
on_connect (ok pid) c = ok (record c { tunnels = c.tunnels ++ pid ∷ [] })

-- `connector::fallback`: a wait that is pending is given up for the new one
unfoldable pub on_fallback : String → Connector → Connector
on_fallback error c = record c { error = error; waiting = true }

-- the handler of `m_timer.async_wait`, when the time is up
unfoldable pub on_timer : Connector → Connector
on_timer c =
    if c.service.local && c.active
    then record c { waiting = false; error = "" }
    else record c { waiting = false; error = ""; active = true }

abbrev pub without : ℕ → List ℕ → List ℕ
without pid [] = []
without pid (p ∷ ps) = if same p pid then ps else p ∷ without pid ps

-- `bp::on_exit`
unfoldable pub on_exit : ℕ → Connector → Connector
on_exit pid c =
    if not c.service.local
    then record c { tunnels = without pid c.tunnels; error = ""; active = true }
    else record c { tunnels = without pid c.tunnels }

-- a handler that was posted runs; what it throws leaves the main loop
unfoldable pub run_posted : Posted → Connector → Result Connector
run_posted (connect started) c = on_connect started c
run_posted (fallback error) c = ok (on_fallback error c)

-- What happens to a connector by itself: its thread calls back and goes on, or ends, with a last call or
-- without; a handler that was posted runs; the time is up; a tunnel process ends.
pub data Event : Type 0 where
  posts : Posted → Event
  ends : Option Posted → Event
  runs expires : Event
  exits : ℕ → Event

unfoldable pub happen : Event → Connector → Result Connector
happen (posts p) c = ok (record c { posted = c.posted ++ p ∷ [] })
happen (ends none) c = ok (record c { active = false })
happen (ends (some p)) c = ok (record c { active = false; posted = c.posted ++ p ∷ [] })
happen runs c = elim c.posted [ [] ↦ ok c | p ∷ rest ↦ run_posted p (record c { posted = rest }) ]
happen expires c = ok (on_timer c)
happen (exits pid) c = ok (on_exit pid c)

abbrev pub has_tunnel : ℕ → List ℕ → Bool
has_tunnel pid [] = false
has_tunnel pid (p ∷ ps) = same p pid || has_tunnel pid ps

-- When an event can be. `Ends` is of plexus, whose calls the thread makes: with which last call, if any,
-- the thread of an export or of an import can end.
abbrev pub CanBe : (Bool → Option Posted → Type 0) → Event → Connector → Type 0
CanBe Ends (posts p) c = c.active ≡ true
CanBe Ends (ends last) c = (c.active ≡ true) × Ends c.service.local last
CanBe Ends runs c = (p : Posted) × (rest : List Posted) × (c.posted ≡ p ∷ rest)
CanBe Ends expires c = c.waiting ≡ true
CanBe Ends (exits pid) c = has_tunnel pid c.tunnels ≡ true

-- `connector::broken`, `connector::burden`
unfoldable pub is_broken : Connector → Bool
is_broken c = not (is_empty c.error)

unfoldable pub is_burden : Connector → Bool
is_burden c = not (no_tunnels c.tunnels)

-- `std::make_shared<connector>(m_io)`: no spawner and no service yet
abbrev pub fresh : Config → Service → Connector
fresh config service = record {
  config = config;
  service = service;
  waiting = false;
  active = false;
  error = "";
  tunnels = [];
  posted = [];
}
