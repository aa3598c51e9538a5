-- ===== src/Backend/Engine/Wire.antt =====
-- Requests and answers on the wire (`comply` of src/backend/server.cpp, src/backend/message.cpp).
use webpier.Base.{
  ℕ, String, none, some, List, [], ◌∷◌, ◌++◌, map, ◌≡◌, inl, inr, refl, Result, ok, err, ◌>>=◌,
  Result-cases, All, ◌<◌, Bool-cases, Option-cases,
}
use webpier.Ptree.{PropertyTree}
use mathlib.Core.Path.{subst}
use webpier.Map.{same_key, find, find_key}
use webpier.Backend.Message.{
  Handle, handle_key, Health, Report, Status, asleep, lonely, Tunnel, Command, naught, unplug,
  engage, adjust, status, review, unknown, Content, error, handle, health, report, healths, reports,
  Message, make,
}
use webpier.Backend.Message.Codec.{pull_message, push_message}
use webpier.Backend.Message.RoundTrip.{
  IsStatus, IsHealth, IsReport, IsContent, IsMessage, IsCommand, pull-push_message,
}
use webpier.Backend.Connector.{Connector, is_broken, is_burden}
use webpier.Backend.Controller
use webpier.Backend.Controller.{Controller}
use webpier.Backend.Engine.{
  Pool, Home, Outcome, engage_all, adjust_all, unplug_all, engage_one, adjust_one, unplug_one,
  status_all, status_one, report_all, report_one, health_of, report_of,
}
use webpier.Backend.Engine.Comply.{by_handle, done, obey, reply, serve, comply}

scan-IsStatus : (res : Status) (m : Controller) → IsStatus res → IsStatus (Controller.scan res m)
unfolding Controller.scan
scan-IsStatus res [] h = h
scan-IsStatus res ((p, c) ∷ m) h = elim (Bool-cases (is_broken c)) [
  | inl t ↦ rw (t, Controller.scan) tt
  | inr f ↦ elim (Bool-cases (is_burden c)) [
    | inl t ↦ rw (f, t) tt
    | inr g ↦ rw (f, g) (scan-IsStatus res m h)
  ]
]

-- A controller is only ever in a declared state.
pub state-IsStatus : (m : Controller) → IsStatus (Controller.state m)
unfolding Controller.state
state-IsStatus [] = scan-IsStatus asleep [] tt
state-IsStatus (e ∷ m) = scan-IsStatus lonely (e ∷ m) tt

-- The process ids that the kernel has given out are below 2 ^ 31.
abbrev pub Fits : Controller → Type 0
Fits m = All (λ (e : String × Connector). All (λ pid. pid < 2147483648) e.1.tunnels) m

abbrev pub FitsInt : Pool → Type 0
FitsInt pool = All (λ (e : Handle × Controller). Fits e.1) pool

tunnels_of :
    (pier : String) (ts : List ℕ) (rest : List Tunnel)
    → All (λ pid. pid < 2147483648) ts
    → All (λ (t : Tunnel). t.pid < 2147483648) rest
    → All
        (λ (t : Tunnel). t.pid < 2147483648)
        (map (λ pid. record { pier = pier; pid = pid }) ts ++ rest)
tunnels_of pier [] rest h r = r
tunnels_of pier (t ∷ ts) rest h r = (h.0, tunnels_of pier ts rest h.1 r)

tunnels-Fits :
    (m : Controller) → Fits m → All (λ (t : Tunnel). t.pid < 2147483648) (Controller.tunnels m)
unfolding Controller.tunnels
tunnels-Fits [] h = tt
tunnels-Fits ((p, c) ∷ m) h = tunnels_of p c.tunnels (Controller.tunnels m) h.0 (tunnels-Fits m h.1)

status_all-IsHealth : (pool : Pool) → All IsHealth (status_all pool)
unfolding status_all
status_all-IsHealth [] = tt
status_all-IsHealth ((id, c) ∷ pool) = (state-IsStatus c, status_all-IsHealth pool)

report_all-IsReport : (pool : Pool) → FitsInt pool → All IsReport (report_all pool)
unfolding report_all
report_all-IsReport [] h = tt
report_all-IsReport ((id, c) ∷ pool) h =
    ((state-IsStatus c, tunnels-Fits c h.0), report_all-IsReport pool h.1)

Fits-find :
    (id : Handle) (pool : Pool) (c : Controller) → FitsInt pool → find id pool ≡ some c → Fits c
unfolding find
Fits-find id [] c h e = cc
Fits-find id ((j, d) ∷ pool) c h e = elim (Bool-cases (same_key j id)) [
  | inl t ↦ let same_controller : d ≡ c = cc in subst Fits same_controller h.0
  | inr f ↦ Fits-find id pool c h.1 cc
]

abbrev pub IsReply : Result Content → Type 0
IsReply (ok c) = IsContent c
IsReply (err e) = Unit

pub done-IsReply : (o : Outcome (Unit {0})) → IsReply (done o).result
done-IsReply o = elim (Result-cases o.result) [ inl (e, t) ↦ rw t tt | inr (a, t) ↦ rw t tt ]

-- A value that the code returns as it is.
pub ok-IsReply {ℓ} :
    {A : Type ℓ} (f : A → Content) (r : Result A)
    → ((a : A) → r ≡ ok a → IsContent (f a))
    → IsReply (do a ← r; ok (f a))
ok-IsReply f (ok a) h = h a refl
ok-IsReply f (err e) h = tt

pub status_one-IsHealth :
    (id : Handle) (pool : Pool) (x : Health) → status_one id pool ≡ ok x → IsHealth x
unfolding status_one
status_one-IsHealth id pool x e = elim (Option-cases (find id pool)) [
  | inl t ↦ cc
  | inr (c, t) ↦ let same : health_of id c ≡ x = cc in subst IsHealth same (state-IsStatus c)
]

report_one-IsReport :
    (id : Handle) (pool : Pool) (x : Report) → FitsInt pool → report_one id pool ≡ ok x → IsReport x
unfolding report_one
report_one-IsReport id pool x h e = elim (Option-cases (find id pool)) [
  | inl t ↦ cc
  | inr (c, t) ↦ elim (Option-cases (find_key id pool)) [
    | inl u ↦ cc
    | inr (j, u) ↦
        let same : report_of j c ≡ x = cc in
        subst IsReport same (state-IsStatus c, tunnels-Fits c (Fits-find id pool c h t))
  ]
]

module _ (split : String → List String) (home : Home) where
  -- Whatever is obeyed, the answer can be sent.
  pub obey-IsReply :
      (action : Command) (payload : Content) (pool : Pool)
      → FitsInt pool
      → IsReply (obey split home action payload pool).result
  unfolding obey
  obey-IsReply unplug payload pool h =
      done-IsReply (by_handle payload (λ id. unplug_one home id pool) (unplug_all home pool))
  obey-IsReply engage payload pool h =
      done-IsReply
        (by_handle payload (λ id. engage_one split home id pool) (engage_all split home pool))
  obey-IsReply adjust payload pool h =
      done-IsReply
        (by_handle payload (λ id. adjust_one split home id pool) (adjust_all split home pool))
  obey-IsReply status (handle id) pool h =
      ok-IsReply health (status_one id pool) (status_one-IsHealth id pool)
  obey-IsReply status (error e) pool h = status_all-IsHealth pool
  obey-IsReply status (health x) pool h = status_all-IsHealth pool
  obey-IsReply status (report x) pool h = status_all-IsHealth pool
  obey-IsReply status (healths xs) pool h = status_all-IsHealth pool
  obey-IsReply status (reports xs) pool h = status_all-IsHealth pool
  obey-IsReply review (handle id) pool h =
      ok-IsReply report (report_one id pool) (λ x e. report_one-IsReport id pool x h e)
  obey-IsReply review (error e) pool h = report_all-IsReport pool h
  obey-IsReply review (health x) pool h = report_all-IsReport pool h
  obey-IsReply review (report x) pool h = report_all-IsReport pool h
  obey-IsReply review (healths xs) pool h = report_all-IsReport pool h
  obey-IsReply review (reports xs) pool h = report_all-IsReport pool h
  obey-IsReply naught payload pool h = tt
  obey-IsReply (unknown n) payload pool h = tt

  reply-IsMessage :
      (action : Command) (r : Result Content)
      → IsCommand action
      → IsReply r
      → IsMessage (reply split home action r)
  unfolding reply
  reply-IsMessage action (ok c) h k = (h, k)
  reply-IsMessage action (err e) h k = (h, tt)

  module _ (lib : PropertyTree) where
    comply-push_message :
        (m : Message) (pool : Pool)
        → IsMessage m
        → comply split home lib (push_message lib m) pool ≡ (
          (obey split home m.action m.payload pool).pool,
          push_message lib
              (reply split home m.action (obey split home m.action m.payload pool).result),
        )
    unfolding comply serve
    comply-push_message m pool h = rw (pull-push_message lib m (make naught) h) refl

    pub comply-answered :
        (m old : Message) (pool : Pool)
        → IsMessage m
        → IsReply (obey split home m.action m.payload pool).result
        → let o = obey split home m.action m.payload pool in
          let both = comply split home lib (push_message lib m) pool in
          (both.0 ≡ o.pool)
          × (pull_message lib both.1 old
              ≡ record { msg = reply split home m.action o.result; thrown = none })
    comply-answered m old pool h k = rw (comply-push_message m pool h) (
      refl,
      pull-push_message lib
          (reply split home m.action (obey split home m.action m.payload pool).result) old
          (reply-IsMessage m.action _ h.0 k),
    )

    -- A request that is made of declared commands and states is obeyed once, while the process ids of
    -- the pool are below 2 ^ 31: the pool becomes what the command makes of it, and the client reads
    -- from the answer the command that it asked for with its result, or with what was thrown.
    pub comply-wire :
        (m old : Message) (pool : Pool)
        → IsMessage m
        → FitsInt pool
        → let o = obey split home m.action m.payload pool in
          let both = comply split home lib (push_message lib m) pool in
          (both.0 ≡ o.pool)
          × (pull_message lib both.1 old
              ≡ record { msg = reply split home m.action o.result; thrown = none })
    comply-wire m old pool h k =
        comply-answered m old pool h (obey-IsReply m.action m.payload pool k)
