-- ===== src/Backend/Connector/Liveness.antt =====
-- A connector never gets stuck (`connector` and `spawner` of src/backend/server.cpp).
use webpier.Base.{
  ℕ, String, Bool, true, false, Option, none, some, List, [], ◌∷◌, ◌++◌, ◌≡◌, ◌⊎◌, inl, inr, refl,
  arith, ◌∙◌, sym, ◌||◌, ◌&&◌, not, is_empty, Bool-cases, Result, ok, err,
}
use webpier.Store.Types.{Config, Service}
use webpier.Backend.Connector.{
  Connector, Posted, connect, fallback, restart, on_connect, on_fallback, on_timer, on_exit,
  run_posted, no_tunnels, is_broken, Event, posts, ends, runs, expires, exits, happen, has_tunnel,
  CanBe,
}

-- What plexus is relied on for: the thread does not end without a call, and the thread of an export does
-- not end with terms.
pub record IsHeard (Ends : Bool → Option Posted → Type 0) : Type 0 where
  pub calls : (is_export : Bool) → Ends is_export none → ⊥
  pub goes_on : (started : Result ℕ) → Ends true (some (connect started)) → ⊥

module _ (Ends : Bool → Option Posted → Type 0) where
  -- The controller restarts the connector, or something happens by itself. When a handler throws, the
  -- main loop is left, so no state follows.
  pub data Step (c d : Connector) : Type 0 where
    restarts : (config : Config) (service : Service) → d ≡ restart config service c → Step c d
    happens : (event : Event) → CanBe Ends event c → happen event c ≡ ok d → Step c d

  pub data Reach (c : Connector) : Connector → Type 0 where
    after : {d e : Connector} → Reach c d → Step d e → Reach c e
    at_start : Reach c c

abbrev pub any_fallback : List Posted → Bool
any_fallback [] = false
any_fallback (fallback e ∷ ps) = true
any_fallback (connect p ∷ ps) = any_fallback ps

abbrev pub any_connect : List Posted → Bool
any_connect [] = false
any_connect (connect p ∷ ps) = true
any_connect (fallback e ∷ ps) = any_connect ps

-- Something will start the negotiation again: the thread runs, the timer will end, an error is on its
-- way, or, for an import, there is a tunnel whose end starts it, or the terms of one are on their way.
abbrev pub IsAlive : Connector → Type 0
IsAlive c =
    (c.active
      || c.waiting
      || any_fallback c.posted
      || (not c.service.local && (any_connect c.posted || not (no_tunnels c.tunnels))))
    ≡ true

-- An error that is shown will be cleared: by the timer, or by the end of an import's tunnel.
abbrev pub IsExplained : Connector → Type 0
IsExplained c =
    (is_empty c.error || c.waiting || (not c.service.local && not (no_tunnels c.tunnels))) ≡ true

any_fallback-append : (ps : List Posted) (e : String) → any_fallback (ps ++ fallback e ∷ []) ≡ true
any_fallback-append [] e = refl
any_fallback-append (connect p ∷ ps) e = any_fallback-append ps e
any_fallback-append (fallback x ∷ ps) e = refl

any_connect-append : (ps : List Posted) (p : Result ℕ) → any_connect (ps ++ connect p ∷ []) ≡ true
any_connect-append [] p = refl
any_connect-append (connect q ∷ ps) p = refl
any_connect-append (fallback x ∷ ps) p = any_connect-append ps p

no_tunnels-append : (ts : List ℕ) (p : ℕ) → no_tunnels (ts ++ p ∷ []) ≡ false
no_tunnels-append [] p = refl
no_tunnels-append (t ∷ ts) p = refl

pub restart-IsAlive :
    (config : Config) (service : Service) (c : Connector) → IsAlive (restart config service c)
unfolding restart
restart-IsAlive config service c = ground arith

cleared : (c : Connector) → c.error ≡ "" → IsExplained c
cleared c e = rw e refl

restart-IsExplained :
    (config : Config) (service : Service) (c : Connector) → IsExplained (restart config service c)
unfolding restart
restart-IsExplained config service c = elim (Bool-cases (service.local || no_tunnels c.tunnels)) [
  | inl t ↦ cleared (restart config service c) (ground arith)
  | inr f ↦ ground arith
]

run_posted-both :
    (c d : Connector) (p : Posted) (rest : List Posted)
    → c.posted ≡ p ∷ rest
    → run_posted p (record c { posted = rest }) ≡ ok d
    → (IsAlive c → IsAlive d) × (IsExplained c → IsExplained d)
unfolding run_posted on_connect on_fallback
run_posted-both c d (connect (err what)) rest e r = let no : ⊥ = cc in absurd no
run_posted-both c d (connect (ok pid)) rest e r =
    let next : record c { posted = rest; tunnels = c.tunnels ++ pid ∷ [] } ≡ d = cc in
    rw (← next) (
      λ h. ground (arith, no_tunnels-append c.tunnels pid),
      λ h. ground (arith, no_tunnels-append c.tunnels pid),
    )
run_posted-both c d (fallback x) rest e r =
    let next : record c { posted = rest; error = x; waiting = true } ≡ d = cc in
    rw (← next) (λ h. ground arith, λ h. ground arith)

happen-runs :
    (c : Connector) (p : Posted) (rest : List Posted)
    → c.posted ≡ p ∷ rest
    → happen runs c ≡ run_posted p (record c { posted = rest })
unfolding happen
happen-runs c p rest e = rw e refl

happen-IsAlive :
    (Ends : Bool → Option Posted → Type 0) (event : Event) (c d : Connector)
    → IsHeard Ends
    → CanBe Ends event c
    → happen event c ≡ ok d
    → IsAlive c
    → IsAlive d
unfolding happen on_timer on_exit
happen-IsAlive Ends (posts p) c d k m r h =
    let next : record c { posted = c.posted ++ p ∷ [] } ≡ d = cc in rw (← next) (ground arith)
happen-IsAlive Ends (ends none) c d k m r h = absurd (k.calls c.service.local m.1)
happen-IsAlive Ends (ends (some (connect s))) c d k m r h = elim (Bool-cases c.service.local) [
  | inl t ↦ absurd (k.goes_on s (rw t at m.1))
  | inr t ↦
      let next : record c { active = false; posted = c.posted ++ connect s ∷ [] } ≡ d = cc in
      rw (← next) (ground (arith, any_connect-append c.posted s))
]
happen-IsAlive Ends (ends (some (fallback e))) c d k m r h =
    let next : record c { active = false; posted = c.posted ++ fallback e ∷ [] } ≡ d = cc in
    rw (← next) (ground (arith, any_fallback-append c.posted e))
happen-IsAlive Ends runs c d k (p, rest, e) r h =
    (run_posted-both c d p rest e (sym (happen-runs c p rest e) ∙ r)).0 h
happen-IsAlive Ends expires c d k m r h =
    let next : on_timer c ≡ d = cc in rw (← next) (ground arith)
happen-IsAlive Ends (exits pid) c d k m r h =
    let next : on_exit pid c ≡ d = cc in rw (← next) (ground arith)

happen-IsExplained :
    (Ends : Bool → Option Posted → Type 0) (event : Event) (c d : Connector)
    → CanBe Ends event c
    → happen event c ≡ ok d
    → IsExplained c
    → IsExplained d
unfolding happen on_timer on_exit
happen-IsExplained Ends (posts p) c d m r h =
    let next : record c { posted = c.posted ++ p ∷ [] } ≡ d = cc in rw (← next) h
happen-IsExplained Ends (ends none) c d m r h =
    let next : record c { active = false } ≡ d = cc in rw (← next) h
happen-IsExplained Ends (ends (some p)) c d m r h =
    let next : record c { active = false; posted = c.posted ++ p ∷ [] } ≡ d = cc in rw (← next) h
happen-IsExplained Ends runs c d (p, rest, e) r h =
    (run_posted-both c d p rest e (sym (happen-runs c p rest e) ∙ r)).1 h
happen-IsExplained Ends expires c d m r h =
    let next : on_timer c ≡ d = cc in rw (← next) (cleared (on_timer c) (ground arith))
happen-IsExplained Ends (exits pid) c d m r h =
    let next : on_exit pid c ≡ d = cc in
    rw (← next) (elim (Bool-cases c.service.local) [
      | inl t ↦ ground arith
      | inr f ↦ cleared (on_exit pid c) (ground arith)
    ])

first_tunnel : (ts : List ℕ) → no_tunnels ts ≡ false → (pid : ℕ) × (has_tunnel pid ts ≡ true)
first_tunnel [] h = let no : ⊥ = ground arith in absurd no
first_tunnel (p ∷ ps) h = (p, ground arith)

module _ (Ends : Bool → Option Posted → Type 0) where
  Step-IsAlive : {c d : Connector} → IsHeard Ends → Step Ends c d → IsAlive c → IsAlive d
  Step-IsAlive {c} k (restarts config service e) h = rw e (restart-IsAlive config service c)
  Step-IsAlive {c} {d} k (happens event m r) h = happen-IsAlive Ends event c d k m r h

  Step-IsExplained : {c d : Connector} → Step Ends c d → IsExplained c → IsExplained d
  Step-IsExplained {c} (restarts config service e) h = rw e (restart-IsExplained config service c)
  Step-IsExplained {c} {d} (happens event m r) h = happen-IsExplained Ends event c d m r h

  run-IsExplained : {c d : Connector} → IsExplained c → Reach Ends c d → IsExplained d
  run-IsExplained h at_start = h
  run-IsExplained h (after r s) = Step-IsExplained s (run-IsExplained h r)

  run-IsAlive : {c d : Connector} → IsHeard Ends → IsAlive c → Reach Ends c d → IsAlive d
  run-IsAlive k h at_start = h
  run-IsAlive k h (after r s) = Step-IsAlive k s (run-IsAlive k h r)

  -- Once it has been restarted, a connector is not stuck, as long as the main loop runs and whatever else
  -- happens in whatever order: its negotiation runs or will be started again, and an error that it shows
  -- will be cleared. This relies on plexus: the thread of a connector does not end without a call, nor
  -- that of an export with terms.
  pub Reach-IsAlive :
      (config : Config) (service : Service) (c : Connector) {d : Connector}
      → IsHeard Ends
      → Reach Ends (restart config service c) d
      → IsAlive d × IsExplained d
  Reach-IsAlive config service c k r = (
    run-IsAlive k (restart-IsAlive config service c) r,
    run-IsExplained (restart-IsExplained config service c) r,
  )

  -- From every state in which it is broken the connector recovers without being restarted from outside:
  -- the wait of the timer will end, or there is a tunnel of an import that will, and when that happens the
  -- error is cleared and the negotiation runs.
  pub broken_recovers :
      (config : Config) (service : Service) (c : Connector) {d : Connector}
      → Reach Ends (restart config service c) d
      → is_broken d ≡ true
      → (event : Event) × ((event ≡ expires) ⊎ ((pid : ℕ) × (event ≡ exits pid)))
        × CanBe Ends event d
        × (e : Connector) × (happen event d ≡ ok e)
        × (e.active ≡ true)
        × (e.error ≡ "")
  unfolding is_broken happen on_timer on_exit
  broken_recovers config service c {d} r b =
      let x = run-IsExplained (restart-IsExplained config service c) r in
      elim (Bool-cases d.waiting) [
        | inl w ↦ (expires, inl refl, w, on_timer d, refl, ground arith, ground arith)
        | inr n ↦
            let (pid, at) = first_tunnel d.tunnels (ground arith) in
            (exits pid, inr (pid, refl), at, on_exit pid d, refl, ground arith, ground arith)
      ]
