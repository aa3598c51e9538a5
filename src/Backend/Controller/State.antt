-- ===== src/Backend/Controller/State.antt =====
-- What `controller::state`, `message` and `tunnels` of src/backend/server.cpp say of the bundle.
use webpier.Base.{
  ℕ, String, true, false, some, List, [], ◌∷◌, ◌++◌, ◌≡◌, ◌≢◌, ◌↔◌, refl, arith, eq_iff, is_empty,
  inl, inr, Bool-cases, map,
}
use webpier.Map.{string_key, find, contains, find-emplace}
use webpier.Store.Types.{Config, Service}
use webpier.Backend.Message.{Status, asleep, broken, lonely, burden, Tunnel}
use webpier.Backend.Connector.{Connector, is_broken, is_burden}
use webpier.Backend.Controller.{Controller, to_set, restart, scan, state, message, tunnels}
use webpier.Backend.Controller.Restart.{restarted, find-restart}

scan-ne-asleep : (m : Controller) → scan lonely m ≢ asleep
unfolding scan
scan-ne-asleep [] e = cc
scan-ne-asleep ((p, c) ∷ m) e = ground (arith, scan-ne-asleep m)

-- A controller is asleep exactly when it has no connector.
pub state-eq-asleep_iff : (m : Controller) → (state m ≡ asleep) ↔ (m ≡ [])
unfolding state
state-eq-asleep_iff [] = ((λ e. refl), (λ e. refl))
state-eq-asleep_iff (e ∷ m) = ((λ h. absurd (scan-ne-asleep (e ∷ m) h)), (λ h. cc))

scan-broken :
    (res : Status) (m : Controller)
    → res ≢ broken
    → scan res m ≡ broken
    → is_empty (message m) ≡ false
unfolding scan message is_broken
scan-broken res [] n h = absurd (n h)
scan-broken res ((p, c) ∷ m) n h = elim (Bool-cases (is_empty c.error)) [
  | inl t ↦ ground (arith, scan-broken res m n)
  | inr f ↦ ground arith
]

listed :
    (p : String) (ts : List ℕ) (rest : List Tunnel)
    → map (λ pid. record { pier = p; pid = pid }) ts ++ rest ≡ []
    → (ts ≡ []) × (rest ≡ [])
listed p [] rest e = (refl, e)
listed p (t ∷ ts) rest e = cc

scan-burden : (res : Status) (m : Controller) → res ≢ burden → scan res m ≡ burden → tunnels m ≢ []
unfolding scan tunnels is_burden
scan-burden res [] n h e = absurd (n h)
scan-burden res ((p, c) ∷ m) n h e =
    let (none_here, none_there) = listed p c.tunnels (tunnels m) e in
    ground (arith, scan-burden res m n)

-- A broken controller has an error to show, and one that carries traffic has a tunnel to show.
state_shows :
    (m : Controller)
    → (state m ≡ broken → is_empty (message m) ≡ false) × (state m ≡ burden → tunnels m ≢ [])
unfolding state
state_shows [] = ((λ h. cc), (λ h. cc))
state_shows (e ∷ m) = (scan-broken lonely (e ∷ m) (λ x. cc), scan-burden lonely (e ∷ m) (λ x. cc))

contains-to_set : (s : String) (ss : List String) → contains s (to_set (s ∷ ss)) ≡ true
unfolding to_set
contains-to_set s ss = ground (arith, find-emplace s s tt (to_set ss), eq_iff s s)

find-some_ne : (p : String) (m : Controller) (c : Connector) → find p m ≡ some c → m ≢ []
unfolding find
find-some_ne p m c h e = cc

-- A restarted controller is awake. `boost::split` returns at least one token.
pub state-restart :
    (split : String → List String) (config : Config) (service : Service) (m : Controller)
    → split service.pier ≢ []
    → state (restart split config service m) ≢ asleep
state-restart split config service m h = go (split service.pier) refl
  where
    go :
        (ss : List String)
        → split service.pier ≡ ss
        → state (restart split config service m) ≢ asleep
    go [] e s = h e
    go (p ∷ ss) e s =
        find-some_ne p (restart split config service m) (restarted config service p (find p m))
          (rw (find-restart split config service m p, e, contains-to_set p ss) refl)
          ((state-eq-asleep_iff (restart split config service m)).0 s)
