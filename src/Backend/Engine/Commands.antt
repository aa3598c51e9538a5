-- ===== src/Backend/Engine/Commands.antt =====
-- What the commands of the engine do to the services (src/backend/server.cpp).
use webpier.Base.{
  String, true, false, none, some, List, [], ◌≡◌, ◌≢◌, ◌↔◌, refl, arith, ◌∙◌, Option-cases, inl,
  inr, ok,
}
use webpier.Map.{Map, find}
use webpier.Map.Distinct.{IsDistinct}
use webpier.Store.Types.{Config, Service}
use webpier.Backend.Message.{Handle, handle_key, asleep}
use webpier.Backend.Controller.{Controller, suspend, state}
use webpier.Backend.Controller.State.{state-eq-asleep_iff, state-restart}
use webpier.Backend.Engine.{
  Pool, Home, is_asleep, load_all, reload, start, engage_known, adjust_known, unplug_known,
  engage_all, adjust_all, unplug_all,
}
use webpier.Backend.Engine.Reload.{renewed, find-reload}

pub is_asleep_iff : (c : Controller) → (is_asleep c ≡ true) ↔ (state c ≡ asleep)
is_asleep_iff c = ground arith

pub asleep-suspend : (c : Controller) → state (suspend c) ≡ asleep
unfolding suspend
asleep-suspend c = (state-eq-asleep_iff []).1 refl

asleep-nil : state [] ≡ asleep
asleep-nil = (state-eq-asleep_iff []).1 refl

-- `boost::split` returns at least one token.
abbrev pub Splits : (String → List String) → Type 0
Splits split = (s : String) → split s ≢ []

module _ (split : String → List String) (splits : Splits split) (conf : Config)
    (serv : Service) where
  pub start-asleep :
      (c : Controller) → (state (start split conf serv c) ≡ asleep) ↔ (serv.autostart ≡ false)
  unfolding start
  start-asleep c =
      ground (arith, state-restart split conf serv c (splits serv.pier), asleep-suspend c)

  engage_known-asleep :
      (c : Controller)
      → (state (engage_known split conf serv c) ≡ asleep) ↔ (serv.autostart ≡ false)
  unfolding engage_known
  engage_known-asleep c =
      ground (
        arith,
        state-restart split conf serv c (splits serv.pier),
        asleep-suspend c,
        is_asleep_iff c,
      )

  adjust_known-asleep :
      (c : Controller) → (state (adjust_known split conf serv c) ≡ asleep) ↔ (state c ≡ asleep)
  unfolding adjust_known
  adjust_known-asleep c =
      ground (arith, state-restart split conf serv c (splits serv.pier), is_asleep_iff c)

unplug_known-asleep :
    (conf : Config) (serv : Service) (c : Controller) → state (unplug_known conf serv c) ≡ asleep
unfolding unplug_known
unplug_known-asleep conf serv c = ground (arith, asleep-suspend c, is_asleep_iff c)

-- A command on all services that can read its settings.
module _ (home : Home) (pool : Pool) (conf : Config) (items : Map Handle Service)
    (loaded : load_all home ≡ ok (conf, items)) (distinct : IsDistinct items) where
  reload_finds :
      (known new : Config → Service → Controller → Controller) (id : Handle) (serv : Service)
      → find id items ≡ some serv
      → find id (reload known new home pool).pool
        ≡ some (renewed (known conf) (new conf) pool serv (find id pool))
  unfolding reload
  reload_finds known new id serv e =
      rw (loaded, reload) (rw (find-reload (known conf) (new conf) pool items id distinct, e) refl)

  reload_drops :
      (known new : Config → Service → Controller → Controller) (id : Handle)
      → find id items ≡ none
      → find id (reload known new home pool).pool ≡ none
  unfolding reload
  reload_drops known new id e =
      rw (loaded, reload) (rw (find-reload (known conf) (new conf) pool items id distinct, e) refl)

  -- After `engage()` every service on disk has a controller, which is asleep exactly when the
  -- service is not started automatically, whatever the pool held before. The services on
  -- disk are distinct keys, and `boost::split` returns at least one token.
  pub engage_all-wakes :
      (split : String → List String) (id : Handle) (serv : Service)
      → Splits split
      → find id items ≡ some serv
      → (c : Controller) × (find id (engage_all split home pool).pool ≡ some c)
        × ((state c ≡ asleep) ↔ (serv.autostart ≡ false))
  unfolding engage_all
  engage_all-wakes split id serv splits e = elim (Option-cases (find id pool)) [
    | inl f ↦ (
      start split conf serv [],
      reload_finds (engage_known split) (start split) id serv e ∙ rw f refl,
      start-asleep split splits conf serv [],
    )
    | inr (c, f) ↦ (
      engage_known split conf serv c,
      reload_finds (engage_known split) (start split) id serv e ∙ rw f refl,
      engage_known-asleep split splits conf serv c,
    )
  ]

  -- After `adjust()` a service on disk that was asleep is still asleep, one that was awake is awake,
  -- and one that is new is asleep exactly when it is not started automatically. The services on disk are
  -- distinct keys, and `boost::split` returns at least one token.
  pub adjust_all-keeps :
      (split : String → List String) (id : Handle) (serv : Service)
      → Splits split
      → find id items ≡ some serv
      → (c : Controller) × (find id (adjust_all split home pool).pool ≡ some c)
        × ((state c ≡ asleep) ↔ (elim (find id pool) [
          | none ↦ serv.autostart ≡ false
          | some old ↦ state old ≡ asleep
        ]))
  unfolding adjust_all
  adjust_all-keeps split id serv splits e = elim (Option-cases (find id pool)) [
    | inl f ↦ (
      start split conf serv [],
      reload_finds (adjust_known split) (start split) id serv e ∙ rw f refl,
      rw f (start-asleep split splits conf serv []),
    )
    | inr (c, f) ↦ (
      adjust_known split conf serv c,
      reload_finds (adjust_known split) (start split) id serv e ∙ rw f refl,
      rw f (adjust_known-asleep split splits conf serv c),
    )
  ]

  -- After `unplug()` every service on disk has a controller, and it is asleep. The services on
  -- disk are distinct keys.
  pub unplug_all-sleeps :
      (id : Handle) (serv : Service)
      → find id items ≡ some serv
      → (c : Controller) × (find id (unplug_all home pool).pool ≡ some c) × (state c ≡ asleep)
  unfolding unplug_all
  unplug_all-sleeps id serv e = elim (Option-cases (find id pool)) [
    | inl f ↦ ([], reload_finds unplug_known (λ conf serv c. c) id serv e ∙ rw f refl, asleep-nil)
    | inr (c, f) ↦ (
      unplug_known conf serv c,
      reload_finds unplug_known (λ conf serv c. c) id serv e ∙ rw f refl,
      unplug_known-asleep conf serv c,
    )
  ]

  -- A service that is no longer on disk is gone from the pool after any of the three commands.
  -- The services on disk are distinct keys.
  reload-drops :
      (split : String → List String) (id : Handle)
      → find id items ≡ none
      → (find id (engage_all split home pool).pool ≡ none)
        × (find id (adjust_all split home pool).pool ≡ none)
        × (find id (unplug_all home pool).pool ≡ none)
  unfolding engage_all adjust_all unplug_all
  reload-drops split id e = (
    reload_drops (engage_known split) (start split) id e,
    reload_drops (adjust_known split) (start split) id e,
    reload_drops unplug_known (λ conf serv c. c) id e,
  )
