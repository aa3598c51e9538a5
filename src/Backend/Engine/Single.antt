-- ===== src/Backend/Engine/Single.antt =====
-- What the commands on one service do (src/backend/server.cpp).
use webpier.Base.{
  String, ◌<>◌, true, false, none, some, List, [], ◌≡◌, refl, arith, eq_refl, if◌then◌else◌,
  Option-cases, inl, inr, Result, not, ok, err, is_empty,
}
use webpier.Map.{same_key, find, find-update, find-erase}
use webpier.Map.Distinct.{find-update-emplace}
use webpier.Store.Types.{Config, Service}
use webpier.Backend.Message.{Handle, handle_key}
use webpier.Backend.Controller.{Controller, restart, suspend}
use webpier.Backend.Controller.State.{state-restart}
use webpier.Backend.Engine.{
  Pool, Home, is_asleep, load_one, start, engage_loaded, adjust_loaded, unplug_loaded, engage_one,
  adjust_one, unplug_one, absent, sleeps,
}
use webpier.Backend.Engine.Commands.{Splits, asleep-suspend}

same_key_self : (id : Handle) → same_key id id ≡ true
same_key_self id = eq_refl (id.pier <> id.service)

is_asleep-restart :
    (split : String → List String) (conf : Config) (serv : Service) (c : Controller)
    → Splits split
    → is_asleep (restart split conf serv c) ≡ false
is_asleep-restart split conf serv c splits =
    ground (arith, state-restart split conf serv c (splits serv.pier))

is_asleep-suspend : (c : Controller) → is_asleep (suspend c) ≡ true
is_asleep-suspend c = ground (arith, asleep-suspend c)

is_asleep-start :
    (split : String → List String) (conf : Config) (serv : Service) (c : Controller)
    → Splits split
    → is_asleep (start split conf serv c) ≡ not serv.autostart
unfolding start
is_asleep-start split conf serv c splits =
    ground (arith, is_asleep-restart split conf serv c splits, is_asleep-suspend c)

module _ (split : String → List String) where
  engage_loaded-frame :
      (r : Result (Config × Service)) (id j : Handle) (pool : Pool)
      → same_key id j ≡ false
      → find j (engage_loaded split r id pool).pool ≡ find j pool
  unfolding engage_loaded
  engage_loaded-frame (err e) id j pool h = refl
  engage_loaded-frame (ok (conf, serv)) id j pool h =
      ground
        (arith, find-erase id j pool, find-update-emplace id j (restart split conf serv) [] pool)

  adjust_loaded-frame :
      (r : Result (Config × Service)) (id j : Handle) (pool : Pool)
      → same_key id j ≡ false
      → find j (adjust_loaded split r id pool).pool ≡ find j pool
  unfolding adjust_loaded
  adjust_loaded-frame (err e) id j pool h = refl
  adjust_loaded-frame (ok (conf, serv)) id j pool h = ground (
    arith,
    find-erase id j pool,
    find-update-emplace id j (start split conf serv) [] pool,
    find-update id j (restart split conf serv) pool,
  )

unplug_loaded-frame :
    (r : Result (Config × Service)) (id j : Handle) (pool : Pool)
    → same_key id j ≡ false
    → find j (unplug_loaded r id pool).pool ≡ find j pool
unfolding unplug_loaded
unplug_loaded-frame (err e) id j pool h = refl
unplug_loaded-frame (ok (conf, serv)) id j pool h =
    ground (arith, find-erase id j pool, find-update id j suspend pool)

module _ (split : String → List String) (home : Home) (id : Handle) (pool : Pool) where
  -- A command on one service touches no other: every handle that is another key finds what it
  -- found before, whether the command succeeds or throws.
  pub one-frame :
      (j : Handle)
      → same_key id j ≡ false
      → (find j (engage_one split home id pool).pool ≡ find j pool)
        × (find j (adjust_one split home id pool).pool ≡ find j pool)
        × (find j (unplug_one home id pool).pool ≡ find j pool)
  unfolding engage_one adjust_one unplug_one
  one-frame j e = (
    engage_loaded-frame split (load_one home id) id j pool e,
    adjust_loaded-frame split (load_one home id) id j pool e,
    unplug_loaded-frame (load_one home id) id j pool e,
  )

  -- A service that is not on disk is dropped from the pool by all three commands, and `engage`
  -- complains besides.
  one-missing :
      (conf : Config) (serv : Service)
      → load_one home id ≡ ok (conf, serv)
      → is_empty serv.name ≡ true
      → (find id (engage_one split home id pool).pool ≡ none)
        × ((engage_one split home id pool).result ≡ err "wrong service")
        × (find id (adjust_one split home id pool).pool ≡ none)
        × ((adjust_one split home id pool).result ≡ ok tt)
        × (find id (unplug_one home id pool).pool ≡ none)
        × ((unplug_one home id pool).result ≡ ok tt)
  unfolding engage_one adjust_one unplug_one engage_loaded adjust_loaded unplug_loaded
  one-missing conf serv e n = rw e (ground (arith, find-erase id id pool, same_key_self id))

  -- With the service on disk, `engage` leaves its controller restarted and awake, `unplug` leaves
  -- none that is awake, and `adjust` one that is asleep exactly when it was, or, if it is new, when
  -- the service is not started automatically. `boost::split` returns at least one token.
  pub one-states :
      (conf : Config) (serv : Service)
      → Splits split
      → load_one home id ≡ ok (conf, serv)
      → is_empty serv.name ≡ false
      → (find id (engage_one split home id pool).pool
          ≡ some (restart split conf serv (elim (find id pool) [ none ↦ [] | some c ↦ c ])))
        × (sleeps id (engage_one split home id pool).pool ≡ false)
        × (sleeps id (unplug_one home id pool).pool ≡ true)
        × (sleeps id (adjust_one split home id pool).pool
            ≡ (if absent id pool then not serv.autostart else sleeps id pool))
  unfolding engage_one adjust_one unplug_one engage_loaded adjust_loaded unplug_loaded
  one-states conf serv splits e n = elim (Option-cases (find id pool)) [
    | inl f ↦ rw e (
        ground (
          arith,
          find-update-emplace id id (restart split conf serv) [] pool,
          find-update-emplace id id (start split conf serv) [] pool,
          same_key_self id,
          is_asleep-restart split conf serv [] splits,
          is_asleep-start split conf serv [] splits,
        ))
    | inr (c, f) ↦ rw e (
        ground (
          arith,
          find-update-emplace id id (restart split conf serv) [] pool,
          find-update id id suspend pool,
          find-update id id (restart split conf serv) pool,
          same_key_self id,
          is_asleep-restart split conf serv c splits,
          is_asleep-suspend c,
        ))
  ]
