-- ===== src/Backend/Engine/Reload.antt =====
-- What the loops of `engage`, `adjust` and `unplug` leave in the pool (src/backend/server.cpp).
use webpier.Base.{
  Option, none, some, [], ◌∷◌, ◌≡◌, refl, arith, if◌then◌else◌, Option-cases, inl, inr,
}
use webpier.Map.{Map, same_key, find}
use webpier.Map.Distinct.{IsDistinct, find_same, find-update-emplace}
use webpier.Store.Types.{Service}
use webpier.Backend.Message.{Handle, handle_key}
use webpier.Backend.Controller.{Controller}
use webpier.Backend.Engine.{Pool, reload_one, reload_all}

nothing : (j : Handle) → find {V = Controller} j [] ≡ none
unfolding find
nothing j = refl

module _ (known new : Service → Controller → Controller) (old : Pool) where
  -- What becomes of one service: the old controller changed, or a new one.
  abbrev pub renewed : Service → Option Controller → Controller
  renewed serv none = new serv []
  renewed serv (some c) = known serv c

  -- The same, in a pool that may have the controller already.
  abbrev again : Service → Option Controller → Option Controller → Controller
  again serv none held = new serv (elim held [ none ↦ [] | some d ↦ d ])
  again serv (some c) held = known serv (elim held [ none ↦ c | some d ↦ d ])

  find-reload_one :
      (id j : Handle) (serv : Service) (pool : Pool)
      → find j (reload_one known new old (id, serv) pool)
        ≡ (if same_key id j then some (again serv (find id old) (find id pool)) else find j pool)
  unfolding reload_one
  find-reload_one id j serv pool = elim (Option-cases (find id old)) [
    | inl e ↦ rw (e, reload_one) (find-update-emplace id j (new serv) [] pool)
    | inr (c, e) ↦ rw (e, reload_one) (find-update-emplace id j (known serv) c pool)
  ]

  find-reload_all :
      (items : Map Handle Service) (j : Handle) (pool : Pool)
      → IsDistinct items
      → find j (reload_all known new old items pool) ≡ elim (find j items) [
        | none ↦ find j pool
        | some serv ↦ some (again serv (find j old) (find j pool))
      ]
  unfolding reload_all find
  find-reload_all [] j pool d = refl
  find-reload_all ((id, serv) ∷ items) j pool d = ground (
    arith,
    find-reload_all items j (reload_one known new old (id, serv) pool) d.1,
    find-reload_one id j serv pool,
    find_same id j items,
    find_same id j old,
    find_same id j pool,
  )

  -- A new pool has a controller for exactly the services that were loaded.
  pub find-reload :
      (items : Map Handle Service) (j : Handle)
      → IsDistinct items
      → find j (reload_all known new old items [])
        ≡ elim (find j items) [ none ↦ none | some serv ↦ some (renewed serv (find j old)) ]
  find-reload items j d =
      ground (arith, find-reload_all items j [] d, nothing j, Option-cases (find j old))
