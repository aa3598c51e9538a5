-- ===== src/Store/Context/Placing.antt =====
-- Where the services of `context_impl` stand: an invariant of the calls between two openings.
use mathlib.Core.Path.{subst}
use webpier.Base.{
  ℕ, String, true, false, Option, none, some, [], ◌≡◌, refl, inl, inr, arith, ok, ◌==◌, ◌&&◌, ◌||◌,
  not, if◌then◌else◌, Bool-cases, Option-cases, eq_iff, eq_refl,
}
use webpier.Ptree.{PropertyTree}
use webpier.Map.{string_key, find, emplace, erase, contains, update, find-emplace, find-erase}
use webpier.Store.Types.{Config, Service, Enums}
use webpier.Store.Context.Opening.{set_config}
use webpier.Store.Services.{Services}
use webpier.Store.Context.{
  Disk, Context, Changed, is_stale, dir_of, with_lock, save_config, change_services, failed,
  add_export_service, del_export_service, add_import_service, del_import_service, add_pier,
  del_pier,
}
use webpier.Store.Context.Effects.{lookup, accepted_export, accepted_import}
use webpier.Store.Context.Kept.{change_services-lookup, save_pier_config-context}

-- A service that is found under a pier and a name has that name; one to export is under the own pier,
-- and an import is under the pier that it names.
abbrev pub IsPlaced : String → String → String → Service → Type 0
IsPlaced own q k s =
    (s.name ≡ k) × ((s.local && not (q == own)) ≡ false) × ((s.local || (s.pier == q)) ≡ true)

abbrev pub ArePlaced : Context → Type 0
ArePlaced c = (q k : String) (s : Service) → lookup q k c ≡ some s → IsPlaced c.config.pier q k s

module _ (lib : PropertyTree) (enums : Enums) (cannot_open : String) where
  open lib use {Text}

  change_services-config :
      (now : ℕ) (id : String) (m : Services) (c : Context) (d : Disk Text)
      → (change_services lib enums cannot_open now id m c d).context.config ≡ c.config
  unfolding with_lock
  change_services-config now id m c d = elim (Bool-cases (is_stale c.time d.stamp)) [
    | inl t ↦ rw t refl
    | inr t ↦
        rw
          (
            t,
            save_pier_config-context lib enums cannot_open id
                (record c { bundle = update id (λ (old : Services). m) c.bundle }) d,
          )
          refl
  ]

  change_services-ArePlaced :
      (now : ℕ) (id : String) (m : Services) (c : Context) (d : Disk Text)
      → contains id c.bundle ≡ true
      → ((k : String) (s : Service) → find k m ≡ some s → IsPlaced c.config.pier id k s)
      → ArePlaced c
      → ArePlaced (change_services lib enums cannot_open now id m c d).context
  change_services-ArePlaced now id m c d known new old q k s h =
      let found = change_services-lookup lib enums cannot_open now id q k m c d known in
      rw (change_services-config now id m c d) (elim (Bool-cases (id == q)) [
        | inl t ↦
            let same : id ≡ q = (eq_iff id q).0 t in
            let here : find k m ≡ some s = ground (arith, found, h, t) in
            subst (λ p. IsPlaced c.config.pier p k s) same (new k s here)
        | inr t ↦ let there : lookup q k c ≡ some s = ground (arith, found, h, t) in old q k s there
      ])

  -- the shape of the calls that add
  adds-ArePlaced :
      (now : ℕ) (pier wrong : String) (info : Service) (c : Context) (d : Disk Text)
      → IsPlaced c.config.pier pier info.name info
      → ArePlaced c
      → ArePlaced
          (elim (find pier c.bundle) as (λ _. Changed Text) [
            | none ↦ failed c d wrong
            | some m ↦
                if contains info.name m
                then failed c d "Such service already exists"
                else change_services lib enums cannot_open now pier (emplace info.name info m) c d
          ]).context
  adds-ArePlaced now pier wrong info c d placed old = elim (Option-cases (find pier c.bundle)) [
    | inl n ↦ rw n old
    | inr (m, e) ↦ elim (Bool-cases (contains info.name m)) [
      | inl t ↦ rw (e, t) old
      | inr t ↦
          rw (e, t)
            (change_services-ArePlaced now pier (emplace info.name info m) c d
              (rw (e, contains) refl)
              (λ k s h. elim (Bool-cases (info.name == k)) [
                | inl u ↦
                    let same : info.name ≡ k = (eq_iff info.name k).0 u in
                    let this : info ≡ s =
                      ground (arith, find-emplace info.name k info m, h, u, t) in
                    subst (λ v. IsPlaced c.config.pier pier k v) this
                      (subst (λ j. IsPlaced c.config.pier pier j info) same placed)
                | inr u ↦ old pier k s (ground (arith, find-emplace info.name k info m, h, u, t, e))
              ])
              old)
    ]
  ]

  -- the shape of the calls that delete
  deletes-ArePlaced :
      (now : ℕ) (pier wrong name : String) (c : Context) (d : Disk Text)
      → ArePlaced c
      → ArePlaced
          (elim (find pier c.bundle) as (λ _. Changed Text) [
            | none ↦ failed c d wrong
            | some m ↦
                if contains name m
                then change_services lib enums cannot_open now pier (erase name m) c d
                else record { context = c; disk = d; result = ok tt }
          ]).context
  deletes-ArePlaced now pier wrong name c d old = elim (Option-cases (find pier c.bundle)) [
    | inl n ↦ rw n old
    | inr (m, e) ↦ elim (Bool-cases (contains name m)) [
      | inl t ↦
          rw (e, t)
            (change_services-ArePlaced now pier (erase name m) c d (rw (e, contains) refl)
              (λ k s h. old pier k s (ground (arith, find-erase name k m, h, e))) old)
      | inr t ↦ rw (e, t) old
    ]
  ]

  pub add_export-ArePlaced :
      (now : ℕ) (info : Service) (c : Context) (d : Disk Text)
      → ArePlaced c
      → ArePlaced (add_export_service lib enums cannot_open now info c d).context
  unfolding add_export_service
  add_export-ArePlaced now info c d old = elim (Bool-cases info.local) [
    | inl l ↦ rw (accepted_export lib enums cannot_open now info c d l) (
        adds-ArePlaced now c.config.pier _ info c d
          (refl, ground (arith, l, eq_refl c.config.pier), ground (arith, l)) old)
    | inr l ↦ simp l old
  ]

  pub add_import-ArePlaced :
      (now : ℕ) (info : Service) (c : Context) (d : Disk Text)
      → ArePlaced c
      → ArePlaced (add_import_service lib enums cannot_open now info c d).context
  unfolding add_import_service
  add_import-ArePlaced now info c d old = elim (Bool-cases info.local) [
    | inl l ↦ simp l old
    | inr l ↦ rw (accepted_import lib enums cannot_open now info c d l) (
        adds-ArePlaced now info.pier _ info c d
          (refl, ground (arith, l), ground (arith, l, eq_refl info.pier)) old)
  ]

  pub del_export-ArePlaced :
      (now : ℕ) (name : String) (c : Context) (d : Disk Text)
      → ArePlaced c
      → ArePlaced (del_export_service lib enums cannot_open now name c d).context
  unfolding del_export_service
  del_export-ArePlaced now name c d old = deletes-ArePlaced now c.config.pier _ name c d old

  pub del_import-ArePlaced :
      (now : ℕ) (pier name : String) (c : Context) (d : Disk Text)
      → ArePlaced c
      → ArePlaced (del_import_service lib enums cannot_open now pier name c d).context
  unfolding del_import_service
  del_import-ArePlaced now pier name c d old = deletes-ArePlaced now pier _ name c d old

  pub add_pier-ArePlaced :
      (now : ℕ) (pier : String) (refused : Option String) (c : Context) (d : Disk Text)
      → ArePlaced c
      → ArePlaced (add_pier lib enums cannot_open now pier refused c d).context
  unfolding add_pier with_lock find
  add_pier-ArePlaced now pier (some what) c d old = elim (Bool-cases (is_stale c.time d.stamp)) [
    | inl t ↦ rw t old
    | inr t ↦ elim (Option-cases (dir_of c.config.repo pier d)) [
      | inr (dir, e) ↦ rw (t, e) old
      | inl e ↦ rw (t, e) old
    ]
  ]
  add_pier-ArePlaced now pier none c d old = elim (Bool-cases (is_stale c.time d.stamp)) [
    | inl t ↦ rw t old
    | inr t ↦ elim (Option-cases (dir_of c.config.repo pier d)) [
      | inr (dir, e) ↦ rw (t, e) old
      | inl e ↦
          let none_here : Services = [] in
          rw (t, e)
            (λ q k s h. old q k s (ground (arith, find-emplace pier q none_here c.bundle, h)))
    ]
  ]

  pub del_pier-ArePlaced :
      (now : ℕ) (pier : String) (c : Context) (d : Disk Text)
      → ArePlaced c
      → ArePlaced (del_pier lib enums cannot_open now pier c d).context
  unfolding del_pier with_lock find
  del_pier-ArePlaced now pier c d old = elim (Bool-cases (pier == c.config.pier)) [
    | inl o ↦ rw o old
    | inr o ↦ elim (Bool-cases (is_stale c.time d.stamp)) [
      | inl t ↦ rw (o, t) old
      | inr t ↦ rw (o, t) (λ q k s h. old q k s (ground (arith, find-erase pier q c.bundle, h)))
    ]
  ]

  -- settings that keep the pier
  pub set_config-ArePlaced :
      (now : ℕ) (info : Config) (c : Context) (d : Disk Text)
      → ArePlaced c
      → ArePlaced
          (set_config lib enums cannot_open now (record info { pier = c.config.pier }) c d).context
  unfolding set_config with_lock save_config
  set_config-ArePlaced now info c d old =
      let own = eq_refl c.config.pier in
      elim (Bool-cases (is_stale c.time d.stamp)) [
        | inl t ↦ rw (own, t) old
        | inr t ↦ rw (own, t) old
      ]
