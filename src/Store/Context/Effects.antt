-- ===== src/Store/Context/Effects.antt =====
-- What the calls of `context_impl` that change services do to the services that are found, when the
-- pier can be saved.
use webpier.Base.{
  ℕ, String, Bool, true, false, Option, none, some, ◌≡◌, refl, inl, inr, arith, Result, ok, ◌==◌,
  ◌&&◌, not, if◌then◌else◌, Bool-cases, Option-cases, eq_iff,
}
use webpier.Ptree.{PropertyTree}
use webpier.Map.{string_key, find, emplace, erase, contains, find-emplace, find-erase}
use webpier.Store.Types.{Service, Enums}
use webpier.Store.Services.{Services, of_services}
use webpier.Store.Context.{
  PierDir, Disk, Context, Changed, services_of, is_stale, dir_of, write_file, change_services,
  failed, add_export_service, add_import_service,
}
use webpier.Store.Context.Changing.{change_services-eq, find-changed, dir_of-stamp, dir-write_file}

-- the service of a pier that is found under a name
abbrev pub lookup : String → String → Context → Option Service
lookup pier name c = find name (services_of pier c)

-- the pier that holds a service: the own one for a service to export
abbrev pub side : Bool → String → Context → String
side b pier c = if b then c.config.pier else pier

module _ {Text : Type 0} where
  abbrev pub has_dir : Option (PierDir Text) → Bool
  has_dir none = false
  has_dir (some dir) = true

  -- A call that changes the services of the pier goes to disk: the context is not outdated, it knows
  -- the pier, and the pier has a directory.
  unfoldable pub can_save : String → Context → Disk Text → Bool
  can_save pier c d =
      not (is_stale c.time d.stamp)
      && contains pier c.bundle
      && has_dir (dir_of c.config.repo pier d)

module _ (lib : PropertyTree) (enums : Enums) (cannot_open : String) where
  open lib use {Text, write}

  -- The call returns, changes no setting, leaves every pier saveable that was, and makes the context
  -- find what it should.
  abbrev pub IsDone :
      Context → Disk Text → Changed Text → (String → String → Option Service) → Type 0
  IsDone c d r want =
      (r.result ≡ ok tt)
      × (r.context.config ≡ c.config)
      × ((q : String) → can_save q c d ≡ true → can_save q r.context r.disk ≡ true)
      × ((q k : String) → lookup q k r.context ≡ want q k)

  saved_parts :
      (id : String) (c : Context) (d : Disk Text)
      → can_save id c d ≡ true
      → (is_stale c.time d.stamp ≡ false)
        × (contains id c.bundle ≡ true)
        × ((dir : PierDir Text) × (dir_of c.config.repo id d ≡ some dir))
  unfolding can_save
  saved_parts id c d h = elim (Option-cases (dir_of c.config.repo id d)) [
    | inl n ↦ let no : ⊥ = ground arith in absurd no
    | inr (dir, e) ↦ (ground arith, ground arith, (dir, e))
  ]

  kept_dir :
      (id q : String) (x : Text) (now : ℕ) (repo : String) (d : Disk Text)
      → has_dir (dir_of repo q d) ≡ true
      → has_dir (dir_of repo q (record (write_file repo id x d) { stamp = now })) ≡ true
  kept_dir id q x now repo d h =
      let e = dir_of-stamp lib enums cannot_open repo q now (write_file repo id x d) in
      let f = dir-write_file lib enums cannot_open repo id q x d in
      elim (Option-cases (dir_of repo q d)) [
        | inl n ↦ let no : ⊥ = ground arith in absurd no
        | inr (dir, s) ↦
            rw (e, f, s) (elim (Bool-cases (id == q)) [ inl t ↦ rw t refl | inr t ↦ rw t refl ])
      ]

  change_services-IsDone :
      (now : ℕ) (id : String) (m : Services) (c : Context) (d : Disk Text)
      → can_save id c d ≡ true
      → IsDone c d
          (change_services lib enums cannot_open now id m c d)
          (λ q k. if id == q then find k m else lookup q k c)
  unfolding can_save
  change_services-IsDone now id m c d h =
      let p = saved_parts id c d h in
      rw (change_services-eq lib enums cannot_open now id m c d p.2.0 p.0 p.1 p.2.1) (
        refl,
        refl,
        λ q g.
            let kept =
              kept_dir id q (write (of_services lib enums m)) now c.config.repo d (ground arith) in
            ground (arith, find-changed lib enums cannot_open id q m c.bundle p.1),
        λ q k. ground (arith, find-changed lib enums cannot_open id q m c.bundle p.1),
      )

  known_pier :
      (id : String) (c : Context) (d : Disk Text)
      → can_save id c d ≡ true
      → (m : Services) × (find id c.bundle ≡ some m)
  known_pier id c d h =
      let p = saved_parts id c d h in
      elim (Option-cases (find id c.bundle)) [
        | inl n ↦ let no : ⊥ = ground arith in absurd no
        | inr e ↦ e
      ]

  pub del-IsDone :
      (now : ℕ) (pier wrong name : String) (c : Context) (d : Disk Text)
      → can_save pier c d ≡ true
      → IsDone c d
          (elim (find pier c.bundle) [
            | none ↦ record { context = c; disk = d; result = Result.err wrong }
            | some m ↦
                if contains name m
                then change_services lib enums cannot_open now pier (erase name m) c d
                else record { context = c; disk = d; result = ok tt }
          ])
          (λ q k. if (pier == q) && (name == k) then none else lookup q k c)
  del-IsDone now pier wrong name c d h =
      let known = known_pier pier c d h in
      let m = known.0 in
      rw known.1 (elim (Bool-cases (contains name m)) [
        | inl t ↦
            let done = change_services-IsDone now pier (erase name m) c d h in
            rw t (
              done.0,
              done.1,
              done.2,
              λ q k.
                  let e = done.3 q k in ground (arith, find-erase name k m, eq_iff pier q, known.1),
            )
        | inr t ↦
            rw t
              (refl, refl, λ q g. g, λ q k. ground (arith, eq_iff pier q, eq_iff name k, known.1))
      ])

  pub add-IsDone :
      (now : ℕ) (pier wrong : String) (info : Service) (c : Context) (d : Disk Text)
      → can_save pier c d ≡ true
      → lookup pier info.name c ≡ none
      → IsDone c d
          (elim (find pier c.bundle) [
            | none ↦ record { context = c; disk = d; result = Result.err wrong }
            | some m ↦
                if contains info.name m
                then record {
                  context = c;
                  disk = d;
                  result = Result.err "Such service already exists";
                }
                else change_services lib enums cannot_open now pier (emplace info.name info m) c d
          ])
          (λ q k. if (pier == q) && (info.name == k) then some info else lookup q k c)
  add-IsDone now pier wrong info c d h n =
      let known = known_pier pier c d h in
      let m = known.0 in
      let fresh : contains info.name m ≡ false = ground (arith, known.1, n) in
      let done = change_services-IsDone now pier (emplace info.name info m) c d h in
      rw (known.1, fresh)
        (
          done.0,
          done.1,
          done.2,
          λ q k.
              let e = done.3 q k in
              ground (arith, find-emplace info.name k info m, eq_iff pier q, known.1, fresh),
        )

  pub accepted_export :
      (now : ℕ) (info : Service) (c : Context) (d : Disk Text)
      → info.local ≡ true
      → add_export_service lib enums cannot_open now info c d ≡ elim (find c.config.pier c.bundle) [
        | none ↦ failed c d "There is no such local pier"
        | some m ↦
            if contains info.name m
            then failed c d "Such service already exists"
            else change_services lib enums cannot_open now c.config.pier
                (emplace info.name info m)
                c
                d
      ]
  unfolding add_export_service
  accepted_export now info c d l = simp l

  pub accepted_import :
      (now : ℕ) (info : Service) (c : Context) (d : Disk Text)
      → info.local ≡ false
      → add_import_service lib enums cannot_open now info c d ≡ elim (find info.pier c.bundle) [
        | none ↦ failed c d "There is no such remote pier"
        | some m ↦
            if contains info.name m
            then failed c d "Such service already exists"
            else change_services lib enums cannot_open now info.pier (emplace info.name info m) c d
      ]
  unfolding add_import_service
  accepted_import now info c d l = simp l

  -- a call on a pier, by the side it is for
  abbrev pub add_service : Bool → ℕ → Service → Context → Disk Text → Changed Text
  add_service true = add_export_service lib enums cannot_open
  add_service false = add_import_service lib enums cannot_open

  pub add_service-IsDone :
      (b : Bool) (now : ℕ) (info : Service) (c : Context) (d : Disk Text)
      → info.local ≡ b
      → can_save (side b info.pier c) c d ≡ true
      → lookup (side b info.pier c) info.name c ≡ none
      → IsDone c d
          (add_service b now info c d)
          (λ q k. if (side b info.pier c == q) && (info.name == k) then some info else lookup q k c)
  add_service-IsDone true now info c d l h n =
      rw (accepted_export now info c d l) (add-IsDone now c.config.pier _ info c d h n)
  add_service-IsDone false now info c d l h n =
      rw (accepted_import now info c d l) (add-IsDone now info.pier _ info c d h n)
