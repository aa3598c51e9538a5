-- ===== src/Store/Context/Changing.antt =====
-- What a change of the services of one pier by `context_impl` of src/store/context.cpp leaves.
use mathlib.Core.Option
use webpier.Base.{
  ℕ, String, true, false, none, some, [], ◌≡◌, refl, inl, inr, arith, ok, err, ◌==◌, if◌then◌else◌,
  Bool-cases, Option-cases, eq_iff, eq_refl,
}
use webpier.Ptree.{PropertyTree}
use webpier.Map.{Map, string_key, find, emplace, update, contains, find-emplace, find-update}
use webpier.Store.Types.{Enums}
use webpier.Store.Services.{Services, of_services}
use webpier.Store.Context.{
  PierDir, Disk, Context, services_of, is_stale, dir_of, write_file, with_lock, save_pier_config,
  change_services,
}

module _ (lib : PropertyTree) (enums : Enums) (cannot_open : String) where
  open lib use {Text, write}

  pub dir-write_file :
      (repo id j : String) (x : Text) (d : Disk Text)
      → dir_of repo j (write_file repo id x d) ≡ (
          if id == j
          then Option.map (λ (dir : PierDir Text). record dir { file = some x }) (dir_of repo j d)
          else dir_of repo j d)
  unfolding dir_of write_file
  dir-write_file repo id j x d =
      let add : PierDir Text → PierDir Text = λ dir. record dir { file = some x } in
      elim (Option-cases (find repo d.repos)) [
        | inl n ↦ ground (arith, find-update repo repo (update id add) d.repos, eq_refl repo)
        | inr (dirs, s) ↦ ground (
          arith,
          find-update repo repo (update id add) d.repos,
          find-update id j add dirs,
          eq_refl repo,
        )
      ]

  pub find-changed :
      (id j : String) (m : Services) (bundle : Map String Services)
      → contains id bundle ≡ true
      → find j (emplace id [] (update id (λ old. m) bundle))
        ≡ (if id == j then some m else find j bundle)
  find-changed id j m bundle h = ground (
    arith,
    find-emplace id j [] (update id (λ old. m) bundle),
    find-update id id (λ old. m) bundle,
    find-update id j (λ old. m) bundle,
    eq_refl id,
    eq_iff id j,
  )

  -- a change that goes well
  pub change_services-eq :
      (now : ℕ) (id : String) (m : Services) (c : Context) (d : Disk Text) (dir : PierDir Text)
      → is_stale c.time d.stamp ≡ false
      → contains id c.bundle ≡ true
      → dir_of c.config.repo id d ≡ some dir
      → change_services lib enums cannot_open now id m c d ≡ record {
        context = record c { bundle = emplace id [] (update id (λ old. m) c.bundle); time = now };
        disk = record (write_file c.config.repo id (write (of_services lib enums m)) d) {
          stamp = now;
        };
        result = ok tt;
      }
  unfolding with_lock save_pier_config
  change_services-eq now id m c d dir f k s =
      let own : services_of id (record c { bundle = update id (λ old. m) c.bundle }) ≡ m =
        ground (arith, find-update id id (λ old. m) c.bundle, eq_refl id) in
      rw (f, s, own, save_pier_config) refl

  pub changed_fresh :
      (now : ℕ) (id : String) (m : Services) (c : Context) (d : Disk Text)
      → (change_services lib enums cannot_open now id m c d).result ≡ ok tt
      → is_stale c.time d.stamp ≡ false
  unfolding with_lock
  changed_fresh now id m c d h = elim (Bool-cases (is_stale c.time d.stamp)) [
    | inl t ↦ ground arith
    | inr f ↦ f
  ]

  pub missing_dir :
      (now : ℕ) (id : String) (m : Services) (c : Context) (d : Disk Text)
      → is_stale c.time d.stamp ≡ false
      → dir_of c.config.repo id d ≡ none
      → (change_services lib enums cannot_open now id m c d).result ≡ err cannot_open
  unfolding with_lock save_pier_config
  missing_dir now id m c d f n = rw (f, n, save_pier_config) refl

  pub dir_of-stamp :
      (repo j : String) (now : ℕ) (d : Disk Text)
      → dir_of repo j (record d { stamp = now }) ≡ dir_of repo j d
  unfolding dir_of
  dir_of-stamp repo j now d = refl
