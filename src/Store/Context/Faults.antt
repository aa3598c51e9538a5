-- ===== src/Store/Context/Faults.antt =====
-- What a call of `context_impl` leaves behind when it throws, and what the lock does not see.
use webpier.Base.{
  ℕ, String, true, false, none, some, [], ◌≡◌, refl, ◌∙◌, inl, inr, arith, ok, err, Option-cases,
  eq_refl,
}
use webpier.Ptree.{PropertyTree}
use webpier.Map.{string_key, find, emplace, update, contains, find-emplace, find-update}
use webpier.Store.Types.{Service, Enums}
use webpier.Store.Services.{Services, of_services}
use webpier.Store.Context.{
  failed, PierDir, Disk, Context, services_of, is_stale, dir_of, write_file, with_lock,
  change_services, add_export_service, add_pier, set_dirs, empty_dir,
}
use webpier.Store.Context.Changing.{dir_of-stamp, dir-write_file, change_services-eq}

module _ (lib : PropertyTree) (enums : Enums) (cannot_open : String) where
  open lib use {Text, write}

  stale_change :
      (now : ℕ) (id : String) (m : Services) (c : Context) (d : Disk Text)
      → is_stale c.time d.stamp ≡ true
      → change_services lib enums cannot_open now id m c d
        ≡ failed (record c { bundle = update id (λ old. m) c.bundle }) d "The context is outdated"
  unfolding with_lock
  stale_change now id m c d t = rw t refl

  accepted :
      (now : ℕ) (info : Service) (c : Context) (d : Disk Text) (m : Services)
      → info.local ≡ true
      → find c.config.pier c.bundle ≡ some m
      → contains info.name m ≡ false
      → add_export_service lib enums cannot_open now info c d
        ≡ change_services lib enums cannot_open now c.config.pier (emplace info.name info m) c d
  unfolding add_export_service
  accepted now info c d m l e n = simp (l, e, n)

  again_refused :
      (now : ℕ) (info : Service) (c : Context) (d : Disk Text) (m : Services)
      → info.local ≡ true
      → find c.config.pier c.bundle ≡ some m
      → contains info.name m ≡ true
      → (add_export_service lib enums cannot_open now info c d).result
        ≡ err "Such service already exists"
  unfolding add_export_service
  again_refused now info c d m l e n = simp (l, e, n)

  -- A service that is added while the context is outdated is refused, and the disk stays as it is,
  -- but it is in memory all the same: it is listed, and adding it again, at any time and whatever
  -- the disk is then, is refused because it exists. The service is one to export under a new name, and
  -- the own pier is in the bundle.
  pub add_export_service-stale :
      (now later : ℕ) (info : Service) (c : Context) (d other : Disk Text) (m : Services)
      → info.local ≡ true
      → find c.config.pier c.bundle ≡ some m
      → contains info.name m ≡ false
      → is_stale c.time d.stamp ≡ true
      → let r = add_export_service lib enums cannot_open now info c d in
        (r.result ≡ err "The context is outdated")
        × (r.disk ≡ d)
        × (find info.name (services_of c.config.pier r.context) ≡ some info)
        × ((add_export_service lib enums cannot_open later info r.context other).result
            ≡ err "Such service already exists")
  add_export_service-stale now later info c d other m l e n t =
      let own = c.config.pier in
      let held = emplace info.name info m in
      let after = record c { bundle = update own (λ (old : Services). held) c.bundle } in
      let left : add_export_service lib enums cannot_open now info c d
          ≡ failed after d "The context is outdated" =
        accepted now info c d m l e n ∙ stale_change now own held c d t in
      let entry : find own after.bundle ≡ some held =
        ground (arith, find-update own own (λ (old : Services). held) c.bundle, eq_refl own) in
      let listed : find info.name held ≡ some info =
        ground (arith, find-emplace info.name info.name info m, eq_refl info.name) in
      let shown : find info.name (services_of own after) ≡ some info =
        rw (entry, services_of) listed in
      rw left (
        refl,
        refl,
        shown,
        again_refused later info after other held l entry (rw (listed, contains) refl),
      )

  -- A context that has not written yet is never outdated: what it adds goes to disk, and replaces
  -- whatever another process has put into the file since this one was opened. The service is one
  -- to export under a new name, and the own pier is in the bundle and has a directory.
  pub add_export_service-unwritten :
      (now : ℕ) (info : Service) (c : Context) (d : Disk Text) (m : Services) (dir : PierDir Text)
      → c.time ≡ 0
      → info.local ≡ true
      → find c.config.pier c.bundle ≡ some m
      → contains info.name m ≡ false
      → dir_of c.config.repo c.config.pier d ≡ some dir
      → let r = add_export_service lib enums cannot_open now info c d in
        (r.result ≡ ok tt)
        × (dir_of c.config.repo c.config.pier r.disk
            ≡ some (record dir {
              file = some (write (of_services lib enums (emplace info.name info m)));
            }))
  add_export_service-unwritten now info c d m dir z l e n s =
      let own = c.config.pier in
      let held = emplace info.name info m in
      let fresh : is_stale c.time d.stamp ≡ false = rw z refl in
      let known : contains own c.bundle ≡ true = rw (e, contains) refl in
      rw
        (
          accepted now info c d m l e n,
          change_services-eq lib enums cannot_open now own held c d dir fresh known s,
        )
        (
          refl,
          dir_of-stamp lib enums cannot_open c.config.repo own now
                (write_file c.config.repo own (write (of_services lib enums held)) d)
              ∙ rw
                  (
                    dir-write_file lib enums cannot_open c.config.repo own own
                        (write (of_services lib enums held)) d,
                    eq_refl own,
                    s,
                  )
                  refl,
        )

  never_stale_now : (now : ℕ) → is_stale now now ≡ false
  never_stale_now now = ground arith

  dir_of-set_dirs :
      (repo pier : String) (dir : PierDir Text) (d : Disk Text)
      → dir_of repo pier d ≡ none
      → dir_of repo pier (set_dirs repo (emplace pier dir) d) ≡ some dir
  unfolding dir_of set_dirs find
  dir_of-set_dirs repo pier dir d n = elim (Option-cases (find repo d.repos)) [
    | inl e ↦ ground (
      arith,
      find-update repo repo (emplace pier dir) (emplace repo [] d.repos),
      find-emplace repo repo [] d.repos,
      find-emplace pier pier dir [],
      eq_refl repo,
      eq_refl pier,
    )
    | inr (dirs, e) ↦ ground (
      arith,
      find-update repo repo (emplace pier dir) (emplace repo [] d.repos),
      find-emplace repo repo [] d.repos,
      find-emplace pier pier dir dirs,
      eq_refl repo,
      eq_refl pier,
    )
  ]

  add_bad_pier :
      (now : ℕ) (pier e : String) (c : Context) (d : Disk Text)
      → is_stale c.time d.stamp ≡ false
      → dir_of c.config.repo pier d ≡ none
      → add_pier lib enums cannot_open now pier (some e) c d ≡ record {
        context = record c { time = now };
        disk = record (set_dirs c.config.repo (emplace pier empty_dir) d) { stamp = now };
        result = err e;
      }
  unfolding add_pier with_lock
  add_bad_pier now pier e c d f n = simp (f, n)

  add_known_pier :
      (now : ℕ) (pier : String) (c : Context) (d : Disk Text) (dir : PierDir Text)
      → is_stale c.time d.stamp ≡ false
      → dir_of c.config.repo pier d ≡ some dir
      → (add_pier lib enums cannot_open now pier none c d).result ≡ err "The pier already exists"
  unfolding add_pier with_lock
  add_known_pier now pier c d dir f n = simp (f, n)

  -- A pier whose certificate is refused leaves its directory behind, and can then not be added with
  -- a good certificate either. The context is not outdated, and the pier has no directory before.
  pub add_pier-refused :
      (now later : ℕ) (pier e : String) (c : Context) (d : Disk Text)
      → is_stale c.time d.stamp ≡ false
      → dir_of c.config.repo pier d ≡ none
      → let r = add_pier lib enums cannot_open now pier (some e) c d in
        (r.result ≡ err e)
        × ((add_pier lib enums cannot_open later pier none r.context r.disk).result
            ≡ err "The pier already exists")
  add_pier-refused now later pier e c d f n =
      let repo = c.config.repo in
      let made = set_dirs repo (emplace pier empty_dir) d in
      rw (add_bad_pier now pier e c d f n) (
        refl,
        add_known_pier later pier (record c { time = now }) (record made { stamp = now }) empty_dir
            (never_stale_now now)
            (dir_of-stamp lib enums cannot_open repo pier now made
              ∙ dir_of-set_dirs repo pier empty_dir d n),
      )
