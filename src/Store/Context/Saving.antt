-- ===== src/Store/Context/Saving.antt =====
-- What the calls of `context_impl` that change services leave in memory and on disk.
use mathlib.Core.Path.{subst}
use webpier.Base.{
  ℕ, String, Bool, true, false, Option, none, some, [], ◌≡◌, ◌≢◌, refl, ◌∙◌, ap, sym, inl, inr,
  arith, Result, ok, err, ◌==◌, not, if◌then◌else◌, Bool-cases, Option-cases, eq_iff,
}
use webpier.Ptree.{PropertyTree}
use webpier.Map.{string_key, find, emplace, erase, update, contains}
use webpier.Store.Types.{Service, Enums}
use webpier.Store.Services.{Services, of_services}
use webpier.Store.Services.Agreement.{of_services-IsObject}
use webpier.Store.Context.{
  failed, PierDir, Disk, Context, Changed, dir_of, write_file, change_services, add_export_service,
  del_export_service, add_import_service, del_import_service,
}
use webpier.Store.Context.Changing.{
  dir-write_file, find-changed, change_services-eq, changed_fresh, missing_dir, dir_of-stamp,
}

module _ (lib : PropertyTree) (enums : Enums) (cannot_open : String) where
  open lib use {Text, write, read, read-write}

  -- The directory of a pier holds its services: a file that reads as what would be saved, or no file
  -- when there are none.
  abbrev pub IsFile : Services → Option Text → Type 0
  IsFile m none = m ≡ []
  IsFile m (some x) = read x ≡ some (of_services lib enums m)

  abbrev pub IsSaved : Services → Option (PierDir Text) → Type 0
  IsSaved m none = m ≡ []
  IsSaved m (some dir) = IsFile m dir.file

  -- For a pier, memory and disk agree.
  abbrev pub IsInStep : String → Context → Disk Text → Type 0
  IsInStep id c d =
      (m : Services) → find id c.bundle ≡ some m → IsSaved m (dir_of c.config.repo id d)

  refused : (r : Result (Unit {0})) (e : String) → r ≡ err e → r ≢ ok tt
  refused r e h k = cc

  -- the state after a change that goes well, pier by pier
  changed-IsInStep :
      (now : ℕ) (id j : String) (m : Services) (c : Context) (d : Disk Text) (dir : PierDir Text)
      → contains id c.bundle ≡ true
      → dir_of c.config.repo id d ≡ some dir
      → IsInStep j c d
      → IsInStep j
          (record c { bundle = emplace id [] (update id (λ old. m) c.bundle); time = now })
          (record (write_file c.config.repo id (write (of_services lib enums m)) d) { stamp = now })
  changed-IsInStep now id j m c d dir k s a n g =
      let repo = c.config.repo in
      let x = write (of_services lib enums m) in
      let after = write_file repo id x d in
      elim (Bool-cases (id == j)) [
        | inl t ↦
            let same_pier : id ≡ j = (eq_iff id j).0 t in
            let found : dir_of repo j d ≡ some dir =
              ap (λ i. dir_of repo i d) (sym same_pier) ∙ s in
            let file : dir_of repo j (record after { stamp = now })
                ≡ some (record dir { file = some x }) =
              dir_of-stamp lib enums cannot_open repo j now after
              ∙ rw (dir-write_file lib enums cannot_open repo id j x d, t, found) refl in
            let value : m ≡ n =
              ground (arith, find-changed lib enums cannot_open id j m c.bundle k) in
            rw file (
              subst (λ v. read x ≡ some (of_services lib enums v)) value
                (read-write _ (of_services-IsObject lib enums m)))
        | inr f ↦
            let file : dir_of repo j (record after { stamp = now }) ≡ dir_of repo j d =
              dir_of-stamp lib enums cannot_open repo j now after
              ∙ rw (dir-write_file lib enums cannot_open repo id j x d, f) refl in
            let value : find j c.bundle ≡ some n =
              ground (arith, find-changed lib enums cannot_open id j m c.bundle k) in
            rw file (a n value)
      ]

  -- What comes of a call keeps memory and disk in step for the pier, if the call returns.
  abbrev Keeps : String → Context → Disk Text → Changed Text → Type 0
  Keeps j c d r = IsInStep j c d → r.result ≡ ok tt → IsInStep j r.context r.disk

  failed-Keeps :
      (j : String) (c : Context) (d : Disk Text) (e : String) → Keeps j c d (failed c d e)
  failed-Keeps j c d e a h = absurd (refused _ e refl h)

  if-Keeps :
      (j : String) (c : Context) (d : Disk Text) (b : Bool) (x y : Changed Text)
      → Keeps j c d x
      → Keeps j c d y
      → Keeps j c d (if b then x else y)
  if-Keeps j c d true x y p q = p
  if-Keeps j c d false x y p q = q

  found-Keeps :
      (j : String) (c : Context) (d : Disk Text) (o : Option Services) (x : Changed Text)
      (f : Services → Changed Text)
      → Keeps j c d x
      → ((m : Services) → o ≡ some m → Keeps j c d (f m))
      → Keeps j c d (elim o [ none ↦ x | some m ↦ f m ])
  found-Keeps j c d none x f p q = p
  found-Keeps j c d (some m) x f p q = q m refl

  change_services-Keeps :
      (now : ℕ) (id j : String) (m old : Services) (c : Context) (d : Disk Text)
      → find id c.bundle ≡ some old
      → Keeps j c d (change_services lib enums cannot_open now id m c d)
  change_services-Keeps now id j m old c d e a h =
      let f = changed_fresh lib enums cannot_open now id m c d h in
      elim (Option-cases (dir_of c.config.repo id d)) [
        | inl n ↦
            absurd (refused _ cannot_open (missing_dir lib enums cannot_open now id m c d f n) h)
        | inr (dir, s) ↦
            let k : contains id c.bundle ≡ true = rw (e, contains) refl in
            subst (λ (r : Changed Text). IsInStep j r.context r.disk)
              (sym (change_services-eq lib enums cannot_open now id m c d dir f k s))
              (changed-IsInStep now id j m c d dir k s a)
      ]

  add-Keeps :
      (now : ℕ) (j pier wrong : String) (info : Service) (c : Context) (d : Disk Text)
      → Keeps j c d (elim (find pier c.bundle) [
        | none ↦ failed c d wrong
        | some m ↦
            if contains info.name m
            then failed c d "Such service already exists"
            else change_services lib enums cannot_open now pier (emplace info.name info m) c d
      ])
  add-Keeps now j pier wrong info c d =
      found-Keeps j c d (find pier c.bundle) _ _ (failed-Keeps j c d wrong) (λ m e.
        if-Keeps j c d (contains info.name m) _ _ (failed-Keeps j c d _)
          (change_services-Keeps now pier j (emplace info.name info m) m c d e))

  del-Keeps :
      (now : ℕ) (j pier wrong name : String) (c : Context) (d : Disk Text)
      → Keeps j c d (elim (find pier c.bundle) [
        | none ↦ failed c d wrong
        | some m ↦
            if contains name m
            then change_services lib enums cannot_open now pier (erase name m) c d
            else record { context = c; disk = d; result = ok tt }
      ])
  del-Keeps now j pier wrong name c d =
      found-Keeps j c d (find pier c.bundle) _ _ (failed-Keeps j c d wrong) (λ m e.
        if-Keeps j c d (contains name m) _ _
          (change_services-Keeps now pier j (erase name m) m c d e) (λ a h. a))

  -- A call that returns leaves memory and disk in step for every pier for which they were: the file
  -- of the pier reads as the services in memory, or there are none of either.
  pub changes-IsInStep :
      (now : ℕ) (info : Service) (pier name j : String) (c : Context) (d : Disk Text)
      → IsInStep j c d
      → (let r = add_export_service lib enums cannot_open now info c d in
          r.result ≡ ok tt → IsInStep j r.context r.disk)
        × (let r = del_export_service lib enums cannot_open now name c d in
            r.result ≡ ok tt → IsInStep j r.context r.disk)
        × (let r = add_import_service lib enums cannot_open now info c d in
            r.result ≡ ok tt → IsInStep j r.context r.disk)
        × (let r = del_import_service lib enums cannot_open now pier name c d in
            r.result ≡ ok tt → IsInStep j r.context r.disk)
  unfolding add_export_service del_export_service add_import_service del_import_service
  changes-IsInStep now info pier name j c d a = (
    if-Keeps j c d (not info.local) _ _ (failed-Keeps j c d _)
        (add-Keeps now j c.config.pier _ info c d) a,
    del-Keeps now j c.config.pier _ name c d a,
    if-Keeps j c d info.local _ _ (failed-Keeps j c d _) (add-Keeps now j info.pier _ info c d) a,
    del-Keeps now j pier _ name c d a,
  )
