-- ===== src/Store/Context/Reopening.antt =====
-- A context that is opened after another one has saved (src/store/context.cpp).
use webpier.Base.{String, Option, none, some, [], ok, ◌≡◌, refl, All, arith, eq_refl}
use webpier.Ptree.{PropertyTree}
use webpier.Map.{string_key, find, emplace, update, find-emplace}
use webpier.Map.Distinct.{find-update-emplace}
use webpier.Store.Types.{Enums}
use webpier.Store.Services.{Services, of_services, load_services}
use webpier.Store.Services.Agreement.{IsEntry, find-load_services}
use webpier.Store.Context.{PierDir, Context, services_of, is_own}
use webpier.Store.Context.Saving.{IsFile, IsSaved}
use webpier.Store.Context.Opening.{load_pier_config}

module _ (lib : PropertyTree) (enums : Enums) (cannot_open : String) where
  open lib use {Text, read}

  services-update :
      (id : String) (f : Services → Services) (c : Context)
      → find id c.bundle ≡ none
      → services_of id (record c { bundle = update id f (emplace id [] c.bundle) }) ≡ f []
  services-update id f c n = ground (arith, find-update-emplace id id f [] c.bundle, eq_refl id)

  services-emplace :
      (id : String) (c : Context)
      → find id c.bundle ≡ none
      → services_of id (record c { bundle = emplace id [] c.bundle }) ≡ []
  services-emplace id c n = ground (arith, find-emplace id id [] c.bundle, eq_refl id)

  load-read :
      (id : String) (x : Text) (doc : lib.Tree) (c : Context)
      → read x ≡ some doc
      → load_pier_config lib enums cannot_open id (some x) c ≡ (
        record c {
          bundle = update id (load_services lib enums (is_own id c) doc) (emplace id [] c.bundle);
        },
        ok tt,
      )
  unfolding load_pier_config
  load-read id x doc c e = rw (e, load_pier_config) refl

  load_saved :
      (id : String) (m : Services) (file : Option Text) (c : Context)
      → find id c.bundle ≡ none
      → All IsEntry m
      → IsFile lib enums cannot_open m file
      → ((load_pier_config lib enums cannot_open id file c).1 ≡ ok tt)
        × ((k : String)
            → find k (services_of id (load_pier_config lib enums cannot_open id file c).0)
              ≡ find k m)
  unfolding load_pier_config
  load_saved id m none c n h e = (refl, (λ k. rw (services-emplace id c n, e) refl))
  load_saved id m (some x) c n h e =
      let load = load_services lib enums (is_own id c) (of_services lib enums m) in
      let held : services_of id (record c { bundle = update id load (emplace id [] c.bundle) })
          ≡ load [] =
        services-update id load c n in
      rw (load-read id x (of_services lib enums m) c e)
        (refl, (λ k. rw held (find-load_services lib enums (is_own id c) k m h)))

  -- What a directory holds is loaded: a context that does not know the pier yet finds under each name
  -- the service that was saved for it, and nothing else. Each service stands under its own name, and
  -- its enumerators are values of an `int`.
  load_pier_config-saved :
      (id : String) (m : Services) (dir : PierDir Text) (c : Context)
      → find id c.bundle ≡ none
      → All IsEntry m
      → IsSaved lib enums cannot_open m (some dir)
      → let r = load_pier_config lib enums cannot_open id dir.file c in
        (r.1 ≡ ok tt) × ((k : String) → find k (services_of id r.0) ≡ find k m)
  load_pier_config-saved id m dir c n h e = load_saved id m dir.file c n h e
