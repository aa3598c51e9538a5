-- ===== src/Ui/Startup/Again.antt =====
-- The second start of the user interface (src/ui/context.cpp, src/store/context.cpp).
use webpier.Base.{
  ℕ, String, true, false, Option, none, some, [], ◌≡◌, ◌≤◌, refl, inl, inr, arith, Result, ok, err,
  ◌>>=◌, ◌>>◌, ◌==◌, ◌&&◌, ◌||◌, not, is_empty, if◌then◌else◌, Result-cases, eq_iff,
}
use webpier.Ptree.{PropertyTree}
use webpier.Store.Types.{Config, Enums}
use webpier.Store.Settings.{of_config, bootstrap_node}
use webpier.Store.Settings.Agreement.{to_config-of_config}
use webpier.Store.Context.{Disk, Context, dir_of}
use webpier.Store.Context.Opening.{load_piers, dirs_of, open_context, load_config, set_config}
use webpier.Store.Context.Switching.{load_piers-config, is_half, set_config-moved}
use webpier.Ui.Startup.{World, first_config, enter_pier, init_context, init}

module _ (lib : PropertyTree) (enums : Enums) (cannot_open : String) where
  open lib use {Text, write, read, is_blank-write}

  -- the settings that a context is opened with
  pub open-config :
      (blank config : Config) (d : Disk Text) (c : Context)
      → d.settings ≡ some (write (of_config lib enums config))
      → read (write (of_config lib enums config)) ≡ some (of_config lib enums config)
      → enums.to_severity? (lib.of_int config.log.level) ≡ some config.log.level
      → enums.to_checkup? (enums.of_checkup config.nat.test) ≡ some config.nat.test
      → config.nat.hops ≤ 255
      → config.dht.port ≤ 65535
      → open_context lib enums cannot_open blank d ≡ ok c
      → c.config ≡ record config { dht = record config.dht { network = blank.dht.network } }
  unfolding open_context load_config
  open-config blank config d c e w l t h p o =
      let whole = to_config-of_config lib enums bootstrap_node blank config l t h p in
      let read_back : Config = record config {
        dht = record config.dht { network = blank.dht.network };
      } in
      let start : Context = record { config = read_back; bundle = []; time = 0 } in
      let r =
        load_piers lib enums cannot_open (dirs_of lib enums cannot_open config.repo d) start in
      let kept : r.0.config ≡ read_back =
        load_piers-config lib enums cannot_open (dirs_of lib enums cannot_open config.repo d)
          start in
      let loaded : load_config lib enums cannot_open blank (write (of_config lib enums config))
          ≡ ok read_back =
        rw (is_blank-write (of_config lib enums config), w, load_config) whole in
      elim (Result-cases r.1) [
        | inl (f, q) ↦
            let failed : open_context lib enums cannot_open blank d ≡ err f =
              rw (e, loaded, q, open_context) refl in
            cc
        | inr (done, q) ↦
            let opened : open_context lib enums cannot_open blank d ≡ ok r.0 =
              rw (e, loaded, q, open_context) refl in
            cc
      ]

  -- a start whose context has a pier: it fails when the context cannot be opened, or the backend not be started
  abbrev pub started : Config → World → Disk Text → Result Context
  started blank world d = do
    c ← open_context lib enums cannot_open blank d
    is_running ← world.starts
    if is_running then ok tt else err "Can't start backend"
    ok c

  enter_pier-known :
      (now : ℕ) (home : String) (identity : Option String) (c : Context) (d : Disk Text)
      → is_empty c.config.pier ≡ false
      → enter_pier lib enums cannot_open now home identity c d
        ≡ record { context = c; disk = d; result = ok tt }
  unfolding enter_pier
  enter_pier-known now home identity c d n = simp n

  init_context-known :
      (now : ℕ) (home : String) (blank : Config) (world : World) (d : Disk Text)
      → ((c : Context)
          → open_context lib enums cannot_open blank d ≡ ok c
          → is_empty c.config.pier ≡ false)
      → init_context lib enums cannot_open now home blank world d ≡ (started blank world d, d)
  unfolding init_context
  init_context-known now home blank world d known =
      elim (Result-cases (open_context lib enums cannot_open blank d)) [
        | inl (e, q) ↦ rw (q, init_context) refl
        | inr (c, q) ↦
            rw (q, init_context, enter_pier-known now home world.identity c d (known c q)) refl
      ]

  -- what the first start writes
  init-first :
      (now : ℕ) (home identity : String) (blank : Config) (world : World) (c : Context)
      (d : Disk Text)
      → world.is_module ≡ true
      → (not world.has_home && not world.makes_home) ≡ false
      → world.identity ≡ some identity
      → is_empty identity ≡ false
      → open_context lib enums cannot_open blank d ≡ ok c
      → is_empty c.config.pier ≡ true
      → (init lib enums cannot_open now home blank world d).1
        ≡ (set_config lib enums cannot_open now
            (first_config home (some identity) c.config)
            c
            d).disk
  unfolding init init_context enter_pier first_config
  init-first now home identity blank world c d m h i n o e =
      rw (m, h, o, init_context, i, e, n) refl

  open-none :
      (blank : Config) (d : Disk Text)
      → d.settings ≡ none
      → open_context lib enums cannot_open blank d
        ≡ ok (record { config = blank; bundle = []; time = 0 })
  unfolding open_context
  open-none blank d fresh = rw (fresh, open_context) refl

  pier-known :
      (info : Config) (c : Context) (network : ℕ)
      → is_empty info.pier ≡ false
      → c.config ≡ record info { dht = record info.dht { network = network } }
      → is_empty c.config.pier ≡ false
  pier-known info c network n e = rw e n

  init-ready :
      (now : ℕ) (home : String) (blank : Config) (world : World) (d : Disk Text)
      → (world.is_module && (world.has_home || world.makes_home)) ≡ true
      → ((c : Context)
          → open_context lib enums cannot_open blank d ≡ ok c
          → is_empty c.config.pier ≡ false)
      → init lib enums cannot_open now home blank world d ≡ (started blank world d, d)
  unfolding init init_context
  init-ready now home blank world d ready known =
      let m : world.is_module ≡ true = ground arith in
      let h : (not world.has_home && not world.makes_home) ≡ false = ground arith in
      rw (m, h) (init_context-known now home blank world d known)

  -- The first start, on a directory without settings, makes those of the identity that its dialog
  -- was given, and they last: whatever its own dialog would have been given, any later start changes
  -- nothing; if the context cannot be opened, it fails with the error of this, and otherwise the
  -- context has just these settings, and the start fails exactly when the backend cannot be started.
  -- The paths of both starts are right, the identity is not empty and no half of another, and what
  -- is written of the settings is read back: the document and the two enumerations.
  pub init-again :
      (now later : ℕ) (home identity : String) (blank : Config) (world again : World)
      (d : Disk Text)
      → let info = first_config home (some identity) blank in
        let d1 = (init lib enums cannot_open now home blank world d).1 in
        d.settings ≡ none
        → is_empty blank.pier ≡ true
        → (world.is_module && (world.has_home || world.makes_home)) ≡ true
        → world.identity ≡ some identity
        → is_empty identity ≡ false
        → is_half lib enums cannot_open (dir_of info.repo info.pier d) ≡ false
        → read (write (of_config lib enums info)) ≡ some (of_config lib enums info)
        → enums.to_severity? (lib.of_int blank.log.level) ≡ some blank.log.level
        → enums.to_checkup? (enums.of_checkup blank.nat.test) ≡ some blank.nat.test
        → blank.nat.hops ≤ 255
        → blank.dht.port ≤ 65535
        → (again.is_module && (again.has_home || again.makes_home)) ≡ true
        → (init lib enums cannot_open later home blank again d1 ≡ (started blank again d1, d1))
          × ((c : Context) → open_context lib enums cannot_open blank d1 ≡ ok c → c.config ≡ info)
  unfolding first_config
  init-again now later home identity blank world again d fresh none_yet ready i n half w l t h p
        ready2 =
      let info = first_config home (some identity) blank in
      let start : Context = record { config = blank; bundle = []; time = 0 } in
      let opened : open_context lib enums cannot_open blank d ≡ ok start =
        open-none blank d fresh in
      let other : (identity == blank.pier) ≡ false =
        ground (arith, eq_iff identity blank.pier, eq_iff blank.pier "", eq_iff identity "") in
      let first =
        init-first now home identity blank world start d (ground arith) (ground arith) i n opened
          none_yet in
      let set = set_config-moved lib enums cannot_open now info start d other half refl in
      let d1 = (init lib enums cannot_open now home blank world d).1 in
      let saved : d1.settings ≡ some (write (of_config lib enums info)) = rw first set.2 in
      let same_config = λ (c : Context) (o : open_context lib enums cannot_open blank d1 ≡ ok c).
        open-config blank info d1 c saved w l t h p o in
      let known = λ (c : Context) (o : open_context lib enums cannot_open blank d1 ≡ ok c).
        pier-known info c blank.dht.network n (same_config c o) in
      (init-ready later home blank again d1 ready2 known, same_config)
