-- ===== src/Ui/Settings/Menu/Moved.antt =====
-- Settings of another pier, from the menu of src/ui/mainframe.cpp to the disk and back into the window.
use webpier.Base.{
  ℕ, ◌≤◌, String, ◌<>◌, Bool, true, false, some, ◌≡◌, refl, ap, sym, ◌∙◌, Result, ok, err, ◌==◌,
  not, Result-cases, [], ◌∷◌, ◌++◌, inl, inr, Bool-cases, eq_iff, if◌then◌else◌,
}
use webpier.Ptree.{PropertyTree}
use webpier.Store.Types.{Config, Enums}
use webpier.Store.Settings.{of_config}
use webpier.Store.Context.{Context, dir_of, is_stale}
use webpier.Store.Context.Opening.{set_config, open_context}
use webpier.Store.Context.Switching.{is_half, set_config-moved}
use webpier.Backend.Message.{Command, unplug}
use webpier.Ui.Settings.{
  ConfigDesk, Configured, config_eq, without_network, store_config, give_all, moved,
}
use webpier.Ui.Settings.Menu.{
  Shell, config_desk, with_config_desk, in_session, populate_shell, on_settings,
}
use webpier.Ui.Buttons.{say}
use webpier.Ui.Startup.Again.{open-config}

module _ (lib : PropertyTree) (enums : Enums) (cannot_open : String) (parent_path : String → String)
    (give : Command → Result (Unit {0})) where
  open lib use {Text, write, read}

  abbrev pub info_of : ConfigDesk Text → Config
  info_of s = moved lib enums cannot_open parent_path give s.origin (without_network s.shown)

  -- a form that is stored under another pier
  store_config-reboot :
      (now : ℕ) (s : ConfigDesk Text)
      → config_eq (without_network s.shown) s.origin ≡ false
      → ((without_network s.shown).pier == s.origin.pier) ≡ false
      → let r = set_config lib enums cannot_open now (info_of s) s.context s.disk in
        let after : ConfigDesk Text = record s { context = r.context; disk = r.disk } in
        store_config lib enums cannot_open parent_path give now s ≡ elim r.result [
          | err e ↦ record { desk = after; result = err e }
          | ok done ↦
              give_all lib enums cannot_open parent_path give true
                (record after { origin = info_of s })
        ]
  unfolding store_config
  store_config-reboot now s changed other =
      let actual = without_network s.shown in
      let by : Bool → Bool → Configured Text = λ clean same.
        let saved = if not same then info_of s else actual in
        let r = set_config lib enums cannot_open now saved s.context s.disk in
        let after : ConfigDesk Text = record s { context = r.context; disk = r.disk } in
        if clean then record { desk = s; result = ok tt } else elim r.result [
          | err e ↦ record { desk = after; result = err e }
          | ok done ↦
              give_all lib enums cannot_open parent_path give (not same)
                (record after { origin = saved })
        ] in
      ap (λ clean. by clean (actual.pier == s.origin.pier)) changed
      ∙ ap (λ same. by false same) other

  -- the calls to the backend change nothing on disk
  give_all-keeps :
      (reboot : Bool) (s : ConfigDesk Text)
      → let r = give_all lib enums cannot_open parent_path give reboot s in
        (r.desk.context ≡ s.context) × (r.desk.disk ≡ s.disk)
  unfolding give_all
  give_all-keeps true s = elim (Result-cases (give unplug)) [
    | inl (e, f) ↦ rw f (refl, refl)
    | inr (done, f) ↦ rw f (refl, refl)
  ]
  give_all-keeps false s = (refl, refl)

  -- what it leaves
  store_config-moved :
      (now : ℕ) (s : ConfigDesk Text)
      → config_eq (without_network s.shown) s.origin ≡ false
      → ((without_network s.shown).pier == s.origin.pier) ≡ false
      → ((without_network s.shown).pier == s.context.config.pier) ≡ false
      → is_half lib enums cannot_open (dir_of (info_of s).repo (info_of s).pier s.disk) ≡ false
      → is_stale s.context.time s.disk.stamp ≡ false
      → let r = store_config lib enums cannot_open parent_path give now s in
        (r.desk.context.config ≡ info_of s)
        × (r.desk.disk.settings ≡ some (write (of_config lib enums (info_of s))))
  store_config-moved now s changed other_origin other half fresh =
      let set =
        set_config-moved lib enums cannot_open now (info_of s) s.context s.disk other half fresh in
      let r = set_config lib enums cannot_open now (info_of s) s.context s.disk in
      let kept =
        give_all-keeps true (record s { context = r.context; disk = r.disk; origin = info_of s }) in
      rw (store_config-reboot now s changed other_origin) (elim (Result-cases r.result) [
        | inl (e, q) ↦ rw q (set.0, set.2)
        | inr (done, q) ↦ rw q (rw (kept.0, kept.1) (set.0, set.2))
      ])

  -- the two ways of the handler
  on_settings-done :
      (now : ℕ) (blank shown : Config) (w : Shell Text)
      → let r = store_config lib enums cannot_open parent_path give now (config_desk shown w) in
        r.result ≡ ok tt
        → on_settings lib enums cannot_open parent_path give now blank (some shown) w ≡ (
          (let after = with_config_desk r.desk w in
              if shown.pier == w.label then after else populate_shell after),
          ok tt,
        )
  unfolding on_settings
  on_settings-done now blank shown w q = rw (q, on_settings) refl

  on_settings-told :
      (now : ℕ) (blank shown : Config) (w : Shell Text) (e : String) (c : Context)
      → let r = store_config lib enums cannot_open parent_path give now (config_desk shown w) in
        let after = with_config_desk r.desk w in
        r.result ≡ err e
        → open_context lib enums cannot_open blank r.desk.disk ≡ ok c
        → on_settings lib enums cannot_open parent_path give now blank (some shown) w ≡ (
          populate_shell (record after {
            frame = in_session c r.desk.disk (say ("Can't setup the settings. " <> e) after.frame);
          }),
          ok tt,
        )
  unfolding on_settings
  on_settings-told now blank shown w e c q o = rw (q, o, on_settings) refl

  -- Settings of another pier that the dialog leaves end on disk, and the window shows that pier,
  -- also when storing them throws, as it does when the backend refuses: then the window tells that
  -- the settings can not be set up, and why, but they are not taken back; otherwise it tells
  -- nothing. The settings differ from those of before, the identity is no half of another, the
  -- context is not outdated, the fields start without a network, and the context can be opened
  -- again; what is written of the settings is read back: the document and the two enumerations.
  pub on_settings-moves :
      (now : ℕ) (blank shown : Config) (w : Shell Text)
      → let s = config_desk shown w in
        let info = info_of s in
        let r = on_settings lib enums cannot_open parent_path give now blank (some shown) w in
        config_eq (without_network shown) w.origin ≡ false
        → ((without_network shown).pier == w.origin.pier) ≡ false
        → ((without_network shown).pier == s.context.config.pier) ≡ false
        → is_half lib enums cannot_open (dir_of info.repo info.pier s.disk) ≡ false
        → is_stale s.context.time s.disk.stamp ≡ false
        → blank.dht.network ≡ 0
        → (c : Context)
        → open_context lib enums cannot_open blank
            (store_config lib enums cannot_open parent_path give now s).desk.disk
          ≡ ok c
        → read (write (of_config lib enums info)) ≡ some (of_config lib enums info)
        → enums.to_severity? (lib.of_int info.log.level) ≡ some info.log.level
        → enums.to_checkup? (enums.of_checkup info.nat.test) ≡ some info.nat.test
        → info.nat.hops ≤ 255
        → info.dht.port ≤ 65535
        → (r.1 ≡ ok tt)
          × (r.0.label ≡ shown.pier)
          × (r.0.frame.session.context.config ≡ info)
          × (r.0.frame.session.disk.settings ≡ some (write (of_config lib enums info)))
          × (r.0.frame.messages
              ≡ elim (store_config lib enums cannot_open parent_path give now s).result [
                | err e ↦ w.frame.messages ++ ("Can't setup the settings. " <> e) ∷ []
                | ok _ ↦ w.frame.messages
              ])
  unfolding without_network
  on_settings-moves now blank shown w changed other_origin other half fresh zero c o written l t h
        p =
      let s = config_desk shown w in
      let m = store_config-moved now s changed other_origin other half fresh in
      let done = store_config lib enums cannot_open parent_path give now s in
      let opened =
        open-config lib enums cannot_open blank (info_of s) done.desk.disk c m.1 written l t h p
          o in
      let same : c.config ≡ info_of s =
        opened
        ∙ ap (λ n. record (info_of s) { dht = record (info_of s).dht { network = n } }) zero in
      elim (Result-cases done.result) [
        | inl (e, q) ↦
            rw (on_settings-told now blank shown w e c q o)
              (refl, ap (λ f. f.pier) same, same, m.1, rw q refl)
        | inr (u, q) ↦ elim (Bool-cases (shown.pier == w.label)) [
          | inl b ↦
              let named : w.label ≡ shown.pier = sym ((eq_iff shown.pier w.label).0 b) in
              rw (on_settings-done now blank shown w q, b) (refl, named, m.0, m.1, rw q refl)
          | inr b ↦
              rw (on_settings-done now blank shown w q, b)
                (refl, ap (λ f. f.pier) m.0, m.0, m.1, rw q refl)
        ]
      ]
