-- ===== src/Ui/Settings/Confirmed.antt =====
-- Settings on their way from the dialog of src/ui/settingsdialog.cpp to the backend.
use webpier.Base.{
  ℕ, ◌≤◌, String, Bool, true, false, Option, none, some, [], ◌∷◌, ◌++◌, ◌≡◌, refl, arith, Result,
  ok, ◌==◌, not, if◌then◌else◌, ◌<>◌, ◌&&◌, is_empty,
}
use webpier.Ptree.{PropertyTree}
use webpier.Store.Types.{Config, Enums}
use webpier.Store.Settings.{of_config}
use webpier.Store.Settings.Agreement.{to_config-of_config}
use webpier.Store.Context.{Disk, Context, is_stale, with_lock, save_config}
use webpier.Store.Context.Opening.{set_config}
use webpier.Backend.Message.{Command, adjust}
use webpier.Backend.Loading.{load_settings, no_network}
use webpier.Ui.Settings.{
  ConfigDesk, config_eq, without_network, store_config, give_all, Entered, take_entered,
  confirm_settings, is_incomplete,
}

module _ (lib : PropertyTree) (enums : Enums) (cannot_open : String) where
  open lib use {Text, write, read, read-write}

  -- what `set_config` leaves when the pier stays
  set_config-same :
      (now : ℕ) (info : Config) (c : Context) (d : Disk Text)
      → (info.pier == c.config.pier) ≡ true
      → is_stale c.time d.stamp ≡ false
      → set_config lib enums cannot_open now info c d ≡ record {
        context = record c { config = info; time = now };
        disk = record d { settings = some (write (of_config lib enums info)); stamp = now };
        result = ok tt;
      }
  unfolding set_config with_lock save_config
  set_config-same now info c d p f = rw (p, f) refl

  -- what the backend reads then
  load-saved :
      (info : Config) (d : Disk Text)
      → d.settings ≡ some (write (of_config lib enums info))
      → read (write (of_config lib enums info)) ≡ some (of_config lib enums info)
      → enums.to_severity? (lib.of_int info.log.level) ≡ some info.log.level
      → enums.to_checkup? (enums.of_checkup info.nat.test) ≡ some info.nat.test
      → info.nat.hops ≤ 255
      → info.dht.port ≤ 65535
      → load_settings lib enums cannot_open d ≡ ok (without_network info)
  unfolding load_settings without_network
  load-saved info d e w l t h p =
      rw (e, w) (to_config-of_config lib enums "" no_network info l t h p)

accepted :
    (b c : Bool) (x y : Config) → (if b then none else if c then none else some x) ≡ some y → y ≡ x
accepted true c x y h = cc
accepted false true x y h = cc
accepted false false x y h = cc

module _ (to_uint : String → Option ℕ) (confirmed : Bool) (e : Entered) (c shown : Config) where
  confirmed-eq :
      confirm_settings to_uint confirmed e c ≡ some shown → shown ≡ take_entered to_uint e c
  unfolding confirm_settings
  confirmed-eq h =
      let pier = e.owner <> "/" <> e.pier in
      accepted (is_incomplete e) (not (is_empty c.pier) && not (pier == c.pier) && not confirmed)
        (take_entered to_uint e c) shown h

  -- the casts of the dialog
  confirmed-fits :
      confirm_settings to_uint confirmed e c ≡ some shown
      → (shown.nat.hops ≤ 255) × (shown.dht.port ≤ 65535)
  unfolding take_entered
  confirmed-fits h = rw (confirmed-eq h) (omega arith, omega arith)

module _ (lib : PropertyTree) (enums : Enums) (cannot_open : String) (parent_path : String → String)
    (give : Command → Result (Unit {0})) where
  open lib use {Text, write, read}

  -- `Store` of other settings of the same pier
  store_config-same :
      (now : ℕ) (s : ConfigDesk Text)
      → let actual = without_network s.shown in
        (actual.pier == s.origin.pier) ≡ true
        → (actual.pier == s.context.config.pier) ≡ true
        → config_eq actual s.origin ≡ false
        → is_stale s.context.time s.disk.stamp ≡ false
        → give adjust ≡ ok tt
        → store_config lib enums cannot_open parent_path give now s ≡ record {
          desk = record s {
            origin = actual;
            context = record s.context { config = actual; time = now };
            disk = record s.disk {
              settings = some (write (of_config lib enums actual));
              stamp = now;
            };
            commands = s.commands ++ (adjust ∷ []);
          };
          result = ok tt;
        }
  unfolding store_config give_all
  store_config-same now s same_origin same_pier changed fresh takes =
      let set =
        set_config-same lib enums cannot_open now (without_network s.shown) s.context s.disk
          same_pier fresh in
      simp (changed, same_origin, set, takes)

  -- what the fields are without the network
  without_network-same :
      (c : Config)
      → ((without_network c).pier ≡ c.pier)
        × (without_network (without_network c) ≡ without_network c)
        × ((without_network c).log ≡ c.log)
        × ((without_network c).nat ≡ c.nat)
        × ((without_network c).dht.port ≡ c.dht.port)
  unfolding without_network
  without_network-same c = (refl, refl, refl, refl, refl)

  -- Settings that the dialog of the settings accepts and that are stored under the same pier are what
  -- the backend loads, whatever was entered for the hops and the port; it is told to adjust, and the
  -- form is clean. The settings differ from those of before, the context is not outdated, the backend
  -- does not refuse, and what is written of the settings is read back: the document and the two
  -- enumerations.
  pub store_config-served :
      (to_uint : String → Option ℕ) (confirmed : Bool) (e : Entered) (now : ℕ) (shown : Config)
      (s : ConfigDesk Text)
      → confirm_settings to_uint confirmed e s.shown ≡ some shown
      → (shown.pier == s.origin.pier) ≡ true
      → (shown.pier == s.context.config.pier) ≡ true
      → config_eq (without_network shown) s.origin ≡ false
      → is_stale s.context.time s.disk.stamp ≡ false
      → ((c : Command) → give c ≡ ok tt)
      → read (write (of_config lib enums (without_network shown)))
        ≡ some (of_config lib enums (without_network shown))
      → enums.to_severity? (lib.of_int shown.log.level) ≡ some shown.log.level
      → enums.to_checkup? (enums.of_checkup shown.nat.test) ≡ some shown.nat.test
      → let r =
          store_config lib enums cannot_open parent_path give now (record s { shown = shown }) in
        (r.result ≡ ok tt)
        × (load_settings lib enums cannot_open r.desk.disk ≡ ok (without_network shown))
        × (r.desk.commands ≡ s.commands ++ (adjust ∷ []))
        × (r.desk.origin ≡ without_network shown)
  store_config-served to_uint confirmed e now shown s h same_origin same_pier changed fresh takes w
        l t =
      let actual = without_network shown in
      let same = without_network-same shown in
      let fits = confirmed-fits to_uint confirmed e s.shown shown h in
      let stored =
        store_config-same now (record s { shown = shown }) (rw same.0 same_origin)
          (rw same.0 same_pier) changed fresh (takes adjust) in
      let saved =
        load-saved lib enums cannot_open actual
          (record s.disk { settings = some (write (of_config lib enums actual)); stamp = now }) refl
          w (rw same.2 l) (rw same.3 t) (rw same.3 fits.0) (rw same.4 fits.1) in
      rw stored (refl, rw same.1 at saved, refl, refl)
