-- ===== src/Ui/Settings.antt =====
-- `ConfigImpl` of src/ui/context.cpp, and what confirming the dialog of src/ui/settingsdialog.cpp does to
-- what it edits. `to_uint` is `wxString::ToUInt`.
pub mod Confirmed
pub mod Menu
pub mod ServiceDialog
use Prim.Native.Char.{Char, code}
use webpier.Base.{
  ℕ, suc, ◌%◌, ◌^◌, pos, String, ◌<>◌, Bool, true, false, Option, none, some, List, [], ◌∷◌, ◌++◌,
  Result, ok, err, ◌==◌, ◌&&◌, ◌||◌, not, same, is_empty, if◌then◌else◌,
}
use webpier.Ptree.{PropertyTree}
use webpier.Store.Types.{Config, Service, Enums}
use webpier.Store.Context.{Disk, Context}
use webpier.Store.Context.Opening.{set_config}
use webpier.Store.Utils.{make_text_hash}
use webpier.Store.Autostart.{assign_autostart, revoke_autostart}
use webpier.Ui.Services.{bool_eq}
use webpier.Backend.Message.{Command, unplug, engage, adjust, int_eq}

-- `config::operator==`, with those of its parts
unfoldable pub config_eq : Config → Config → Bool
config_eq a b =
    (a.pier == b.pier)
    && (a.repo == b.repo)
    && (a.log.folder == b.log.folder)
    && int_eq a.log.level b.log.level
    && (a.nat.udp_stun == b.nat.udp_stun)
    && (a.nat.tcp_stun == b.nat.tcp_stun)
    && int_eq a.nat.test b.nat.test
    && same a.nat.hops b.nat.hops
    && (a.dht.bootstrap == b.dht.bootstrap)
    && same a.dht.port b.dht.port
    && same a.dht.network b.dht.network
    && (a.email.smtp == b.email.smtp)
    && (a.email.imap == b.email.imap)
    && (a.email.login == b.email.login)
    && (a.email.password == b.email.password)
    && (a.email.cert == b.email.cert)
    && (a.email.key == b.email.key)
    && (a.email.ca == b.email.ca)
    && (a.relay.server == b.relay.server)
    && (a.relay.cert == b.relay.cert)
    && (a.relay.key == b.relay.key)
    && (a.relay.ca == b.relay.ca)

-- The fields of the form, of which the network is none, and `m_origin`; what it works on, and the
-- commands that the backend was given.
pub record ConfigDesk (Text : Type 0) : Type 0 where
  pub shown : Config
  pub origin : Config
  pub context : Context
  pub disk : Disk Text
  pub commands : List Command

-- What `Store` leaves, also when it throws.
pub record Configured (Text : Type 0) : Type 0 where
  pub desk : ConfigDesk Text
  pub result : Result (Unit {0})

abbrev pub code_points : String → List ℕ
code_points String.[] = []
code_points (String.◌∷◌ c s) = code c ∷ code_points s

-- `actual`, which has the network of a `dhtnode{}`; the constructor's `Revert` is as well
unfoldable pub without_network : Config → Config
without_network c = record c { dht = record c.dht { network = 0 } }

-- `Revert`
abbrev pub revert_config : {Text : Type 0} → ConfigDesk Text → ConfigDesk Text
revert_config s = record s { shown = s.origin }

module _ (lib : PropertyTree) (enums : Enums) (cannot_open : String) (parent_path : String → String)
    (give : Command → Result (Unit {0})) where
  open lib use {Text}

  abbrev pub given : Command → ConfigDesk Text → Configured Text
  given command s = record {
    desk = record s { commands = s.commands ++ (command ∷ []) };
    result = give command;
  }

  -- the directory of another pier is beside that of this one
  abbrev pub moved : Config → Config → Config
  moved origin actual = record actual {
    repo = parent_path origin.repo <> "/" <> make_text_hash (code_points actual.pier);
  }

  -- the calls to the backend
  unfoldable pub give_all : Bool → ConfigDesk Text → Configured Text
  give_all reboot s =
      let first = given unplug s in
      if reboot
      then elim first.result [ err e ↦ first | ok done ↦ given engage first.desk ]
      else given adjust s

  -- `Store`
  unfoldable pub store_config : ℕ → ConfigDesk Text → Configured Text
  store_config now s =
      let actual = without_network s.shown in
      let reboot = not (actual.pier == s.origin.pier) in
      let saved = if reboot then moved s.origin actual else actual in
      let r = set_config lib enums cannot_open now saved s.context s.disk in
      let after = record s { context = r.context; disk = r.disk } in
      if config_eq actual s.origin then record { desk = s; result = ok tt } else elim r.result [
        | err e ↦ record { desk = after; result = err e }
        | ok done ↦ give_all reboot (record after { origin = saved })
      ]

-- the controls of `CSettingsDialog`
pub record Entered : Type 0 where
  pub owner : String
  pub pier : String
  pub udp_stun : String
  pub tcp_stun : String
  pub is_nat : Bool
  pub test_mode : ℕ
  pub hops : String
  pub dht_boot : String
  pub dht_port : String
  pub smtp : String
  pub imap : String
  pub login : String
  pub password : String
  pub cert : String
  pub key : String
  pub ca : String
  pub rico : String
  pub rico_cert : String
  pub rico_key : String
  pub rico_ca : String

-- the first test of `CSettingsDialog::onOkButtonClick`
unfoldable pub is_incomplete : Entered → Bool
is_incomplete e =
    is_empty e.owner
    || is_empty e.pier
    || (is_empty e.udp_stun && is_empty e.tcp_stun)
    || (is_empty e.dht_boot
        && (is_empty e.smtp || is_empty e.imap || is_empty e.login || is_empty e.password))

-- a number that `ToUInt` sets, or leaves
abbrev pub or_before : Option ℕ → ℕ → ℕ
or_before none before = before
or_before (some n) before = n

module _ (to_uint : String → Option ℕ) where
  -- the assignments at its end
  unfoldable pub take_entered : Entered → Config → Config
  take_entered e c = record c {
    pier = e.owner <> "/" <> e.pier;
    nat = record {
      udp_stun = e.udp_stun;
      tcp_stun = e.tcp_stun;
      test = if e.is_nat then pos (suc e.test_mode) else pos 0;
      hops = or_before (to_uint e.hops) c.nat.hops % 2 ^ 8;
    };
    dht = record c.dht {
      bootstrap = e.dht_boot;
      port = or_before (to_uint e.dht_port) c.dht.port % 2 ^ 16;
    };
    email = record {
      smtp = e.smtp;
      imap = e.imap;
      login = e.login;
      password = e.password;
      cert = e.cert;
      key = e.key;
      ca = e.ca;
    };
    relay = record { server = e.rico; cert = e.rico_cert; key = e.rico_key; ca = e.rico_ca };
  }

  -- `CSettingsDialog::onOkButtonClick`: the settings, if the dialog ends. Another identity is to be
  -- confirmed.
  unfoldable pub confirm_settings : Bool → Entered → Config → Option Config
  confirm_settings confirmed e c =
      let pier = e.owner <> "/" <> e.pier in
      if is_incomplete e
      then none
      else if not (is_empty c.pier) && not (pier == c.pier) && not confirmed
      then none
      else some (take_entered e c)

-- What it does to the start with the system before it takes the settings.
unfoldable pub change_daemon :
    (String → String → String → Bool)
    → String
    → String
    → (daemon wanted : Bool) → List String
    → List String
change_daemon matches exec home daemon wanted table =
    if bool_eq daemon wanted
    then table
    else if daemon
    then revoke_autostart matches exec home table
    else assign_autostart matches exec home table
