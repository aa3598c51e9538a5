-- ===== src/Ui/Tests/Dialogs.antt =====
-- The theorem about the settings at a form in which the hops are 300.
use webpier.Base.{
  ℕ, String, true, false, Option, none, some, [], ◌∷◌, ◌≡◌, refl, Result, ok, ◌==◌, if◌then◌else◌,
}
use webpier.Ptree.Sample
use webpier.Ptree.Sample.{sample, of_int, to_int?}
use webpier.Store.Types.{Config}
use webpier.Store.Settings.{of_config}
use webpier.Store.Tests.{context, disk, enums}
use webpier.Backend.Message.{Command, adjust}
use webpier.Backend.Loading.{load_settings}
use webpier.Backend.Tests.{config}
use webpier.Ui.Settings.{
  ConfigDesk, Entered, config_eq, without_network, take_entered, confirm_settings, store_config,
  is_incomplete,
}
use webpier.Ui.Settings.Confirmed.{store_config-served}
open sample use {Text, read, write}

abbrev to_uint : String → Option ℕ
to_uint text = if text == "300" then some 300 else none

abbrev entered : Entered
entered = record {
  owner = "mars";
  pier = "amy";
  udp_stun = "stun.example.org";
  tcp_stun = "";
  is_nat = true;
  test_mode = 1;
  hops = "300";
  dht_boot = "dht.example.org:4222";
  dht_port = "many";
  smtp = "";
  imap = "";
  login = "";
  password = "";
  cert = "";
  key = "";
  ca = "";
  rico = "";
  rico_cert = "";
  rico_key = "";
  rico_ca = "";
}

abbrev desk : ConfigDesk Text
desk = record { shown = config; origin = config; context = context; disk = disk; commands = [] }

abbrev shown : Config
shown = take_entered to_uint entered config

confirmed : confirm_settings to_uint false entered config ≡ some shown
unfolding confirm_settings is_incomplete
confirmed = refl

same_pier : (shown.pier == "mars/amy") ≡ true
unfolding take_entered
same_pier = refl

changed : config_eq (without_network shown) config ≡ false
unfolding config_eq without_network take_entered
changed = refl

written :
    read (write (of_config sample enums (without_network shown)))
    ≡ some (of_config sample enums (without_network shown))
written = refl

level : to_int? (of_int shown.log.level) ≡ some shown.log.level
unfolding take_entered Sample.number Sample.bits
level = refl

test : to_int? (of_int shown.nat.test) ≡ some shown.nat.test
unfolding take_entered Sample.number Sample.bits
test = refl

abbrev keep : String → String
keep path = path

abbrev obeys : Command → Result (Unit {0})
obeys command = ok tt

store_config-served_example :
    let r = store_config sample enums "no file" keep obeys 8 (record desk { shown = shown }) in
    (r.result ≡ ok tt)
    × (load_settings sample enums "no file" r.desk.disk ≡ ok (without_network shown))
    × (r.desk.commands ≡ adjust ∷ [])
    × (r.desk.origin ≡ without_network shown)
store_config-served_example =
    store_config-served sample enums "no file" keep obeys to_uint false entered 8 shown desk
      confirmed same_pier same_pier changed refl (λ c. refl) written level test
