-- ===== src/Ui/Tests/Menus.antt =====
-- The theorem about the menu of the settings, when the identity becomes another and the backend is away.
use webpier.Base.{
  String, ◌<>◌, true, none, some, [], ◌∷◌, ◌≡◌, refl, arith, Result, ok, err, false, ◌==◌,
}
use webpier.Ptree.Sample
use webpier.Ptree.Sample.{sample, of_int, to_int?}
use webpier.Map.{find, insert, update, emplace}
use webpier.Store.Types.{Config}
use webpier.Store.Settings.{of_config, config_fields, to_config_with}
use webpier.Store.Services.{emplace_all, load_services, to_service}
use webpier.Store.Utils.{make_text_hash, hexify, hex, fnv}
use webpier.Store.Context.{Context, dir_of, with_lock, save_config, set_dirs}
use webpier.Store.Context.Opening.{
  open_context, load_config, set_config, enter, load_piers, load_pier_config,
}
use webpier.Store.Context.Switching.{is_half}
use webpier.Store.Tests.{context, disk, enums}
use webpier.Backend.Message.{Command}
use webpier.Backend.Tests.{config}
use webpier.Ui.Settings.{config_eq, without_network, store_config, give_all}
use webpier.Ui.Settings.Menu.{Shell, config_desk, on_settings}
use webpier.Ui.Settings.Menu.Moved.{info_of, on_settings-moves}
open sample use {Text, read, write}

abbrev shell : Shell Text
shell = record {
  frame = record {
    session = record {
      context = context;
      disk = disk;
      adjusted = [];
      exports = [];
      imports = [];
      now = 8;
    };
    exporting = true;
    status = [];
    rows = [];
    selected = none;
    messages = [];
  };
  shown = config;
  origin = config;
  label = "mars/amy";
  commands = [];
}

abbrev entered : Config
entered = record config { pier = "mars/eve" }

abbrev no_network : Config
no_network = record config { dht = record config.dht { network = 0 } }

abbrev up : String → String
up path = "/home"

abbrev is_away : Command → Result (Unit {0})
is_away command = err "No backend"

abbrev moved_config : Config
moved_config = info_of sample enums "no file" up is_away (config_desk entered shell)

changed : config_eq (without_network entered) config ≡ false
unfolding config_eq without_network
changed = refl

other_pier : ((without_network entered).pier == "mars/amy") ≡ false
unfolding without_network
other_pier = refl

abbrev reopened : Context
reopened = record { config = moved_config; bundle = ("mars/eve", []) ∷ []; time = 0 }

reopens :
    open_context sample enums "no file" no_network
      (store_config sample enums "no file" up is_away 9 (config_desk entered shell)).desk.disk
    ≡ ok reopened
unfolding open_context load_config store_config config_eq without_network set_config dir_of find
    make_text_hash hexify hex fnv with_lock enter load_piers save_config set_dirs update emplace
    insert load_pier_config emplace_all load_services to_service config_fields of_config
    to_config_with give_all Sample.number Sample.bits
reopens = refl

not_half : is_half sample enums "no file" (dir_of moved_config.repo "mars/eve" disk) ≡ false
unfolding dir_of find make_text_hash hexify hex fnv without_network
not_half = refl

written :
    read (write (of_config sample enums moved_config)) ≡ some (of_config sample enums moved_config)
written = refl

level : to_int? (of_int moved_config.log.level) ≡ some moved_config.log.level
unfolding Sample.number Sample.bits without_network
level = refl

test : to_int? (of_int moved_config.nat.test) ≡ some moved_config.nat.test
unfolding Sample.number Sample.bits without_network
test = refl

on_settings-moves_example :
    let r = on_settings sample enums "no file" up is_away 9 no_network (some entered) shell in
    (r.1 ≡ ok tt)
    × (r.0.label ≡ "mars/eve")
    × (r.0.frame.session.context.config ≡ moved_config)
    × (r.0.frame.session.disk.settings ≡ some (write (of_config sample enums moved_config)))
    × (r.0.frame.messages
        ≡ elim (store_config sample enums "no file" up is_away 9
            (config_desk entered shell)).result [
              | err e ↦ ("Can't setup the settings. " <> e) ∷ []
              | ok _ ↦ []
            ])
unfolding without_network
on_settings-moves_example =
    on_settings-moves sample enums "no file" up is_away 9 no_network entered shell changed
      other_pier other_pier not_half refl refl reopened reopens written level test (omega arith)
      (omega arith)
