-- ===== src/Store/Tests.antt =====
-- A context of two piers with its disk, for the theorems about the store.
pub mod Changes
pub mod Loading
pub mod Histories
pub mod Texts
use webpier.Base.{List, pos, String, true, none, some, [], ◌∷◌}
use webpier.Ptree.Sample.{sample, of_int, to_int?}
use webpier.Store.Types.{Service, Enums}
use webpier.Store.Services.{of_services}
use webpier.Store.Context.{PierDir, Disk, Context}
use webpier.Backend.Tests.{config, web}
open sample use {Text, write}

abbrev pub enums : Enums
enums = record {
  info = pos 2;
  strict = pos 1;
  any = pos 2;
  udp = pos 0;
  either = pos 2;
  server = pos 0;
  client = pos 1;
  direct = pos 0;
  of_checkup = of_int;
  to_checkup? = to_int?;
  to_severity? = to_int?;
}

-- the own pier exports `web`, and there is a remote one
abbrev pub context : Context
context = record {
  config = config;
  bundle = ("mars/amy", ("web", web) ∷ []) ∷ ("venus/bob", []) ∷ [];
  time = 0;
}

abbrev pub saved_dir : PierDir Text
saved_dir = record {
  cert = true;
  key = true;
  file = some (write (of_services sample enums (("web", web) ∷ [])));
}

abbrev pub disk : Disk Text
disk = record {
  stamp = 7;
  settings = none;
  repos = ("/home/amy", ("mars/amy", saved_dir) ∷ []) ∷ [];
}

abbrev pub mail : Service
mail = record web { name = "mail" }
