-- ===== src/Ui/Tests/Starts.antt =====
-- The theorem about starting the user interface: the first start is given an identity, the second is not.
use webpier.Base.{true, false, none, some, [], ◌≡◌, refl, ok, arith}
use webpier.Ptree.Sample
use webpier.Ptree.Sample.{sample}
use webpier.Store.Types.{Config}
use webpier.Map.{find}
use webpier.Store.Context.{Disk, Context, dir_of}
use webpier.Store.Context.Opening.{open_context}
use webpier.Store.Tests.{enums}
use webpier.Backend.Tests.{config}
use webpier.Ui.Startup.{World, first_config, init}
use webpier.Ui.Startup.Again.{started, init-again}
open sample use {Text}

abbrev no_config : Config
no_config = record config { pier = ""; repo = "" }

abbrev first_world : World
first_world = record {
  is_module = true;
  has_home = false;
  makes_home = true;
  identity = some "mars/amy";
  starts = ok true;
}

abbrev second_world : World
second_world = record first_world { has_home = true; identity = none }

abbrev empty_disk : Disk Text
empty_disk = record { stamp = 0; settings = none; repos = [] }

init-again_example :
    let d1 = (init sample enums "no file" 5 "/home/amy" no_config first_world empty_disk).1 in
    (init sample enums "no file" 9 "/home/amy" no_config second_world d1
      ≡ (started sample enums "no file" no_config second_world d1, d1))
    × ((c : Context)
        → open_context sample enums "no file" no_config d1 ≡ ok c
        → c.config ≡ first_config "/home/amy" (some "mars/amy") no_config)
unfolding Sample.number Sample.bits first_config dir_of find
init-again_example =
    init-again sample enums "no file" 5 9 "/home/amy" "mars/amy" no_config first_world second_world
      empty_disk refl refl refl refl refl refl refl refl refl (omega arith) (omega arith) refl
