-- ===== src/Store/Tests/Loading.antt =====
-- The theorems about loading what was saved.
use webpier.Base.{some, [], ◌∷◌, ◌≡◌, refl, All, ok, arith}
use webpier.Ptree.Sample
use webpier.Ptree.Sample.{sample, of_int, to_int?}
use webpier.Map.{string_key, find}
use webpier.Store.Settings.{of_config, to_config_with}
use webpier.Store.Settings.Agreement.{to_config-of_config}
use webpier.Store.Services.Agreement.{IsEntry}
use webpier.Store.Context.{Disk, dir_of}
use webpier.Store.Context.Saving.{IsSaved}
use webpier.Backend.Engine.{load_one}
use webpier.Backend.Loading.{no_network, load_settings, home_of}
use webpier.Backend.Loading.Served.{chosen, load_one-home_of}
use webpier.Backend.Tests.{config, web}
use webpier.Store.Tests.{enums, disk}
open sample use {Text, write}

to_config-of_config_example :
    to_config_with sample enums "" config (of_config sample enums config)
    ≡ ok (record config { dht = record config.dht { network = 0 } })
unfolding Sample.number Sample.bits
to_config-of_config_example =
    to_config-of_config sample enums "" config config refl refl (omega arith) (omega arith)

web-IsEntry : All IsEntry (("web", web) ∷ [])
web-IsEntry = ((refl, refl, refl, refl), tt)

abbrev saved_disk : Disk Text
saved_disk = record disk { settings = some (write (of_config sample enums config)) }

settings_load :
    load_settings sample enums "no file" saved_disk
    ≡ ok (record config { dht = record config.dht { network = 0 } })
unfolding load_settings Sample.number Sample.bits
settings_load =
    to_config-of_config sample enums "" no_network config refl refl (omega arith) (omega arith)

web-IsSaved :
    IsSaved sample enums "no file" (("web", web) ∷ []) (dir_of "/home/amy" "mars/amy" saved_disk)
unfolding find dir_of
web-IsSaved = refl

load_one-home_of_example :
    load_one
      (home_of sample enums "no file" (ok tt) saved_disk)
      (record { pier = "mars/amy"; service = "web" })
    ≡ ok (
      record config { dht = record config.dht { network = 0 } },
      chosen sample enums "no file" "web" (("web", web) ∷ []),
    )
load_one-home_of_example =
    load_one-home_of sample enums "no file" (record { pier = "mars/amy"; service = "web" })
      saved_disk (("web", web) ∷ []) (record config { dht = record config.dht { network = 0 } })
      settings_load web-IsEntry web-IsSaved
