-- ===== src/Store/Tests/Changes.antt =====
-- The theorems about the calls that change a context.
use mathlib.Core.Path.{subst}
use webpier.Base.{String, false, none, some, [], ◌∷◌, ◌≡◌, refl, ok, err}
use webpier.Ptree.Sample.{sample}
use webpier.Map.{string_key, find, emplace, contains}
use webpier.Store.Services.{of_services}
use webpier.Store.Context.{
  Context, services_of, dir_of, add_export_service, del_export_service, add_import_service,
  del_import_service, add_pier,
}
use webpier.Store.Context.Saving.{IsInStep, changes-IsInStep}
use webpier.Store.Context.Faults.{
  add_export_service-stale, add_export_service-unwritten, add_pier-refused,
}
use webpier.Backend.Tests.{web}
use webpier.Store.Tests.{enums, context, saved_dir, disk, mail}
open sample use {Text, write}

own_services : find "mars/amy" context.bundle ≡ some (("web", web) ∷ [])
unfolding find
own_services = refl

no_mail : contains {K = String} "mail" (("web", web) ∷ []) ≡ false
unfolding find
no_mail = refl

own_dir : dir_of "/home/amy" "mars/amy" disk ≡ some saved_dir
unfolding dir_of find
own_dir = refl

no_dir : dir_of "/home/amy" "earth/eve" disk ≡ none
unfolding dir_of find
no_dir = refl

in_step : IsInStep sample enums "no file" "mars/amy" context disk
unfolding find
in_step m e =
    let same_services : ("web", web) ∷ [] ≡ m = cc in
    rw own_dir (
      subst
        (λ v.
          some (of_services sample enums (("web", web) ∷ [])) ≡ some (of_services sample enums v))
        same_services refl)

changes-IsInStep_example :
    (let r = add_export_service sample enums "no file" 8 mail context disk in
      r.result ≡ ok tt → IsInStep sample enums "no file" "mars/amy" r.context r.disk)
    × (let r = del_export_service sample enums "no file" 8 "web" context disk in
        r.result ≡ ok tt → IsInStep sample enums "no file" "mars/amy" r.context r.disk)
    × (let r = add_import_service sample enums "no file" 8 mail context disk in
        r.result ≡ ok tt → IsInStep sample enums "no file" "mars/amy" r.context r.disk)
    × (let r = del_import_service sample enums "no file" 8 "mars/amy" "web" context disk in
        r.result ≡ ok tt → IsInStep sample enums "no file" "mars/amy" r.context r.disk)
changes-IsInStep_example =
    changes-IsInStep sample enums "no file" 8 mail "mars/amy" "web" "mars/amy" context disk in_step

-- the context after it has written at time 5, when the disk has been written at time 7
abbrev outdated : Context
outdated = record context { time = 5 }

add_export_service-stale_example :
    let r = add_export_service sample enums "no file" 8 mail outdated disk in
    (r.result ≡ err "The context is outdated")
    × (r.disk ≡ disk)
    × (find "mail" (services_of "mars/amy" r.context) ≡ some mail)
    × ((add_export_service sample enums "no file" 9 mail r.context disk).result
        ≡ err "Such service already exists")
add_export_service-stale_example =
    add_export_service-stale sample enums "no file" 8 9 mail outdated disk disk (("web", web) ∷ [])
      refl own_services no_mail refl

add_export_service-unwritten_example :
    let r = add_export_service sample enums "no file" 8 mail context disk in
    (r.result ≡ ok tt)
    × (dir_of "/home/amy" "mars/amy" r.disk
        ≡ some (record saved_dir {
          file = some (write (of_services sample enums (emplace "mail" mail (("web", web) ∷ []))));
        }))
add_export_service-unwritten_example =
    add_export_service-unwritten sample enums "no file" 8 mail context disk (("web", web) ∷ [])
      saved_dir refl refl own_services no_mail own_dir

add_pier-refused_example :
    let r = add_pier sample enums "no file" 8 "earth/eve" (some "bad end line") context disk in
    (r.result ≡ err "bad end line")
    × ((add_pier sample enums "no file" 9 "earth/eve" none r.context r.disk).result
        ≡ err "The pier already exists")
add_pier-refused_example =
    add_pier-refused sample enums "no file" 8 9 "earth/eve" "bad end line" context disk refl no_dir
