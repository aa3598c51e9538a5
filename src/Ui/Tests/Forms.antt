-- ===== src/Ui/Tests/Forms.antt =====
-- The theorems about the forms of services at a pier that exports one service.
use webpier.Base.{
  String, true, false, none, some, [], ◌∷◌, ◌≡◌, refl, Result, ok, err, ◌==◌, ◌&&◌, if◌then◌else◌,
}
use webpier.Ptree.Sample.{sample}
use webpier.Map.{string_key, find}
use webpier.Store.Context.{Context, dir_of}
use webpier.Store.Context.Saving.{IsInStep}
use webpier.Store.Context.Effects.{lookup, can_save}
use webpier.Store.Tests.{context, disk, mail, enums}
use webpier.Store.Types.{Service}
use webpier.Backend.Message.{Handle}
use webpier.Backend.Tests.{web, ssh}
use webpier.Ui.Upload.{Session}
use webpier.Ui.Services.{Desk, is_dirty, form_of, store}
use webpier.Ui.Services.Stored.{is_free, store-saves}
use webpier.Ui.Services.Losing.{store-loses}
use webpier.Ui.Services.Untold.{store-untold}
open sample use {Text}

abbrev pub takes : Handle → Result (Unit {0})
takes h = ok tt

abbrev refuses : Handle → Result (Unit {0})
refuses h = err "no backend"

-- `web`, renamed to `mail`
abbrev renamed : Desk Text
renamed = record {
  form = record { shown = mail; origin = web };
  context = context;
  disk = disk;
  adjusted = [];
}

web-can_save : can_save "mars/amy" context disk ≡ true
unfolding can_save find dir_of
web-can_save = refl

renamed_dirty : is_dirty renamed.form ≡ true
unfolding is_dirty
renamed_dirty = refl

mail_free : lookup "mars/amy" "mail" context ≡ none
unfolding find
mail_free = refl

mail_is_free : is_free renamed.form context ≡ true
unfolding find
mail_is_free = refl

bob-IsInStep : IsInStep sample enums "no file" "venus/bob" context disk
unfolding find dir_of
bob-IsInStep m e = cc

store-saves_example :
    let after = store sample enums "no file" takes 8 9 renamed in
    (after.form ≡ form_of mail)
    × (is_dirty after.form ≡ false)
    × ((q k : String)
        → lookup q k after.context ≡ (
            if ("mars/amy" == q) && ("mail" == k)
            then some mail
            else if true && ("mars/amy" == q) && ("web" == k)
            then none
            else lookup q k context))
    × IsInStep sample enums "no file" "venus/bob" after.context after.disk
    × (after.adjusted
        ≡ record { pier = "mars/amy"; service = "web" }
          ∷ record { pier = "mars/amy"; service = "mail" }
          ∷ [])
store-saves_example =
    store-saves sample enums "no file" takes 8 9 "venus/bob" renamed (λ h. refl) renamed_dirty
      web-can_save web-can_save mail_is_free bob-IsInStep

store-untold_example :
    let after = store sample enums "no file" refuses 8 9 renamed in
    let moved = record mail { address = "127.0.0.1:80" } in
    let edited = record after { form = record after.form { shown = moved } } in
    (lookup "mars/amy" "mail" after.context ≡ some mail)
    × (after.form ≡ record { shown = mail; origin = web })
    × IsInStep sample enums "no file" "venus/bob" after.context after.disk
    × (store sample enums "no file" takes 10 11 edited ≡ edited)
store-untold_example =
    store-untold sample enums "no file" refuses takes 8 9 10 11 "no backend"
      (record mail { address = "127.0.0.1:80" }) "venus/bob" renamed (λ h. refl) refl refl
      web-can_save web-can_save mail_free refl refl refl bob-IsInStep

-- the pier exports both
abbrev pub crowded : Context
crowded = record context {
  bundle = ("mars/amy", ("mail", mail) ∷ ("web", web) ∷ []) ∷ ("venus/bob", []) ∷ [];
}

abbrev onto_mail : Desk Text
onto_mail = record renamed { context = crowded }

crowded-can_save : can_save "mars/amy" crowded disk ≡ true
unfolding can_save find dir_of
crowded-can_save = refl

pub mail_taken : lookup "mars/amy" "mail" crowded ≡ some mail
unfolding find
mail_taken = refl

crowded-IsInStep : IsInStep sample enums "no file" "venus/bob" crowded disk
unfolding find dir_of
crowded-IsInStep m e = cc

store-loses_example :
    let after = store sample enums "no file" takes 8 9 onto_mail in
    (after.form ≡ onto_mail.form)
    × (after.adjusted ≡ [])
    × (lookup "mars/amy" "web" after.context ≡ none)
    × (lookup "mars/amy" "mail" after.context ≡ some mail)
    × IsInStep sample enums "no file" "venus/bob" after.context after.disk
store-loses_example =
    store-loses sample enums "no file" takes 8 9 mail "venus/bob" onto_mail refl crowded-can_save
      refl mail_taken crowded-IsInStep

-- `ssh` is imported from `venus/bob`, and an offer has another one
abbrev pub bob_ssh : Service
bob_ssh = record ssh { pier = "venus/bob" }

abbrev pub new_ssh : Service
new_ssh = record bob_ssh { rendezvous = "dht.example.org"; obscure = true }

abbrev pub session : Session Text
session = record {
  context = record context {
    bundle = ("mars/amy", []) ∷ ("venus/bob", ("ssh", bob_ssh) ∷ []) ∷ [];
  };
  disk = disk;
  adjusted = [];
  exports = [];
  imports = record { key = 7; form = form_of bob_ssh } ∷ [];
  now = 8;
}

pub ssh_imported : lookup "venus/bob" "ssh" session.context ≡ some bob_ssh
unfolding find
ssh_imported = refl
