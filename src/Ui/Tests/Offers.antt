-- ===== src/Ui/Tests/Offers.antt =====
-- The theorems about the dialog of an offer: its one service is checked, and the dialog confirmed.
use webpier.Base.{
  String, ◌<>◌, Bool, true, false, some, List, [], ◌∷◌, ◌≡◌, refl, All, is_empty, map,
}
use webpier.Ptree.Sample.{sample}
use webpier.Store.Types.{Service}
use webpier.Store.Tests.{enums}
use webpier.Store.Context.Effects.{lookup}
use webpier.Backend.Tests.{words}
use webpier.Ui.Services.{has_pier, has, form_of}
use webpier.Ui.Upload.{Item, merge_items, offered_from}
use webpier.Ui.Exchange.{
  Dialog, upload_dialog, import_page_of, populate_import, export_page_of, populate_export,
  toggle_at, on_next, validate_data, choice_of, checked_items,
}
use webpier.Ui.Exchange.Moves.{Reach, opened, then_moved, checks, goes_on}
use webpier.Ui.Exchange.Complete.{AreEdited, Reach-complete}
use webpier.Ui.Exchange.Merged.{merge_items-keeps}
use webpier.Ui.Tests.Forms.{takes, bob_ssh, new_ssh, session, ssh_imported}

abbrev always : Service → Bool
always s = true

abbrev at_spaces : List String → String
at_spaces [] = ""
at_spaces (w ∷ []) = w
at_spaces (w ∷ ws) = w <> (" " <> at_spaces ws)

abbrev offered : List Item
offered = offered_from sample enums 0 (new_ssh ∷ [])

abbrev exported : List Item
exported =
    record {
      key = 3;
      form = form_of (record new_ssh { local = true; pier = "venus/bob earth/eve" });
    }
    ∷ record { key = 4; form = form_of (record new_ssh { local = true; pier = "earth/eve" }) }
    ∷ []

abbrev at_first : Dialog
at_first = upload_dialog (has_pier words at_spaces "venus/bob") offered exported

-- of the services to export, the one that has the pier is checked
checked_at_first :
    map (λ (item : Item). item.key) (checked_items at_first.export_page.lines) ≡ 3 ∷ []
unfolding upload_dialog export_page_of populate_export checked_items words has_pier has
checked_at_first = refl

abbrev with_check : Dialog
with_check = record at_first {
  import_page = record at_first.import_page { lines = toggle_at 0 at_first.import_page.lines };
}

abbrev confirmed : Dialog
confirmed = on_next (on_next with_check)

confirmed-Reach : Reach at_first confirmed
unfolding upload_dialog import_page_of populate_import toggle_at on_next validate_data offered_from
confirmed-Reach =
    then_moved (then_moved (then_moved opened refl (checks 0 refl refl)) refl (goes_on refl)) refl
      (goes_on refl)

Reach-complete_example :
    AreEdited offered confirmed.import_page.lines
    × ((choice_of confirmed).imports ≡ checked_items confirmed.import_page.lines)
    × All (λ (item : Item). is_empty item.form.shown.address ≡ false) (choice_of confirmed).imports
unfolding upload_dialog import_page_of populate_import toggle_at on_next validate_data offered_from
Reach-complete_example =
    Reach-complete words at_spaces "venus/bob" offered exported confirmed-Reach refl

merge_items-keeps_example :
    lookup "venus/bob" "ssh"
      (merge_items sample enums "no file" takes always
        (choice_of confirmed).imports
        session).context
    ≡ some bob_ssh
unfolding upload_dialog import_page_of populate_import toggle_at on_next validate_data offered_from
merge_items-keeps_example =
    merge_items-keeps sample enums "no file" takes always words at_spaces "venus/bob" (new_ssh ∷ [])
      exported "venus/bob" "ssh" bob_ssh session confirmed-Reach refl ssh_imported
