-- ===== src/Ui/Tests/Buttons.antt =====
-- The buttons at a window that lists the services to export, of a pier that exports `mail` and `web`.
use webpier.Base.{ℕ, true, false, some, List, [], ◌∷◌, ◌++◌, ◌≡◌, refl, ok}
use webpier.Ptree.Sample.{sample}
use webpier.Store.Types.{Service}
use webpier.Store.Tests.{disk, mail, enums}
use webpier.Backend.Tests.{web}
use webpier.Map.{find}
use webpier.Store.Context.{del_export_service, with_lock, save_pier_config, dir_of}
use webpier.Ui.Services.{Form, form_of, purge, drop_origin}
use webpier.Ui.Window.{Row, make_list_item}
use webpier.Ui.Upload.{Item}
use webpier.Ui.Buttons.{
  Frame, shown_items, row_of, created, find_item, change_item, erase_item, erase_row, on_add,
  on_edit, edit_item, on_delete,
}
use webpier.Ui.Buttons.Refused.{on_add-refused}
use webpier.Ui.Tests.Forms.{takes, crowded, mail_taken}
open sample use {Text}

abbrev items : List Item
items = record { key = 4; form = form_of mail } ∷ record { key = 6; form = form_of web } ∷ []

abbrev rows : List (ℕ × Row)
rows = (4, make_list_item "mars/amy" [] mail) ∷ (6, make_list_item "mars/amy" [] web) ∷ []

abbrev frame : Frame Text
frame = record {
  session = record {
    context = crowded;
    disk = disk;
    adjusted = [];
    exports = items;
    imports = [];
    now = 8;
  };
  exporting = true;
  status = [];
  rows = rows;
  selected = some 6;
  messages = [];
}

abbrev other_mail : Service
other_mail = record mail { address = "127.0.0.1:80" }

on_add-refused_example :
    let after = on_add sample enums "no file" takes 7 (some other_mail) frame in
    let form : Form = record (created sample enums true) { shown = other_mail } in
    let item : Item = record { key = 7; form = form } in
    (shown_items after ≡ items ++ (item ∷ []))
    × (after.rows ≡ rows ++ ((7, row_of other_mail frame) ∷ []))
    × (after.session.context ≡ crowded)
    × (after.session.disk ≡ disk)
    × (after.session.adjusted ≡ [])
    × (after.messages ≡ [])
on_add-refused_example =
    on_add-refused sample enums "no file" takes 7 other_mail mail frame refl mail_taken

-- the selected service is removed
removed :
    shown_items (on_delete sample enums "no file" takes true frame)
    ≡ record { key = 4; form = form_of mail } ∷ []
unfolding on_delete find_item erase_item erase_row purge drop_origin del_export_service find
    with_lock save_pier_config dir_of
removed = refl

-- a cancelled dialog leaves the form changed
cancelled :
    shown_items (
      (on_edit sample enums "no file" takes
        (λ d. ok crowded)
        false
        other_mail
        (record frame { selected = some 4 })).0)
    ≡ record { key = 4; form = record { shown = other_mail; origin = mail } }
      ∷ record { key = 6; form = form_of web }
      ∷ []
unfolding on_edit edit_item find_item change_item
cancelled = refl
