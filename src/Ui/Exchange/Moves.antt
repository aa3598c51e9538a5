-- ===== src/Ui/Exchange/Moves.antt =====
-- What can be clicked and typed in `CExchangeDialog` of src/ui/exchangedialog.cpp. A page that is hidden
-- takes no input.
use webpier.Base.{ℕ, String, Bool, true, false, some, ◌≡◌, not}
use webpier.Ui.Exchange.{
  Dialog, select_import, toggle_at, on_kill_focus, on_autostart, populate_export, on_back, on_next,
}

pub data Move (d e : Dialog) : Type 0 where
  selects :
      (i : ℕ)
      → d.at_exports ≡ false
      → e ≡ record d { import_page = select_import i d.import_page }
      → Move d e
  checks :
      (i : ℕ)
      → d.at_exports ≡ false
      → e ≡ record d {
        import_page = record d.import_page { lines = toggle_at i d.import_page.lines };
      }
      → Move d e
  types :
      (text : String)
      → d.at_exports ≡ false
      → e ≡ record d { import_page = on_kill_focus text d.import_page }
      → Move d e
  starts :
      (value : Bool)
      → d.at_exports ≡ false
      → e ≡ record d { import_page = on_autostart value d.import_page }
      → Move d e
  selects_export :
      (i : ℕ)
      → d.at_exports ≡ true
      → e ≡ record d { export_page = populate_export (some i) d.export_page }
      → Move d e
  checks_export :
      (i : ℕ)
      → d.at_exports ≡ true
      → e ≡ record d {
        export_page = record d.export_page { lines = toggle_at i d.export_page.lines };
      }
      → Move d e
  purges : d.at_exports ≡ false → e ≡ record d { purge = not d.purge } → Move d e
  replies : d.at_exports ≡ true → e ≡ record d { reply = not d.reply } → Move d e
  goes_back : d.can_go_back ≡ true → e ≡ on_back d → Move d e
  goes_on : e ≡ on_next d → Move d e

-- A dialog that is confirmed has ended.
pub data Reach (d : Dialog) : Dialog → Type 0 where
  opened : Reach d d
  then_moved : {e f : Dialog} → Reach d e → e.is_confirmed ≡ false → Move e f → Reach d f
