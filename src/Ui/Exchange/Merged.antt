-- ===== src/Ui/Exchange/Merged.antt =====
-- What merging leaves, after `CExchangeDialog` was confirmed (src/ui/exchangedialog.cpp, src/ui/mainframe.cpp).
use webpier.Base.{String, Bool, true, some, List, [], ◌∷◌, ◌≡◌, inl, inr, Result, Bool-cases}
use webpier.Ptree.{PropertyTree}
use webpier.Store.Types.{Service, Enums}
use webpier.Store.Context.Effects.{lookup}
use webpier.Backend.Message.{Handle}
use webpier.Ui.Services.{has_pier}
use webpier.Ui.Upload.{Item, Session, merge_items, offered_from}
use webpier.Ui.Upload.Merging.{IsOffered, offered_from-IsOffered, merge_items-lookup}
use webpier.Ui.Exchange.{Line, Dialog, checked_items, upload_dialog, choice_of}
use webpier.Ui.Exchange.Moves.{Reach}
use webpier.Ui.Exchange.Complete.{AreEdited, Reach-complete}

checked_items-IsOffered :
    (os : List Item) (lines : List Line)
    → AreEdited os lines
    → IsOffered os
    → IsOffered (checked_items lines)
unfolding checked_items
checked_items-IsOffered [] [] h o = tt
checked_items-IsOffered [] (line ∷ lines) h o = absurd h
checked_items-IsOffered (x ∷ os) [] h o = absurd h
checked_items-IsOffered (x ∷ os) (line ∷ lines) h o = elim (Bool-cases line.is_checked) [
  | inl c ↦ rw c (rw h.0.1 o.0, checked_items-IsOffered os lines h.1 o.1)
  | inr c ↦ rw c (checked_items-IsOffered os lines h.1 o.1)
]

-- Merging the services of an offer replaces none: however the dialog of the offer was used until it was
-- confirmed, whatever the questions are answered, and whatever the backend answers, a service that
-- the context has is found as it was.
pub merge_items-keeps :
    (lib : PropertyTree) (enums : Enums) (cannot_open : String)
    (adjust : Handle → Result (Unit {0})) (replace_service : Service → Bool)
    (split : String → List String) (join : List String → String) (pier : String)
    (services : List Service) (exports : List Item) (q k : String) (old : Service)
    (s : Session (lib.Text)) {e : Dialog}
    → Reach (upload_dialog (has_pier split join pier) (offered_from lib enums 0 services) exports) e
    → e.is_confirmed ≡ true
    → lookup q k s.context ≡ some old
    → lookup q k
        (merge_items lib enums cannot_open adjust replace_service (choice_of e).imports s).context
      ≡ some old
merge_items-keeps lib enums cannot_open adjust replace_service split join pier services exports q k
      old s {e} r c h =
    let offered = offered_from lib enums 0 services in
    let edited = Reach-complete split join pier offered exports r c in
    merge_items-lookup lib enums cannot_open adjust replace_service (choice_of e).imports q k old s
      (rw edited.1 (
        checked_items-IsOffered offered e.import_page.lines edited.0
          (offered_from-IsOffered lib enums 0 services)))
      h
