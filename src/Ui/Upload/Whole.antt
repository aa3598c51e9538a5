-- ===== src/Ui/Upload/Whole.antt =====
-- How `CMainFrame::OnImportMenuSelection` of src/ui/mainframe.cpp puts its loops together, with its
-- `try` and its `catch`.
use webpier.Base.{
  String, Bool, false, Option, none, some, List, Result, ok, err, ◌>>=◌, ◌==◌, ◌&&◌, ◌||◌, not,
  if◌then◌else◌,
}
use webpier.Ptree.{PropertyTree}
use webpier.Store.Types.{Service, Enums}
use webpier.Store.Context
use webpier.Store.Context.{
  Disk, Context, Changed, get_export_services, get_import_services, get_piers,
}
use webpier.Backend.Message.{Handle}
use webpier.Ui.Offer.{Offer}
use webpier.Ui.Services.{has}
use webpier.Ui.Upload.{
  Session, Step, Choice, Answers, ◌>>>◌, passed, call, populate, map_shown, purge_items,
  merge_items, store_items, without_pier, export_items,
}

module _ (lib : PropertyTree) (enums : Enums) (cannot_open : String)
    (adjust : Handle → Result (Unit {0})) (split : String → List String)
    (join : List String → String) where
  open lib use {Text}

  -- what follows when the dialog is confirmed; `refused` is what `save_x509_cert` throws
  unfoldable pub take_over :
      String
      → Option String
      → (create replace : Bool) → (Service → Bool)
      → Choice
      → Session Text
      → Step Text
  take_over pier refused create replace replace_service choice s =
      let chosen = choice.imports in
      (if replace
        then call (λ now. Context.del_pier lib enums cannot_open now pier) s
        else passed s)
      >>> (λ s.
          if create || replace
          then call (λ now. Context.add_pier lib enums cannot_open now pier refused) s
          else passed s)
      >>> (λ s.
          passed
            (export_items lib enums cannot_open adjust split join pier choice.exports s.exports s))
      >>> (λ s.
          if choice.merge
          then passed (merge_items lib enums cannot_open adjust replace_service chosen s)
          else purge_items lib enums cannot_open adjust pier s.imports s
            >>> (λ s. passed (store_items lib enums cannot_open adjust chosen s)))
      >>> (λ s. passed (populate s))

  -- the `try`, on the offer that was read; `certificate` is `GetCertificate`
  unfoldable pub upload :
      (String → Result String) → Option String → Offer → Answers → Session Text → Step Text
  upload certificate refused offer answers s =
      let pier = offer.pier in
      let create = not (has pier (get_piers s.context)) in
      let known : Result Bool =
        if create
        then ok false
        else (do cert ← certificate pier; ok (not (offer.certificate == cert))) in
      if s.context.config.pier == pier then passed s else elim known [
        | err e ↦ record { session = s; result = err e }
        | ok replace ↦
            if replace && not answers.replace_pier
            then passed s
            else let cleared : Session Text =
                if replace
                then record s {
                  exports =
                      map_shown (without_pier lib enums cannot_open adjust split join pier)
                        s.exports;
                }
                else s in
              elim answers.choice [
                | none ↦ passed cleared
                | some choice ↦
                    take_over pier refused create replace answers.replace_service choice cleared
              ]
      ]

  -- with the `catch`, which opens the context again
  unfoldable pub on_upload :
      (Disk Text → Result Context)
      → (String → Result String)
      → Option String
      → Offer
      → Answers
      → Session Text
      → Step Text
  on_upload reopen certificate refused offer answers s =
      let r = upload certificate refused offer answers s in
      elim r.result [
        | ok done ↦ r
        | err e ↦ elim (reopen r.session.disk) [
          | err f ↦ record { session = r.session; result = err f }
          | ok c ↦ passed (populate (record r.session { context = c }))
        ]
      ]
