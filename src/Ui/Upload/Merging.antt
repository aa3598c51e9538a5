-- ===== src/Ui/Upload/Merging.antt =====
-- What the merge of an offer in src/ui/mainframe.cpp leaves of the services that are there.
use webpier.Base.{
  ℕ, suc, String, Bool, true, some, List, [], ◌∷◌, ◌≡◌, refl, inl, inr, Result, All, ◌==◌, ◌&&◌,
  not, Bool-cases, Option-cases, Result-cases, is_empty,
}
use webpier.Ptree.{PropertyTree}
use webpier.Store.Types.{Service, Enums}
use webpier.Store.Context.Effects.{lookup}
use webpier.Store.Context.Kept.{add_service-lookup}
use webpier.Backend.Message.{Handle}
use webpier.Ui.Services.{
  Desk, is_dirty, owner, passed, drop_origin, put_shown, tell, tell_all, store,
}
use webpier.Ui.Services.Saving.{put_shown-eq}
use webpier.Ui.Upload.{
  Item, Session, desk_of, is_equal, find_same, store_item, merge_item, merge_items, offered_from,
}

-- no item of the list has an origin
abbrev pub IsOffered : List Item → Type 0
IsOffered items = All (λ (item : Item). is_empty item.form.origin.name ≡ true) items

module _ (lib : PropertyTree) (enums : Enums) where
  pub offered_from-IsOffered :
      (key : ℕ) (services : List Service) → IsOffered (offered_from lib enums key services)
  unfolding offered_from
  offered_from-IsOffered key [] = tt
  offered_from-IsOffered key (s ∷ services) = (refl, offered_from-IsOffered (suc key) services)

module _ (lib : PropertyTree) (enums : Enums) (cannot_open : String)
    (adjust : Handle → Result (Unit {0})) where
  open lib use {Text}

  tell_all-context : (s : Desk Text) → (tell_all adjust s).desk.context ≡ s.context
  unfolding tell_all tell
  tell_all-context s = elim (Bool-cases (s.form.origin.name == s.form.shown.name)) [
    | inl e ↦ rw e refl
    | inr e ↦
        let handle : Handle = record {
          pier = owner s.form.shown s.context;
          service = s.form.origin.name;
        } in
        elim (Result-cases (adjust handle)) [
          | inl (f, r) ↦ rw (e, r) refl
          | inr (done, r) ↦ rw (e, r) refl
        ]
  ]

  new_form-passed :
      (now : ℕ) (s : Desk Text)
      → is_empty s.form.origin.name ≡ true
      → drop_origin lib enums cannot_open now s ≡ passed s
  unfolding drop_origin
  new_form-passed now s e = elim (Bool-cases s.form.shown.local) [
    | inl l ↦ simp (l, e)
    | inr l ↦ simp (l, e)
  ]

  -- a form without an origin, when it is stored
  store-lookup :
      (now later : ℕ) (q k : String) (old : Service) (s : Desk Text)
      → is_empty s.form.origin.name ≡ true
      → lookup q k s.context ≡ some old
      → lookup q k (store lib enums cannot_open adjust now later s).context ≡ some old
  unfolding store
  store-lookup now later q k old s e h =
      let put : lookup q k (put_shown lib enums cannot_open later s).desk.context ≡ some old =
        rw (put_shown-eq lib enums cannot_open later s) (
          add_service-lookup lib enums cannot_open s.form.shown.local later q k s.form.shown old
            s.context s.disk h) in
      elim (Bool-cases (is_dirty s.form)) [
        | inr b ↦ rw b h
        | inl b ↦ elim (Result-cases (put_shown lib enums cannot_open later s).result) [
          | inl (f, r) ↦ rw (b, new_form-passed now s e, r) put
          | inr (done, r) ↦
              rw
                (
                  b,
                  new_form-passed now s e,
                  r,
                  tell_all-context (put_shown lib enums cannot_open later s).desk,
                )
                put
        ]
      ]

  merge_item-lookup :
      (replace_service : Service → Bool) (item : Item) (q k : String) (old : Service)
      (s : Session Text)
      → is_empty item.form.origin.name ≡ true
      → lookup q k s.context ≡ some old
      → lookup q k (merge_item lib enums cannot_open adjust replace_service item s).context
        ≡ some old
  unfolding merge_item store_item
  merge_item-lookup replace_service item q k old s e h =
      let next = item.form.shown in
      let after = store-lookup s.now (suc s.now) q k old (desk_of item.form s) e h in
      elim (Option-cases (find_same next s.imports)) [
        | inl n ↦ rw (n, merge_item) after
        | inr (curr, n) ↦ elim (Bool-cases (not (is_equal curr next) && replace_service next)) [
          | inl t ↦ rw (n, t, merge_item) after
          | inr t ↦ rw (n, t, merge_item) h
        ]
      ]

  pub merge_items-lookup :
      (replace_service : Service → Bool) (items : List Item) (q k : String) (old : Service)
      (s : Session Text)
      → IsOffered items
      → lookup q k s.context ≡ some old
      → lookup q k (merge_items lib enums cannot_open adjust replace_service items s).context
        ≡ some old
  unfolding merge_items
  merge_items-lookup replace_service [] q k old s e h = h
  merge_items-lookup replace_service (item ∷ items) q k old s e h =
      merge_items-lookup replace_service items q k old
        (merge_item lib enums cannot_open adjust replace_service item s) e.1
        (merge_item-lookup replace_service item q k old s e.0 h)
