-- ===== src/Ui/Services/Stored.antt =====
-- `ServiceImpl::Store` of src/ui/context.cpp as one change, from the two calls of the context and the
-- calls to the backend.
use webpier.Base.{
  ℕ, String, Bool, true, false, none, some, [], ◌∷◌, ◌++◌, ◌≡◌, refl, arith, Result, ok, ◌==◌, ◌&&◌,
  ◌||◌, not, if◌then◌else◌, ◌∙◌,
}
use webpier.Ptree.{PropertyTree}
use webpier.Map.{string_key}
use webpier.Store.Types.{Enums}
use webpier.Store.Context.{Context}
use webpier.Store.Context.Saving.{IsInStep}
use webpier.Store.Context.Effects.{lookup, can_save}
use webpier.Backend.Message.{Handle}
use webpier.Ui.Services.{
  Form, Desk, Called, is_dirty, form_of, owner, ◌>>>◌, drop_origin, put_shown, tell_all, store,
}
use webpier.Ui.Services.Saving.{
  is_new, is_gone, old_owner, form_of-clean, drop_origin-IsDone, put_shown-IsDone, tell_all-told,
}

pub returned :
    {Text : Type 0} (r : Called Text) (next : Desk Text → Called Text)
    → r.result ≡ ok tt
    → (r >>> next) ≡ next r.desk
returned r next e = rw e refl

-- `Store` is to put the service where there is none, but for the one that it deletes.
abbrev pub is_free : Form → Context → Bool
is_free f c =
    (not (is_new f) && (old_owner f c == owner f.shown c) && (f.origin.name == f.shown.name))
    || is_gone (lookup (owner f.shown c) f.shown.name c)

module _ (lib : PropertyTree) (enums : Enums) (cannot_open : String) where
  open lib use {Text}

  -- the two calls of the context together
  pub change-saves :
      (now later : ℕ) (j : String) (s : Desk Text)
      → (is_new s.form || can_save (old_owner s.form s.context) s.context s.disk) ≡ true
      → can_save (owner s.form.shown s.context) s.context s.disk ≡ true
      → is_free s.form s.context ≡ true
      → IsInStep lib enums cannot_open j s.context s.disk
      → let r = drop_origin lib enums cannot_open now s >>> put_shown lib enums cannot_open later in
        let pier = owner s.form.shown s.context in
        (r.result ≡ ok tt)
        × (r.desk.form ≡ s.form)
        × (r.desk.adjusted ≡ s.adjusted)
        × (r.desk.context.config ≡ s.context.config)
        × ((q k : String)
            → lookup q k r.desk.context ≡ (
                if (pier == q) && (s.form.shown.name == k)
                then some s.form.shown
                else if not (is_new s.form)
                    && (old_owner s.form s.context == q)
                    && (s.form.origin.name == k)
                then none
                else lookup q k s.context))
        × IsInStep lib enums cannot_open j r.desk.context r.desk.disk
  change-saves now later j s can_old can_new free step =
      let first = drop_origin lib enums cannot_open now s in
      let dropped = drop_origin-IsDone lib enums cannot_open now s can_old in
      let s1 = first.desk in
      let same_owner : owner s1.form.shown s1.context ≡ owner s.form.shown s.context =
        rw (dropped.0, dropped.2.1) refl in
      let can : can_save (owner s1.form.shown s1.context) s1.context s1.disk ≡ true =
        rw same_owner (dropped.2.2 _ can_new) in
      let empty : lookup (owner s1.form.shown s1.context) s1.form.shown.name s1.context ≡ none =
        rw (same_owner, dropped.0, dropped.2.3 (owner s.form.shown s.context) s.form.shown.name)
          (ground arith) in
      let put = put_shown-IsDone lib enums cannot_open later s1 can empty in
      rw (returned first (put_shown lib enums cannot_open later) dropped.2.0) (
        put.2.0,
        put.0 ∙ dropped.0,
        put.1 ∙ dropped.1,
        put.2.1 ∙ dropped.2.1,
        λ q k. put.2.3 q k ∙ rw (same_owner, dropped.0, dropped.2.3 q k) refl,
        put.3 j (dropped.3 j step),
      )

module _ (lib : PropertyTree) (enums : Enums) (cannot_open : String)
    (adjust : Handle → Result (Unit {0})) where
  open lib use {Text}

  -- A form that is stored is clean, the context finds the service that it shows in place of the one it
  -- had, and every other as before, memory and disk stay in step, and the backend is told of the new
  -- handle, and before that of the old name under the new pier, if the name is another. The form is
  -- dirty, the piers of both services can be saved, no other service has the new name, and the backend
  -- does not refuse.
  pub store-saves :
      (now later : ℕ) (j : String) (s : Desk Text)
      → ((h : Handle) → adjust h ≡ ok tt)
      → is_dirty s.form ≡ true
      → (is_new s.form || can_save (old_owner s.form s.context) s.context s.disk) ≡ true
      → can_save (owner s.form.shown s.context) s.context s.disk ≡ true
      → is_free s.form s.context ≡ true
      → IsInStep lib enums cannot_open j s.context s.disk
      → let after = store lib enums cannot_open adjust now later s in
        let new = s.form.shown in
        let old = s.form.origin in
        let pier = owner new s.context in
        (after.form ≡ form_of new)
        × (is_dirty after.form ≡ false)
        × ((q k : String)
            → lookup q k after.context ≡ (
                if (pier == q) && (new.name == k)
                then some new
                else if not (is_new s.form) && (old_owner s.form s.context == q) && (old.name == k)
                then none
                else lookup q k s.context))
        × IsInStep lib enums cannot_open j after.context after.disk
        × (after.adjusted
            ≡ (if old.name == new.name
                then s.adjusted
                else s.adjusted ++ (record { pier = pier; service = old.name } ∷ []))
              ++ (record { pier = pier; service = new.name } ∷ []))
  unfolding store
  store-saves now later j s takes dirty can_old can_new free step =
      let changed = change-saves lib enums cannot_open now later j s can_old can_new free step in
      let r = drop_origin lib enums cannot_open now s >>> put_shown lib enums cannot_open later in
      let same_owner : owner r.desk.form.shown r.desk.context ≡ owner s.form.shown s.context =
        rw (changed.1, changed.3) refl in
      let told = tell_all-told lib enums cannot_open adjust r.desk takes in
      rw (dirty, returned r (tell_all adjust) changed.0, told, same_owner, changed.1, changed.2)
        (refl, form_of-clean s.form.shown, changed.4, changed.5, refl)
