-- ===== src/Ui/Services/Untold.antt =====
-- `ServiceImpl::Store` of src/ui/context.cpp when the backend refuses the call for the old name.
use webpier.Base.{
  ℕ, String, true, false, none, some, [], ◌∷◌, ◌++◌, ◌≡◌, refl, arith, Result, err, ◌==◌, eq_iff,
  eq_refl,
}
use webpier.Ptree.{PropertyTree}
use webpier.Store.Types.{Service, Enums}
use webpier.Store.Context.Saving.{IsInStep}
use webpier.Store.Context.Effects.{lookup, can_save}
use webpier.Backend.Message.{Handle}
use webpier.Ui.Services.{
  Form, Desk, is_dirty, owner, ◌>>>◌, tell, drop_origin, put_shown, tell_all, store,
}
use webpier.Ui.Services.Saving.{is_new, old_owner}
use webpier.Ui.Services.Stored.{returned, change-saves}
use webpier.Ui.Services.Losing.{store-ignores, is_absent}

module _ (lib : PropertyTree) (enums : Enums) (cannot_open : String)
    (adjust : Handle → Result (Unit {0})) where
  open lib use {Text}

  refused_tell :
      (e : String) (s : Desk Text)
      → ((h : Handle) → adjust h ≡ err e)
      → (s.form.origin.name == s.form.shown.name) ≡ false
      → let told : Handle = record {
        pier = owner s.form.shown s.context;
        service = s.form.origin.name;
      } in
        (tell_all adjust s).desk ≡ record s { adjusted = s.adjusted ++ (told ∷ []) }
  unfolding tell_all tell
  refused_tell e s h n = rw (n, h _) refl

  -- When the backend refuses the call that follows a renaming, the service is saved under the new name,
  -- but the form keeps the old one, and an edit that is stored in it then, with the same name and pier,
  -- changes nothing, even if the backend answers again. The piers of both services can be saved, and
  -- no service has the new name.
  pub store-untold :
      (again : Handle → Result (Unit {0})) (now later n l : ℕ) (e : String) (edit : Service)
      (j : String) (s : Desk Text)
      → ((h : Handle) → adjust h ≡ err e)
      → is_new s.form ≡ false
      → (s.form.origin.name == s.form.shown.name) ≡ false
      → can_save (old_owner s.form s.context) s.context s.disk ≡ true
      → can_save (owner s.form.shown s.context) s.context s.disk ≡ true
      → lookup (owner s.form.shown s.context) s.form.shown.name s.context ≡ none
      → edit.local ≡ s.form.shown.local
      → edit.name ≡ s.form.shown.name
      → edit.pier ≡ s.form.shown.pier
      → IsInStep lib enums cannot_open j s.context s.disk
      → let after = store lib enums cannot_open adjust now later s in
        let edited = record after { form = record after.form { shown = edit } } in
        (lookup (owner s.form.shown s.context) s.form.shown.name after.context ≡ some s.form.shown)
        × (after.form ≡ s.form)
        × IsInStep lib enums cannot_open j after.context after.disk
        × (store lib enums cannot_open again n l edited ≡ edited)
  unfolding store is_dirty
  store-untold again now later n l e edit j s refuses old renamed can_old can_new free same_side
        same_name same_pier step =
      let c = s.context in
      let changed =
        change-saves lib enums cannot_open now later j s (rw old can_old) can_new
          (rw free (ground arith)) step in
      let r = drop_origin lib enums cannot_open now s >>> put_shown lib enums cannot_open later in
      let dirty : is_dirty s.form ≡ true = ground (
        arith,
        eq_iff s.form.origin.name s.form.shown.name,
        eq_iff s.form.shown.name s.form.origin.name,
      ) in
      let told : Handle = record {
        pier = owner r.desk.form.shown r.desk.context;
        service = r.desk.form.origin.name;
      } in
      let after : Desk Text = record r.desk { adjusted = r.desk.adjusted ++ (told ∷ []) } in
      let run : store lib enums cannot_open adjust now later s ≡ after =
        rw
          (
            dirty,
            returned r (tell_all adjust) changed.0,
            refused_tell e r.desk refuses (rw changed.1 renamed),
          )
          refl in
      let saved : lookup (owner s.form.shown c) s.form.shown.name r.desk.context
          ≡ some s.form.shown =
        rw
          (
            changed.4 (owner s.form.shown c) s.form.shown.name,
            eq_refl (owner s.form.shown c),
            eq_refl s.form.shown.name,
          )
          refl in
      let gone : lookup (old_owner s.form c) s.form.origin.name r.desk.context ≡ none =
        rw
          (
            changed.4 (old_owner s.form c) s.form.origin.name,
            old,
            eq_refl (old_owner s.form c),
            eq_refl s.form.origin.name,
          )
          (ground (
            arith,
            eq_iff s.form.shown.name s.form.origin.name,
            eq_iff s.form.origin.name s.form.shown.name,
          )) in
      let form : Form = record r.desk.form { shown = edit } in
      let new_owner : owner edit r.desk.context ≡ owner s.form.shown c =
        rw (same_side, same_pier, changed.3) refl in
      let same_old : old_owner form r.desk.context ≡ old_owner s.form c =
        rw (same_side, changed.1, changed.3) refl in
      let origin : r.desk.form.origin.name ≡ s.form.origin.name = rw changed.1 refl in
      let absent : is_absent form r.desk.context ≡ true =
        rw (same_old, origin, gone) (ground arith) in
      let taken : lookup (owner edit r.desk.context) edit.name r.desk.context ≡ some s.form.shown =
        rw (new_owner, same_name) saved in
      rw run (
        saved,
        changed.1,
        changed.5,
        store-ignores lib enums cannot_open again n l s.form.shown (record after { form = form })
            absent taken,
      )
