-- ===== src/Ui/Services/Losing.antt =====
-- What `ServiceImpl::Store` of src/ui/context.cpp does when a call throws, which it logs only.
use webpier.Base.{
  ℕ, String, Bool, true, false, Option, none, some, ◌≡◌, refl, inl, inr, arith, Result, err, ◌==◌,
  ◌||◌, is_empty, Bool-cases, Result-cases, eq_iff, eq_refl, ◌∙◌, ap,
}
use webpier.Ptree.{PropertyTree}
use webpier.Store.Types.{Service, Enums}
use webpier.Store.Context.{Disk, Context, Changed, del_export_service, del_import_service}
use webpier.Store.Context.Saving.{IsInStep}
use webpier.Store.Context.Effects.{lookup, can_save}
use webpier.Store.Context.Refusing.{add_service-taken, del-absent}
use webpier.Backend.Message.{Handle}
use webpier.Ui.Services.{
  Form, Desk, Called, is_dirty, owner, ◌>>>◌, call, drop_origin, put_shown, tell_all, store,
}
use webpier.Ui.Services.Saving.{is_new, is_gone, old_owner, drop_origin-IsDone, put_shown-eq}
use webpier.Ui.Services.Stored.{returned}

thrown :
    {Text : Type 0} (r : Called Text) (next : Desk Text → Called Text) (e : String)
    → r.result ≡ err e
    → (r >>> next) ≡ r
thrown r next e h = rw h refl

none_of : (o : Option Service) → is_gone o ≡ true → o ≡ none
none_of none h = refl
none_of (some s) h = let no : ⊥ = ground arith in absurd no

-- the form has no service in the context to delete
abbrev pub is_absent : Form → Context → Bool
is_absent f c = is_new f || is_gone (lookup (old_owner f c) f.origin.name c)

module _ (lib : PropertyTree) (enums : Enums) (cannot_open : String) where
  open lib use {Text}

  put_shown-taken :
      (now : ℕ) (other : Service) (s : Desk Text)
      → lookup (owner s.form.shown s.context) s.form.shown.name s.context ≡ some other
      → put_shown lib enums cannot_open now s
        ≡ record { desk = s; result = err "Such service already exists" }
  put_shown-taken now other s t =
      rw
        (
          put_shown-eq lib enums cannot_open now s,
          add_service-taken lib enums cannot_open s.form.shown.local now s.form.shown other
              s.context s.disk refl t,
        )
        refl

  same_desk :
      (s : Desk Text) (change : Context → Disk Text → Changed Text)
      → ((change s.context s.disk).context ≡ s.context) × ((change s.context s.disk).disk ≡ s.disk)
      → (call change s).desk ≡ s
  same_desk s change h = rw (h.0, h.1) refl

  drop_export :
      (now : ℕ) (s : Desk Text)
      → s.form.shown.local ≡ true
      → is_empty s.form.origin.name ≡ false
      → drop_origin lib enums cannot_open now s
        ≡ call (del_export_service lib enums cannot_open now s.form.origin.name) s
  unfolding drop_origin
  drop_export now s l e = simp (l, e)

  drop_import :
      (now : ℕ) (s : Desk Text)
      → s.form.shown.local ≡ false
      → (is_empty s.form.origin.name || is_empty s.form.origin.pier) ≡ false
      → drop_origin lib enums cannot_open now s
        ≡ call
            (del_import_service lib enums cannot_open now s.form.origin.pier s.form.origin.name)
            s
  unfolding drop_origin
  drop_import now s l e = simp (l, e)

  drop_origin-absent :
      (now : ℕ) (s : Desk Text)
      → is_absent s.form s.context ≡ true
      → (drop_origin lib enums cannot_open now s).desk ≡ s
  unfolding drop_origin del_export_service del_import_service
  drop_origin-absent now s h =
      let c = s.context in
      let d = s.disk in
      let old = s.form.origin in
      elim (Bool-cases s.form.shown.local) [
        | inl l ↦ elim (Bool-cases (is_empty old.name)) [
          | inl e ↦ simp (l, e)
          | inr e ↦
              let at : is_gone (lookup c.config.pier old.name c) ≡ true = ground arith in
              let same =
                del-absent lib enums cannot_open now c.config.pier _ old.name c d (none_of _ at) in
              ap (λ r. r.desk) (drop_export now s l e)
              ∙ same_desk s (del_export_service lib enums cannot_open now old.name) same
        ]
        | inr l ↦ elim (Bool-cases (is_empty old.name || is_empty old.pier)) [
          | inl e ↦ simp (l, e)
          | inr e ↦
              let at : is_gone (lookup old.pier old.name c) ≡ true = ground arith in
              let same =
                del-absent lib enums cannot_open now old.pier _ old.name c d (none_of _ at) in
              ap (λ r. r.desk) (drop_import now s l e)
              ∙ same_desk s (del_import_service lib enums cannot_open now old.pier old.name) same
        ]
      ]

module _ (lib : PropertyTree) (enums : Enums) (cannot_open : String)
    (adjust : Handle → Result (Unit {0})) where
  open lib use {Text}

  -- A form whose own service is not in the context, and whose name another service has there, is not
  -- stored: nothing changes, nobody is told, and nothing is thrown.
  pub store-ignores :
      (now later : ℕ) (other : Service) (s : Desk Text)
      → is_absent s.form s.context ≡ true
      → lookup (owner s.form.shown s.context) s.form.shown.name s.context ≡ some other
      → store lib enums cannot_open adjust now later s ≡ s
  unfolding store
  store-ignores now later other s a t =
      let first = drop_origin lib enums cannot_open now s in
      let same_desk : first.desk ≡ s = drop_origin-absent lib enums cannot_open now s a in
      let second : put_shown lib enums cannot_open later first.desk
          ≡ record { desk = s; result = err "Such service already exists" } =
        rw same_desk (put_shown-taken lib enums cannot_open later other s t) in
      elim (Bool-cases (is_dirty s.form)) [
        | inr b ↦ rw b refl
        | inl b ↦ elim (Result-cases first.result) [
          | inl (e, r) ↦
              rw
                (
                  b,
                  thrown first (put_shown lib enums cannot_open later) e r,
                  thrown first (tell_all adjust) e r,
                )
                same_desk
          | inr (done, r) ↦
              rw (b, returned first (put_shown lib enums cannot_open later) r, second) refl
        ]
      ]

  -- Renaming a service to a name that another one has deletes it from memory and disk. Nothing is
  -- thrown, the other service stays, the backend is not told, and the form stays as it was. The form
  -- was stored before, and the pier of its old service can be saved.
  pub store-loses :
      (now later : ℕ) (other : Service) (j : String) (s : Desk Text)
      → is_new s.form ≡ false
      → can_save (old_owner s.form s.context) s.context s.disk ≡ true
      → (s.form.origin.name == s.form.shown.name) ≡ false
      → lookup (owner s.form.shown s.context) s.form.shown.name s.context ≡ some other
      → IsInStep lib enums cannot_open j s.context s.disk
      → let after = store lib enums cannot_open adjust now later s in
        (after.form ≡ s.form)
        × (after.adjusted ≡ s.adjusted)
        × (lookup (old_owner s.form s.context) s.form.origin.name after.context ≡ none)
        × (lookup (owner s.form.shown s.context) s.form.shown.name after.context ≡ some other)
        × IsInStep lib enums cannot_open j after.context after.disk
  unfolding store is_dirty
  store-loses now later other j s old can renamed taken step =
      let c = s.context in
      let first = drop_origin lib enums cannot_open now s in
      let dropped = drop_origin-IsDone lib enums cannot_open now s (rw old can) in
      let s1 = first.desk in
      let still : lookup (owner s.form.shown c) s.form.shown.name s1.context ≡ some other =
        rw (dropped.2.3 (owner s.form.shown c) s.form.shown.name, renamed) (ground arith) in
      let gone : lookup (old_owner s.form c) s.form.origin.name s1.context ≡ none =
        rw
          (
            dropped.2.3 (old_owner s.form c) s.form.origin.name,
            old,
            eq_refl (old_owner s.form c),
            eq_refl s.form.origin.name,
          )
          refl in
      let same_owner : owner s1.form.shown s1.context ≡ owner s.form.shown c =
        rw (dropped.0, dropped.2.1) refl in
      let second : put_shown lib enums cannot_open later s1
          ≡ record { desk = s1; result = err "Such service already exists" } =
        put_shown-taken lib enums cannot_open later other s1 (rw (same_owner, dropped.0) still) in
      let dirty : is_dirty s.form ≡ true = ground (
        arith,
        eq_iff s.form.origin.name s.form.shown.name,
        eq_iff s.form.shown.name s.form.origin.name,
      ) in
      let run : store lib enums cannot_open adjust now later s ≡ s1 =
        rw (dirty, returned first (put_shown lib enums cannot_open later) dropped.2.0, second)
          refl in
      rw run (dropped.0, dropped.1, gone, still, dropped.3 j step)
