-- ===== src/Ui/Services/Saving.antt =====
-- What `ServiceImpl::Store` of src/ui/context.cpp leaves, when the context and the backend let it.
use webpier.Base.{
  ℕ, String, Bool, true, false, Option, none, some, [], ◌∷◌, ◌++◌, ◌≡◌, refl, inl, inr, arith,
  Result, ok, ◌==◌, ◌&&◌, ◌||◌, not, is_empty, if◌then◌else◌, Bool-cases, eq_refl,
}
use webpier.Ptree.{PropertyTree}
use webpier.Map.{string_key}
use webpier.Store.Types.{Service, Enums}
use webpier.Store.Context.{Disk, Context, del_export_service, del_import_service}
use webpier.Store.Context.Saving.{IsInStep, changes-IsInStep}
use webpier.Store.Context.Effects.{
  lookup, can_save, IsDone, del-IsDone, add_service-IsDone, add_service,
}
use webpier.Backend.Message.{Handle, int_eq_refl}
use webpier.Ui.Services.{
  Form, Desk, bool_eq, is_dirty, form_of, owner, passed, call, tell, drop_origin, put_shown,
  tell_all,
}

bool_eq_refl : (b : Bool) → bool_eq b b ≡ true
bool_eq_refl true = refl
bool_eq_refl false = refl

pub form_of-clean : (s : Service) → is_dirty (form_of s) ≡ false
unfolding is_dirty
form_of-clean s =
    rw
      (
        eq_refl s.name,
        eq_refl s.pier,
        eq_refl s.address,
        eq_refl s.gateway,
        eq_refl s.rendezvous,
        int_eq_refl s.proto,
        int_eq_refl s.role,
        int_eq_refl s.route,
        bool_eq_refl s.autostart,
        bool_eq_refl s.obscure,
      )
      refl

-- the form has not been stored before: `Store` then deletes nothing
abbrev pub is_new : Form → Bool
is_new f =
    if f.shown.local
    then is_empty f.origin.name
    else is_empty f.origin.name || is_empty f.origin.pier

abbrev pub is_gone : Option Service → Bool
is_gone none = true
is_gone (some s) = false

-- the pier under which `Store` deletes the old service
abbrev pub old_owner : Form → Context → String
old_owner f c = if f.shown.local then c.config.pier else f.origin.pier

module _ (lib : PropertyTree) (enums : Enums) (cannot_open : String) where
  open lib use {Text}

  -- the first call, on a pier that can be saved or not at all
  pub drop_origin-IsDone :
      (now : ℕ) (s : Desk Text)
      → (is_new s.form || can_save (old_owner s.form s.context) s.context s.disk) ≡ true
      → let r = drop_origin lib enums cannot_open now s in
        (r.desk.form ≡ s.form)
        × (r.desk.adjusted ≡ s.adjusted)
        × IsDone lib enums cannot_open s.context s.disk
            (record { context = r.desk.context; disk = r.desk.disk; result = r.result })
            (λ q k.
              if not (is_new s.form)
                && (old_owner s.form s.context == q)
                && (s.form.origin.name == k)
              then none
              else lookup q k s.context)
        × ((j : String)
            → IsInStep lib enums cannot_open j s.context s.disk
            → IsInStep lib enums cannot_open j r.desk.context r.desk.disk)
  unfolding drop_origin del_export_service del_import_service
  drop_origin-IsDone now s h =
      let c = s.context in
      let d = s.disk in
      let old = s.form.origin in
      elim (Bool-cases (is_new s.form)) [
        | inl n ↦ elim (Bool-cases s.form.shown.local) [
          | inl l ↦
              let e : is_empty old.name ≡ true = ground arith in
              rw (l, e) (refl, refl, (refl, refl, λ q g. g, λ q k. refl), λ j a. a)
          | inr l ↦
              let e : (is_empty old.name || is_empty old.pier) ≡ true = ground arith in
              rw (l, e) (refl, refl, (refl, refl, λ q g. g, λ q k. refl), λ j a. a)
        ]
        | inr n ↦ elim (Bool-cases s.form.shown.local) [
          | inl l ↦
              let e : is_empty old.name ≡ false = ground arith in
              let k : can_save c.config.pier c d ≡ true = ground arith in
              let done = del-IsDone lib enums cannot_open now c.config.pier _ old.name c d k in
              rw (l, e)
                (
                  refl,
                  refl,
                  done,
                  λ j a.
                      (changes-IsInStep lib enums cannot_open now old old.pier old.name j c d a).1
                        done.0,
                )
          | inr l ↦
              let e : (is_empty old.name || is_empty old.pier) ≡ false = ground arith in
              let k : can_save old.pier c d ≡ true = ground arith in
              let done = del-IsDone lib enums cannot_open now old.pier _ old.name c d k in
              rw (l, e)
                (
                  refl,
                  refl,
                  done,
                  λ j a.
                      (changes-IsInStep lib enums cannot_open now old old.pier old.name j c d a).3
                        done.0,
                )
        ]
      ]

  pub put_shown-eq :
      (now : ℕ) (s : Desk Text)
      → put_shown lib enums cannot_open now s
        ≡ call (add_service lib enums cannot_open s.form.shown.local now s.form.shown) s
  unfolding put_shown
  put_shown-eq now s = elim (Bool-cases s.form.shown.local) [ inl l ↦ simp l | inr l ↦ simp l ]

  add_service-IsInStep :
      (b : Bool) (now : ℕ) (info : Service) (j : String) (c : Context) (d : Disk Text)
      → IsInStep lib enums cannot_open j c d
      → (add_service lib enums cannot_open b now info c d).result ≡ ok tt
      → let r = add_service lib enums cannot_open b now info c d in
        IsInStep lib enums cannot_open j r.context r.disk
  add_service-IsInStep true now info j c d a r =
      (changes-IsInStep lib enums cannot_open now info info.pier info.name j c d a).0 r
  add_service-IsInStep false now info j c d a r =
      (changes-IsInStep lib enums cannot_open now info info.pier info.name j c d a).2 r

  -- the second call, on a pier that can be saved and has no service of that name
  pub put_shown-IsDone :
      (now : ℕ) (s : Desk Text)
      → let new = s.form.shown in
        can_save (owner new s.context) s.context s.disk ≡ true
        → lookup (owner new s.context) new.name s.context ≡ none
        → let r = put_shown lib enums cannot_open now s in
          (r.desk.form ≡ s.form)
          × (r.desk.adjusted ≡ s.adjusted)
          × IsDone lib enums cannot_open s.context s.disk
              (record { context = r.desk.context; disk = r.desk.disk; result = r.result })
              (λ q k.
                if (owner new s.context == q) && (new.name == k)
                then some new
                else lookup q k s.context)
          × ((j : String)
              → IsInStep lib enums cannot_open j s.context s.disk
              → IsInStep lib enums cannot_open j r.desk.context r.desk.disk)
  put_shown-IsDone now s h n =
      let new = s.form.shown in
      let done =
        add_service-IsDone lib enums cannot_open new.local now new s.context s.disk refl h n in
      rw (put_shown-eq now s) (
        refl,
        refl,
        done,
        λ j a. add_service-IsInStep new.local now new j s.context s.disk a done.0,
      )

  -- the calls to the backend, when it takes them
  pub tell_all-told :
      (adjust : Handle → Result (Unit {0})) (s : Desk Text)
      → ((h : Handle) → adjust h ≡ ok tt)
      → let new = s.form.shown in
        let pier = owner new s.context in
        tell_all adjust s
        ≡ passed (record s {
          form = form_of new;
          adjusted =
              (if s.form.origin.name == new.name
                then s.adjusted
                else s.adjusted ++ (record { pier = pier; service = s.form.origin.name } ∷ []))
              ++ (record { pier = pier; service = new.name } ∷ []);
        })
  unfolding tell_all tell
  tell_all-told adjust s h = elim (Bool-cases (s.form.origin.name == s.form.shown.name)) [
    | inl e ↦ rw (e, h _) refl
    | inr e ↦ rw (e, h _, h _) refl
  ]
