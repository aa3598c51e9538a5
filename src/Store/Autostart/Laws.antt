-- ===== src/Store/Autostart/Laws.antt =====
-- What the three functions of src/store/utils.cpp come to together.
use webpier.Base.{
  String, Bool, true, false, List, [], ◌∷◌, ◌++◌, ◌≡◌, refl, inl, inr, arith, Bool-cases,
  if◌then◌else◌, sym,
}
use webpier.Store.Autostart.{
  reboot_line, verify_autostart, copy_lines, assign_autostart, drop_lines, revoke_autostart,
}

module _ (matches : String → String → String → Bool) (exec home : String) where
  -- the lines that stay
  abbrev pub others : List String → List String
  others [] = []
  others (line ∷ rest) =
      let kept = others rest in if matches exec home line then kept else line ∷ kept

  copy_lines-seen :
      (t : List String)
      → (copy_lines matches exec home t).seen ≡ verify_autostart matches exec home t
  unfolding copy_lines verify_autostart
  copy_lines-seen [] = refl
  copy_lines-seen (l ∷ t) = ground (arith, copy_lines-seen t)

  copy_lines-os :
      (t : List String)
      → verify_autostart matches exec home t ≡ false
      → (copy_lines matches exec home t).os ≡ t
  unfolding copy_lines verify_autostart
  copy_lines-os [] h = refl
  copy_lines-os (l ∷ t) h = elim (Bool-cases (matches exec home l)) [
    | inl m ↦ ground arith
    | inr m ↦
        let tail : verify_autostart matches exec home t ≡ false = ground arith in
        rw (m, copy_lines-os t tail) refl
  ]

  drop_lines-seen :
      (t : List String)
      → (drop_lines matches exec home t).seen ≡ verify_autostart matches exec home t
  unfolding drop_lines verify_autostart
  drop_lines-seen [] = refl
  drop_lines-seen (l ∷ t) = ground (arith, drop_lines-seen t)

  drop_lines-os : (t : List String) → (drop_lines matches exec home t).os ≡ others t
  unfolding drop_lines
  drop_lines-os [] = refl
  drop_lines-os (l ∷ t) = ground (arith, drop_lines-os t)

  others-unseen : (t : List String) → verify_autostart matches exec home t ≡ false → others t ≡ t
  unfolding verify_autostart
  others-unseen [] h = refl
  others-unseen (l ∷ t) h = elim (Bool-cases (matches exec home l)) [
    | inl m ↦ ground arith
    | inr m ↦
        let tail : verify_autostart matches exec home t ≡ false = ground arith in
        rw (m, others-unseen t tail) refl
  ]

  verify_autostart-others :
      (t : List String) → verify_autostart matches exec home (others t) ≡ false
  unfolding verify_autostart
  verify_autostart-others [] = refl
  verify_autostart-others (l ∷ t) = ground (arith, verify_autostart-others t)

  verify_autostart-add :
      (t : List String) (line : String)
      → matches exec home line ≡ true
      → verify_autostart matches exec home (t ++ (line ∷ [])) ≡ true
  unfolding verify_autostart
  verify_autostart-add [] line m = rw m refl
  verify_autostart-add (l ∷ t) line m = ground (arith, verify_autostart-add t line m)

  others-add :
      (t : List String) (line : String)
      → matches exec home line ≡ true
      → others (t ++ (line ∷ [])) ≡ others t
  others-add [] line m = rw m refl
  others-add (l ∷ t) line m = rw (others-add t line m) refl

  assign-eq :
      (t : List String)
      → assign_autostart matches exec home t
        ≡ (if verify_autostart matches exec home t then t else t ++ (reboot_line exec home ∷ []))
  unfolding assign_autostart
  assign-eq t = elim (Bool-cases (verify_autostart matches exec home t)) [
    | inl v ↦ rw (copy_lines-seen t, v) refl
    | inr v ↦ rw (copy_lines-seen t, v, copy_lines-os t v) refl
  ]

  revoke-eq : (t : List String) → revoke_autostart matches exec home t ≡ others t
  unfolding revoke_autostart
  revoke-eq t = elim (Bool-cases (verify_autostart matches exec home t)) [
    | inl v ↦ rw (drop_lines-seen t, v) (drop_lines-os t)
    | inr v ↦ rw (drop_lines-seen t, v) (sym (others-unseen t v))
  ]

-- Assigning adds the line once, if none matches; revoking leaves the lines that do not match. After
-- the one the start is verified, after the other it is not, and revoking after assigning comes to
-- revoking alone. The line that is added matches the pattern.
pub autostart-eq :
    (matches : String → String → String → Bool) (exec home : String) (t : List String)
    → matches exec home (reboot_line exec home) ≡ true
    → let assigned = assign_autostart matches exec home t in
      let revoked = revoke_autostart matches exec home t in
      (assigned
        ≡ (if verify_autostart matches exec home t then t else t ++ (reboot_line exec home ∷ [])))
      × (revoked ≡ others matches exec home t)
      × (verify_autostart matches exec home assigned ≡ true)
      × (verify_autostart matches exec home revoked ≡ false)
      × (revoke_autostart matches exec home assigned ≡ revoked)
autostart-eq matches exec home t m = (
  assign-eq matches exec home t,
  revoke-eq matches exec home t,
  elim (Bool-cases (verify_autostart matches exec home t)) [
    | inl v ↦ rw (assign-eq matches exec home t, v) v
    | inr v ↦
        rw (assign-eq matches exec home t, v)
          (verify_autostart-add matches exec home t (reboot_line exec home) m)
  ],
  rw (revoke-eq matches exec home t) (verify_autostart-others matches exec home t),
  elim (Bool-cases (verify_autostart matches exec home t)) [
    | inl v ↦ rw (assign-eq matches exec home t, v) refl
    | inr v ↦
        rw
          (
            assign-eq matches exec home t,
            v,
            revoke-eq matches exec home (t ++ (reboot_line exec home ∷ [])),
            revoke-eq matches exec home t,
          )
          (others-add matches exec home t (reboot_line exec home) m)
  ],
)
