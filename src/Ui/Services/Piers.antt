-- ===== src/Ui/Services/Piers.antt =====
-- `AddPier`, `DelPier` and `HasPier` of `ServiceImpl` in src/ui/context.cpp.
use webpier.Base.{
  String, true, false, List, [], ◌∷◌, ◌++◌, ◌≡◌, refl, inl, inr, arith, ◌==◌, ◌&&◌, ◌||◌, not,
  is_empty, Bool-cases, eq_iff, eq_refl,
}
use webpier.Store.Types.{Service}
use webpier.Ui.Services.{has, remove, add_pier, del_pier, has_pier}

has-add :
    (q pier : String) (ps : List String) → has q (ps ++ (pier ∷ [])) ≡ ((q == pier) || has q ps)
unfolding has
has-add q pier [] = ground (arith, eq_iff q pier, eq_iff pier q)
has-add q pier (p ∷ ps) = ground (arith, has-add q pier ps)

has-remove :
    (q pier : String) (ps : List String) → (q == pier) ≡ false → has q (remove pier ps) ≡ has q ps
unfolding has remove
has-remove q pier [] n = refl
has-remove q pier (p ∷ ps) n =
    ground (arith, has-remove q pier ps n, eq_iff q pier, eq_iff p q, eq_iff p pier)

known :
    (q pier : String) (ps : List String) → has pier ps ≡ true → has q ps ≡ ((q == pier) || has q ps)
known q pier ps h = elim (Bool-cases (q == pier)) [
  | inl e ↦ rw ((eq_iff q pier).0 e, h, eq_refl pier) refl
  | inr e ↦ rw e refl
]

unknown :
    (q pier : String) (ps : List String)
    → has pier ps ≡ false
    → has q ps ≡ (not (q == pier) && has q ps)
unknown q pier ps h = elim (Bool-cases (q == pier)) [
  | inl e ↦ rw ((eq_iff q pier).0 e, h, eq_refl pier) refl
  | inr e ↦ rw e refl
]

module _ (split : String → List String) (join : List String → String) where
  -- After `AddPier` the service has the pier, and otherwise the piers that it had, if it is one to
  -- export, and none if it is an import; after `DelPier` it has the piers that it had but that one. The
  -- text of the changed list is split into that list, an exported service lists the pier once at
  -- most, and the pier that is asked for has a name.
  pub has_pier-eq :
      (q pier : String) (s : Service)
      → split (join (split s.pier ++ (pier ∷ []))) ≡ split s.pier ++ (pier ∷ [])
      → split (join (remove pier (split s.pier))) ≡ remove pier (split s.pier)
      → has pier (remove pier (split s.pier)) ≡ false
      → is_empty q ≡ false
      → (has_pier split join q (add_pier split join pier s)
          ≡ ((q == pier) || (s.local && has_pier split join q s)))
        × (has_pier split join q (del_pier split join pier s)
            ≡ (not (q == pier) && has_pier split join q s))
  unfolding has_pier add_pier del_pier
  has_pier-eq q pier s added removed once named = elim (Bool-cases s.local) [
    | inl l ↦ (
      elim (Bool-cases (has pier (split s.pier))) [
        | inl h ↦ simp (l, h) (known q pier (split s.pier) h)
        | inr h ↦ simp (l, h, added, has-add q pier (split s.pier))
      ],
      elim (Bool-cases (has pier (split s.pier))) [
        | inl h ↦ elim (Bool-cases (q == pier)) [
          | inl e ↦
              let same : has q (remove pier (split s.pier)) ≡ false =
                rw ((eq_iff q pier).0 e) once in
              simp (l, h, removed, e, same)
          | inr e ↦ simp (l, h, removed, e, has-remove q pier (split s.pier) e)
        ]
        | inr h ↦ simp (l, h) (unknown q pier (split s.pier) h)
      ],
    )
    | inr l ↦ (
      simp l (ground arith),
      elim (Bool-cases (pier == s.pier)) [
        | inl h ↦
            simp (l, h, named) (ground (arith, eq_iff pier s.pier, eq_iff q s.pier, eq_iff q pier))
        | inr h ↦ simp (l, h) (ground (arith, eq_iff pier s.pier, eq_iff q s.pier, eq_iff q pier))
      ],
    )
  ]
