-- ===== src/Backend/Message/RoundTrip/Payload.antt =====
-- The payload of a message: which key holds it, and whether it is an array or one object
-- (the `switch` of `push_message` and the tests of `pull_message` in src/backend/message.cpp).
use webpier.Base.{
  ◌∙◌, ◌>>=◌, eq_iff, Bool-cases, is_empty, ◌≢◌, eq_refl, ◌==◌, String, true, false, List, [], ◌∷◌,
  map, ◌≡◌, refl, ok, ◌⊎◌, inl, inr,
}
use webpier.Ptree.{PropertyTree, is_name, is_plain}
use webpier.Backend.Message.{
  Health, Report, Content, error, handle, health, report, healths, reports,
}
use webpier.Backend.Message.Codec.{
  of_handle, of_health, of_report, to_report, push_all, put_content, to_content, is_list,
}
use webpier.Backend.Message.RoundTrip.Items.{
  IsContent, to_handle-of_handle, of_health-HasHealth, to_health-HasHealth, children-push_all_empty,
  healths_back, get_child_or-put_child, to_report-of_report, reports_back,
}

module _ (lib : PropertyTree) where
  open lib use {
    Tree, empty, put, put_child, push_back, value?, child?, children, has, has-put, has-put_child,
    has-push_back, children-put, children-put_child, has-empty, of_int, to_int?, write, value-put,
    value-put_child_ne, child-put_child, children-empty, children-push_back, to_int-of_int,
  }

  -- What is under a key of the document, and what is not.
  no_other :
      (j v : String)
      → is_plain j ≡ true
      → ("action" == j) ≡ false
      → has j (put "action" v empty) ≡ false
  no_other j v p e = rw (has-put "action" j v empty refl p, e, has-empty j)

  no_other_child :
      (k j v : String) (c : Tree)
      → is_name k ≡ true
      → is_plain j ≡ true
      → ("action" == j) ≡ false
      → (k == j) ≡ false
      → has j (put_child k c (put "action" v empty)) ≡ false
  no_other_child k j v c n p e d = rw (has-put_child k j c _ n p, d, no_other j v p e)

  the_child :
      (k v : String) (c : Tree)
      → is_name k ≡ true
      → is_plain k ≡ true
      → has k (put_child k c (put "action" v empty)) ≡ true
  the_child k v c n p = rw (has-put_child k k c _ n p, eq_refl k)

  has-push_all : (cs : List Tree) (t : Tree) → has "" t ≡ true → has "" (push_all lib cs t) ≡ true
  has-push_all [] t h = h
  has-push_all (c ∷ cs) t h = has-push_all cs (push_back c t) (has-push_back c t)

  is_list_of :
      (t : Tree) (cs : List Tree)
      → children t ≡ cs
      → (cs ≡ []) ⊎ (has "" t ≡ true)
      → is_list lib t ≡ true
  is_list_of t [] e h = rw (e, is_list)
  is_list_of t (c ∷ cs) e (inl h) = cc
  is_list_of t (c ∷ cs) e (inr h) = rw (e, is_list) h

  is_list-push_all : (cs : List Tree) → is_list lib (push_all lib cs empty) ≡ true
  is_list-push_all [] = is_list_of empty [] children-empty (inl refl)
  is_list-push_all (c ∷ cs) =
      is_list_of _ (c ∷ cs) (children-push_all_empty lib (c ∷ cs))
        (inr (has-push_all cs (push_back c empty) (has-push_back c empty)))

  not_list_of :
      (t : Tree) (cs : List Tree)
      → children t ≡ cs
      → children t ≢ []
      → has "" t ≡ false
      → is_list lib t ≡ false
  not_list_of t [] e n h = absurd (n e)
  not_list_of t (c ∷ cs) e n h = rw (e, is_list) h

  has_none-of_health : (h : Health) → has "" (of_health lib h) ≡ false
  unfolding of_health
  has_none-of_health h = simp (
    has-put "message" "" h.message _ refl refl,
    has-put "state" "" _ _ refl refl,
    has-put "service" "" h.service _ refl refl,
    has-put "pier" "" h.pier _ refl refl,
    has-empty "",
  )

  not_list-of_health : (h : Health) → is_list lib (of_health lib h) ≡ false
  unfolding of_health
  not_list-of_health h =
      not_list_of (of_health lib h) _ refl (children-put "message" h.message _ refl)
        (has_none-of_health h)

  not_list-of_report : (r : Report) → is_list lib (of_report lib r) ≡ false
  unfolding of_report
  not_list-of_report r =
      not_list_of (of_report lib r) _ refl (children-put_child "tunnels" _ _ refl)
        (rw (has-put_child "tunnels" "" _ _ refl refl, has_none-of_health r.health))

  to_content-put_error :
      (e v : String)
      → to_content lib (put_content lib (error e) (put "action" v empty)) ≡ ok (error e)
  unfolding to_content put_content
  to_content-put_error e v = elim (Bool-cases (is_empty e)) [
    | inl t ↦ simp (
      no_other "error" v refl refl,
      no_other "handle" v refl refl,
      no_other "health" v refl refl,
      no_other "report" v refl refl,
      (eq_iff e "").0 t,
    )
    | inr f ↦ simp (
      f,
      has-put "error" "error" e (put "action" v empty) refl refl,
      value-put "error" "error" e (put "action" v empty) refl refl,
    )
  ]

  -- One report is read under its key, whatever becomes of it.
  pub to_content-put_report :
      (x : Report) (v : String)
      → to_content lib (put_content lib (report x) (put "action" v empty))
        ≡ (do r ← to_report lib (of_report lib x); ok (report r))
  unfolding to_content put_content
  to_content-put_report x v =
      let c = of_report lib x in
      simp (
        no_other_child "report" "error" v c refl refl refl refl,
        no_other_child "report" "handle" v c refl refl refl refl,
        no_other_child "report" "health" v c refl refl refl refl,
        the_child "report" v c refl refl,
        get_child_or-put_child lib "report" c empty (put "action" v empty) refl,
        not_list-of_report x,
      )

  pub to_content-put_content :
      (c : Content) (v : String)
      → IsContent c
      → to_content lib (put_content lib c (put "action" v empty)) ≡ ok c
  unfolding to_content put_content
  to_content-put_content (error e) v h = to_content-put_error e v
  to_content-put_content (handle x) v h = simp (
    no_other_child "handle" "error" v (of_handle lib x) refl refl refl refl,
    the_child "handle" v (of_handle lib x) refl refl,
    child-put_child "handle" (of_handle lib x) (put "action" v empty) refl,
    to_handle-of_handle lib x,
  )
  to_content-put_content (health x) v h =
      let c = of_health lib x in
      simp (
        no_other_child "health" "error" v c refl refl refl refl,
        no_other_child "health" "handle" v c refl refl refl refl,
        the_child "health" v c refl refl,
        get_child_or-put_child lib "health" c empty (put "action" v empty) refl,
        not_list-of_health x,
        to_health-HasHealth lib c x (of_health-HasHealth lib x) h,
      )
  to_content-put_content (report x) v h =
      to_content-put_report x v ∙ simp (to_report-of_report lib x h)
  to_content-put_content (healths xs) v h =
      let items = map (of_health lib) xs in
      let c = push_all lib items empty in
      simp (
        no_other_child "health" "error" v c refl refl refl refl,
        no_other_child "health" "handle" v c refl refl refl refl,
        the_child "health" v c refl refl,
        get_child_or-put_child lib "health" c empty (put "action" v empty) refl,
        is_list-push_all items,
        children-push_all_empty lib items,
        healths_back lib xs h,
      )
  to_content-put_content (reports xs) v h =
      let items = map (of_report lib) xs in
      let c = push_all lib items empty in
      simp (
        no_other_child "report" "error" v c refl refl refl refl,
        no_other_child "report" "handle" v c refl refl refl refl,
        no_other_child "report" "health" v c refl refl refl refl,
        the_child "report" v c refl refl,
        get_child_or-put_child lib "report" c empty (put "action" v empty) refl,
        is_list-push_all items,
        children-push_all_empty lib items,
        reports_back lib xs h,
      )
