-- ===== src/Backend/Message/RoundTrip/Document.antt =====
-- Every tree that src/backend/message.cpp builds is one that JSON represents.
use webpier.Base.{
  Bool-cases, is_empty, ◌==◌, String, true, false, List, [], ◌∷◌, map, ◌≡◌, refl, All, ◌⊎◌, inl,
  inr,
}
use webpier.Ptree.{PropertyTree, is_name, is_plain}
use webpier.Backend.Message.{
  Handle, Health, Tunnel, Report, Content, error, handle, health, report, healths, reports, Message,
}
use webpier.Backend.Message.Codec.{
  of_command, of_handle, of_health, of_tunnel, of_report, push_all, put_content, of_message,
}

module _ (lib : PropertyTree) where
  open lib use {
    Tree, empty, put, put_child, push_back, has, of_int, has-put, has-put_child, has-empty,
    IsObject, IsArray, empty-IsObject, empty-IsArray, put-IsObject, put_child-IsObject,
    push_back-IsArray,
  }

  pub push_all-IsArray :
      (cs : List Tree) (t : Tree) → All IsObject cs → IsArray t → IsArray (push_all lib cs t)
  push_all-IsArray [] t h a = a
  push_all-IsArray (c ∷ cs) t h a =
      push_all-IsArray cs (push_back c t) h.1 (push_back-IsArray c t h.0 a)

  pub map-IsObject {ℓ} :
      {A : Type ℓ} (f : A → Tree)
      → ((a : A) → IsObject (f a))
      → (xs : List A) → All IsObject (map f xs)
  map-IsObject f h [] = tt
  map-IsObject f h (x ∷ xs) = (h x, map-IsObject f h xs)

  of_handle-IsObject : (h : Handle) → IsObject (of_handle lib h)
  unfolding of_handle
  of_handle-IsObject h =
      put-IsObject "service" h.service _ refl
        (rw (has-put "pier" "service" h.pier empty refl refl, has-empty "service"))
        (put-IsObject "pier" h.pier empty refl (has-empty "pier") empty-IsObject)

  of_health-IsObject : (h : Health) → IsObject (of_health lib h)
  unfolding of_health
  of_health-IsObject h =
      put-IsObject "message" h.message _ refl
        (simp (
          has-put "state" "message" _ _ refl refl,
          has-put "service" "message" h.service _ refl refl,
          has-put "pier" "message" h.pier _ refl refl,
          has-empty "message",
        ))
        (put-IsObject "state" _ _ refl
          (simp (
            has-put "service" "state" h.service _ refl refl,
            has-put "pier" "state" h.pier _ refl refl,
            has-empty "state",
          ))
          (unfold of_handle in of_handle-IsObject h.handle))

  of_tunnel-IsObject : (t : Tunnel) → IsObject (of_tunnel lib t)
  unfolding of_tunnel
  of_tunnel-IsObject t =
      put-IsObject "pier" t.pier _ refl
        (rw (has-put "pid" "pier" _ empty refl refl, has-empty "pier"))
        (put-IsObject "pid" _ empty refl (has-empty "pid") empty-IsObject)

  of_report-IsObject : (r : Report) → IsObject (of_report lib r)
  unfolding of_report of_health
  of_report-IsObject r =
      put_child-IsObject "tunnels" _ _ refl
        (simp (
          has-put "message" "tunnels" r.message _ refl refl,
          has-put "state" "tunnels" _ _ refl refl,
          has-put "service" "tunnels" r.service _ refl refl,
          has-put "pier" "tunnels" r.pier _ refl refl,
          has-empty "tunnels",
        ))
        (inr (
          push_all-IsArray _ empty (map-IsObject (of_tunnel lib) of_tunnel-IsObject r.tunnels)
            empty-IsArray))
        (of_health-IsObject r.health)

  action-IsObject : (v : String) → IsObject (put "action" v empty)
  action-IsObject v = put-IsObject "action" v empty refl (has-empty "action") empty-IsObject

  below_action :
      (k v : String) (c : Tree)
      → is_name k ≡ true
      → is_plain k ≡ true
      → ("action" == k) ≡ false
      → IsObject c ⊎ IsArray c
      → IsObject (put_child k c (put "action" v empty))
  below_action k v c n p e h =
      put_child-IsObject k c _ n (rw (has-put "action" k v empty refl p, e, has-empty k)) h
        (action-IsObject v)

  put_content-IsObject :
      (c : Content) (v : String) → IsObject (put_content lib c (put "action" v empty))
  unfolding put_content
  put_content-IsObject (error e) v = elim (Bool-cases (is_empty e)) [
    | inl t ↦ rw t (action-IsObject v)
    | inr f ↦ rw f (
        put-IsObject "error" e _ refl
          (rw (has-put "action" "error" v empty refl refl, has-empty "error")) (action-IsObject v))
  ]
  put_content-IsObject (handle x) v =
      below_action "handle" v _ refl refl refl (inl (of_handle-IsObject x))
  put_content-IsObject (health x) v =
      below_action "health" v _ refl refl refl (inl (of_health-IsObject x))
  put_content-IsObject (report x) v =
      below_action "report" v _ refl refl refl (inl (of_report-IsObject x))
  put_content-IsObject (healths xs) v = below_action "health" v _ refl refl refl (
      inr (
        push_all-IsArray _ empty (map-IsObject (of_health lib) of_health-IsObject xs)
          empty-IsArray))
  put_content-IsObject (reports xs) v = below_action "report" v _ refl refl refl (
      inr (
        push_all-IsArray _ empty (map-IsObject (of_report lib) of_report-IsObject xs)
          empty-IsArray))

  pub of_message-IsObject : (m : Message) → IsObject (of_message lib m)
  unfolding of_message
  of_message-IsObject m = put_content-IsObject m.payload (of_int (of_command m.action))
