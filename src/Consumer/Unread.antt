-- ===== src/Consumer/Unread.antt =====
-- A message that `_handle_message` cannot look at.
use trading_control.Json.Members.{member-with_member}
use trading_control.Prelude.{
  ◌≡◌, refl, ap, ◌∙◌, true, false, none, some, List, [], ◌∷◌, String, str_eq, Bool-cases, inl, inr,
  arith, eq_iff, Option-cases, ◌⊎◌,
}
use trading_control.Prelude.Dict.{get, get_or}
use trading_control.Json.{Fields, member, Items, arr, obj, text}
use trading_control.Consumer.{
  Queues, Attempt, accepted, with_id, handle_message, handle, Delivery, delivered, reclaimed,
  deliver, deliver_all,
}
use trading_control.Consumer.Settled.{undelivered}
use trading_control.Consumer.Others.{Same, delivered-Same, reclaimed-Same}

module _ {W : Type 0} where
  -- The schema version is a list or an object.
  abbrev pub IsUnhashable : Fields W → Type 0
  IsUnhashable data' =
      ((xs : Items W) × (member "schema_version" data' ≡ some (arr xs)))
      ⊎ ((fs : Fields W) × (member "schema_version" data' ≡ some (obj fs)))

  schema_version-with_id :
      (id : String) (data' : Fields W)
      → member "schema_version" (with_id id data') ≡ member "schema_version" data'
  unfolding with_id
  schema_version-with_id id data' = elim (Option-cases (member "msg_id" data')) [
    | inl m ↦ rw (m, with_id) (member-with_member "msg_id" "schema_version" (text id) data')
    | inr (v, m) ↦ rw (m, with_id) refl
  ]

  accepted-with_id :
      (id : String) (data' : Fields W)
      → IsUnhashable data'
      → accepted (member "schema_version" (with_id id data')) ≡ none
  unfolding accepted
  accepted-with_id id data' (inl (xs, e)) = rw (schema_version-with_id id data', e) refl
  accepted-with_id id data' (inr (fs, e)) = rw (schema_version-with_id id data', e) refl

  handle-unread :
      (attempt : Attempt) (id : String) (data' : Fields W) (q : Queues W)
      → IsUnhashable data'
      → handle attempt id data' q ≡ q
  unfolding handle handle_message
  handle-unread attempt id data' q e = rw (accepted-with_id id data' e, handle, handle_message) refl

  -- Neither the message itself nor another one that is claimed again changes anything of it.
  reclaimed-unread :
      (id j : String) (data' : Fields W) (attempt : Attempt) (q : Queues W)
      → IsUnhashable data'
      → get id q.pending ≡ some data'
      → Same id q (deliver q (reclaimed j attempt))
  unfolding deliver
  reclaimed-unread id j data' attempt q e g = elim (Bool-cases (str_eq j id)) [
    | inr other ↦ reclaimed-Same id j attempt q other
    | inl own ↦
        let own_get = ap (λ (k : String). get k q.pending) ((eq_iff j id).0 own) ∙ g in
        let h : handle attempt j data' q ≡ q = handle-unread attempt j data' q e in
        rw (own_get, deliver, h) (refl, refl, refl, refl)
  ]

  -- A pending message whose schema version is a list or an object is pending for ever, its retries are
  -- never counted and nothing is ever put under its id in the dead-letter queue, since each attempt
  -- raises before that, whatever happens to the group, as long as it is not read as a new message again.
  pub deliver_all-unread :
      (id : String) (data' : Fields W) (ds : List (Delivery W)) (q : Queues W)
      → IsUnhashable data'
      → undelivered id ds ≡ true
      → get id q.pending ≡ some data'
      → let q' = deliver_all q ds in
        (get id q'.pending ≡ some data')
        × (get_or id 0 q'.retries ≡ get_or id 0 q.retries)
        × (get id q'.letters ≡ get id q.letters)
  unfolding deliver_all
  deliver_all-unread id data' [] q e u g = (g, refl, refl)
  deliver_all-unread id data' (delivered j data'' attempt ∷ ds) q e u g =
      let other : str_eq j id ≡ false = ground (arith, u) in
      let (a, b, c, d) = delivered-Same id j data'' attempt q other in
      let (x, y, z) =
        deliver_all-unread id data' ds (deliver q (delivered j data'' attempt)) e
          (ground (arith, u)) (a ∙ g) in
      (x, y ∙ b, z ∙ d)
  deliver_all-unread id data' (reclaimed j attempt ∷ ds) q e u g =
      let (a, b, c, d) = reclaimed-unread id j data' attempt q e g in
      let (x, y, z) =
        deliver_all-unread id data' ds (deliver q (reclaimed j attempt)) e u (a ∙ g) in
      (x, y ∙ b, z ∙ d)
