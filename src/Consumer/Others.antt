-- ===== src/Consumer/Others.antt =====
-- What the handling of one message leaves alone of another.
use trading_control.Prelude.{
  ℕ, ◌+◌, ◌≡◌, refl, ◌∙◌, true, false, none, [], ◌∷◌, String, str_eq, any, Bool-cases, Option-cases,
  inl, inr, arith, eq_iff, if◌then◌else◌,
}
use trading_control.Prelude.Dict.{Dict, get, put, get_or, get-put, get_or-put}
use trading_control.Json.{Fields, member}
use trading_control.Consumer.{
  Queues, Letter, Reach, silent, counts, pushes, answers, Attempt, returns, raises, reach_of,
  remove, accepted, with_id, acknowledge, push, should_dlq, dead_letter, fail, settle, refuse,
  handle_message, handle, or_as_before, delivered, reclaimed, deliver,
}

pub get-remove :
    {V : Type 0} (k j : String) (m : Dict V)
    → get j (remove k m) ≡ (if str_eq k j then none else get j m)
unfolding remove get
get-remove k j [] = ground (arith)
get-remove k j ((i, v) ∷ m) = ground (arith, eq_iff k j, eq_iff k i, eq_iff i j, get-remove k j m)

module _ {W : Type 0} where
  -- What another message leaves alone.
  abbrev pub Same : String → Queues W → Queues W → Type 0
  Same id q q' =
      (get id q'.pending ≡ get id q.pending)
      × (get_or id 0 q'.retries ≡ get_or id 0 q.retries)
      × (any (str_eq id) q'.processed ≡ any (str_eq id) q.processed)
      × (get id q'.letters ≡ get id q.letters)

  Same-trans : (id : String) (q r s : Queues W) → Same id q r → Same id r s → Same id q s
  Same-trans id q r s (a, b, c, d) (x, y, z, w) = (x ∙ a, y ∙ b, z ∙ c, w ∙ d)

  acknowledge-Same :
      (reach : Reach) (id j : String) (q : Queues W)
      → str_eq j id ≡ false
      → Same id q (acknowledge reach j q)
  unfolding acknowledge
  acknowledge-Same answers id j q h = (get-remove j id q.pending ∙ rw h refl, refl, refl, refl)
  acknowledge-Same silent id j q h = (refl, refl, refl, refl)
  acknowledge-Same counts id j q h = (refl, refl, refl, refl)
  acknowledge-Same pushes id j q h = (refl, refl, refl, refl)

  push-Same :
      (id j : String) (payload : Fields W) (n : ℕ) (q : Queues W)
      → str_eq j id ≡ false
      → Same id q (push j payload n q)
  unfolding push
  push-Same id j payload n q h =
      let letter : Letter W = record { event_id = j; payload = payload; retries = n } in
      (refl, refl, refl, get-put j id letter q.letters ∙ rw h refl)

  dead_letter-Same :
      (reach : Reach) (id j : String) (payload : Fields W) (n : ℕ) (q : Queues W)
      → str_eq j id ≡ false
      → Same id q (dead_letter reach j payload n q)
  unfolding dead_letter
  dead_letter-Same silent id j payload n q h = (refl, refl, refl, refl)
  dead_letter-Same counts id j payload n q h = (refl, refl, refl, refl)
  dead_letter-Same pushes id j payload n q h = push-Same id j payload n q h
  dead_letter-Same answers id j payload n q h =
      let q1 = push j payload n q in
      Same-trans id q q1 (acknowledge answers j q1) (push-Same id j payload n q h)
        (acknowledge-Same answers id j q1 h)

  should_dlq-Same :
      (id j : String) (q : Queues W) → str_eq j id ≡ false → Same id q (should_dlq j q).0
  unfolding should_dlq
  should_dlq-Same id j q h =
      (refl, get_or-put j id 0 (get_or j 0 q.retries + 1) q.retries ∙ rw h refl, refl, refl)

  counted-Same :
      (reach : Reach) (id j : String) (payload : Fields W) (q : Queues W)
      → str_eq j id ≡ false
      → let (q', retries, send_to_dlq) = should_dlq j q in
        Same id q (if send_to_dlq then dead_letter reach j payload retries q' else q')
  counted-Same reach id j payload q h = elim (Bool-cases (should_dlq j q).2) [
    | inr e ↦ rw e (should_dlq-Same id j q h)
    | inl e ↦
        let q1 = (should_dlq j q).0 in
        let n = (should_dlq j q).1 in
        rw e (
          Same-trans id q q1 (dead_letter reach j payload n q1) (should_dlq-Same id j q h)
            (dead_letter-Same reach id j payload n q1 h))
  ]

  fail-Same :
      (reach : Reach) (id j : String) (payload : Fields W) (q : Queues W)
      → str_eq j id ≡ false
      → Same id q (fail reach j payload q)
  unfolding fail
  fail-Same silent id j payload q h = (refl, refl, refl, refl)
  fail-Same counts id j payload q h = counted-Same counts id j payload q h
  fail-Same pushes id j payload q h = counted-Same pushes id j payload q h
  fail-Same answers id j payload q h = counted-Same answers id j payload q h

  settle-Same :
      (attempt : Attempt) (id j : String) (payload : Fields W) (q : Queues W)
      → str_eq j id ≡ false
      → Same id q (settle attempt j payload q)
  unfolding settle
  settle-Same (returns reach) id j payload q h =
      let q1 : Queues W = record q { processed = j ∷ q.processed } in
      Same-trans id q q1 (acknowledge reach j q1)
        (refl, refl, ground (arith, h, eq_iff id j, eq_iff j id), refl)
        (acknowledge-Same reach id j q1 h)
  settle-Same (raises reach) id j payload q h = fail-Same reach id j payload q h

  -- What is left where a call may have raised.
  refuse-Same :
      (reach : Reach) (id j : String) (payload : Fields W) (q : Queues W)
      → str_eq j id ≡ false
      → Same id q (or_as_before q (refuse reach j payload q))
  unfolding refuse
  refuse-Same silent id j payload q h = (refl, refl, refl, refl)
  refuse-Same counts id j payload q h = (refl, refl, refl, refl)
  refuse-Same pushes id j payload q h = dead_letter-Same pushes id j payload 0 q h
  refuse-Same answers id j payload q h = dead_letter-Same answers id j payload 0 q h

  handle-Same :
      (attempt : Attempt) (id j : String) (data' : Fields W) (q : Queues W)
      → str_eq j id ≡ false
      → Same id q (handle attempt j data' q)
  unfolding handle handle_message
  handle-Same attempt id j data' q h =
      let payload = with_id j data' in
      elim (Option-cases (accepted (member "schema_version" payload))) [
        | inl e ↦ rw (e, handle, handle_message) (refl, refl, refl, refl)
        | inr (true, e) ↦ rw (e, handle, handle_message) (settle-Same attempt id j payload q h)
        | inr (false, e) ↦
            rw (e, handle, handle_message) (refuse-Same (reach_of attempt) id j payload q h)
      ]

  pub delivered-Same :
      (id j : String) (data' : Fields W) (attempt : Attempt) (q : Queues W)
      → str_eq j id ≡ false
      → Same id q (deliver q (delivered j data' attempt))
  unfolding deliver
  delivered-Same id j data' attempt q h =
      let q1 : Queues W = record q { pending = put j data' q.pending } in
      Same-trans id q q1 (handle attempt j data' q1)
        (get-put j id data' q.pending ∙ rw h refl, refl, refl, refl)
        (handle-Same attempt id j data' q1 h)

  pub reclaimed-Same :
      (id j : String) (attempt : Attempt) (q : Queues W)
      → str_eq j id ≡ false
      → Same id q (deliver q (reclaimed j attempt))
  unfolding deliver
  reclaimed-Same id j attempt q h = elim (Option-cases (get j q.pending)) [
    | inl e ↦ rw (e, deliver) (refl, refl, refl, refl)
    | inr (data', e) ↦ rw (e, deliver) (handle-Same attempt id j data' q h)
  ]
