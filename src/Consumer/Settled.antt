-- ===== src/Consumer/Settled.antt =====
-- A message whose processing fails again and again leaves the pending ones.
use trading_control.Consumer.Others.{get-remove, Same, delivered-Same, reclaimed-Same}
use trading_control.Prelude.{
  ℕ, ◌+◌, ◌≤◌, ◌<◌, ◌≡◌, ◌⊎◌, refl, sym, ap, ◌∙◌, Bool, true, false, not, ◌&&◌, ◌||◌, Option, none,
  some, List, [], ◌∷◌, String, str_eq, leb, any, Bool-cases, inl, inr, arith, eq_iff, if◌then◌else◌,
  subst, ◌≢◌,
}
use trading_control.Prelude.Dict.{get, put, get_or, get-put, get_or-put}
use trading_control.Json.{Fields, member}
use trading_control.Consumer.{
  Queues, Letter, Reach, silent, counts, pushes, answers, Attempt, returns, raises, reach_of,
  accepted, with_id, acknowledge, push, should_dlq, dead_letter, fail, settle, refuse,
  handle_message, handle, or_as_before, Delivery, delivered, reclaimed, deliver, deliver_all,
}

abbrev pub is_there : {V : Type 0} → Option V → Bool
is_there none = false
is_there (some v) = true

-- `process` raises, and Redis answers.
abbrev pub failures_of : Attempt → ℕ
failures_of (raises answers) = 1
failures_of _ = 0

self : (id : String) → str_eq id id ≡ true
self id = (eq_iff id id).1 refl

module _ {W : Type 0} where
  -- The message is acknowledged, and it was processed or lies in the dead-letter queue.
  abbrev pub IsSettled : String → Queues W → Type 0
  IsSettled id q =
      (get id q.pending ≡ none)
      × ((any (str_eq id) q.processed || is_there (get id q.letters)) ≡ true)

  -- The message is still pending, with at least so many more failures counted. One that failed while
  -- Redis answered has not failed three times.
  abbrev Stays : String → Queues W → Queues W → ℕ → Type 0
  Stays id q q' n =
      (get id q'.pending ≡ get id q.pending)
      × (get_or id 0 q.retries + n ≤ get_or id 0 q'.retries)
      × (1 ≤ n → get_or id 0 q'.retries < 3)

  acknowledge-own : (id : String) (q : Queues W) → get id (acknowledge answers id q).pending ≡ none
  unfolding acknowledge
  acknowledge-own id q = get-remove id id q.pending ∙ rw (self id) refl

  dead_lettered :
      (id : String) (payload : Fields W) (n : ℕ) (q : Queues W)
      → IsSettled id (dead_letter answers id payload n q)
  unfolding acknowledge push dead_letter
  dead_lettered id payload n q =
      let letter : Letter W = record { event_id = id; payload = payload; retries = n } in
      (
        acknowledge-own id (push id payload n q),
        (let there : get id (put id letter q.letters) ≡ some letter =
              get-put id id letter q.letters ∙ rw (self id) refl in
            ap (λ (o : Option (Letter W)). any (str_eq id) q.processed || is_there o) there
            ∙ ground arith),
      )

  counted :
      (id : String) (q : Queues W)
      → get_or id 0 (should_dlq id q).0.retries ≡ get_or id 0 q.retries + 1
  unfolding should_dlq
  counted id q = get_or-put id id 0 (get_or id 0 q.retries + 1) q.retries ∙ rw (self id) refl

  -- A letter that is not acknowledged leaves the message pending, and the count as it is.
  dead_letter-Stays :
      (reach : Reach) (id : String) (payload : Fields W) (n : ℕ) (q : Queues W)
      → reach ≢ answers
      → (get id (dead_letter reach id payload n q).pending ≡ get id q.pending)
        × (get_or id 0 (dead_letter reach id payload n q).retries ≡ get_or id 0 q.retries)
  unfolding dead_letter push
  dead_letter-Stays silent id payload n q h = (refl, refl)
  dead_letter-Stays counts id payload n q h = (refl, refl)
  dead_letter-Stays pushes id payload n q h = (refl, refl)
  dead_letter-Stays answers id payload n q h = absurd (h refl)

  unanswered :
      (reach : Reach) (id : String) (payload : Fields W) (q : Queues W)
      → reach ≢ answers
      → let (q', retries, send_to_dlq) = should_dlq id q in
        Stays id q (if send_to_dlq then dead_letter reach id payload retries q' else q') 0
  unfolding should_dlq
  unanswered reach id payload q h = elim (Bool-cases (leb 3 (get_or id 0 q.retries + 1))) [
    | inl e ↦
        let q1 = (should_dlq id q).0 in
        let (a, b) = dead_letter-Stays reach id payload (get_or id 0 q.retries + 1) q1 h in
        let c = counted id q in rw e (a, ground (arith, b, c), ground arith)
    | inr e ↦ let c = counted id q in rw e (refl, ground (arith, c), ground arith)
  ]

  answered :
      (id : String) (payload : Fields W) (q : Queues W)
      → IsSettled id (fail answers id payload q) ⊎ Stays id q (fail answers id payload q) 1
  unfolding fail should_dlq
  answered id payload q =
      let n = get_or id 0 q.retries + 1 in
      elim (Bool-cases (leb 3 n)) [
        | inl e ↦
            inl (rw e (dead_lettered id payload n (record q { retries = put id n q.retries })))
        | inr e ↦ let c = counted id q in inr (rw e (refl, ground (arith, c), ground (arith, c, e)))
      ]

  settle-own :
      (attempt : Attempt) (id : String) (payload : Fields W) (q : Queues W)
      → IsSettled id (settle attempt id payload q)
        ⊎ Stays id q (settle attempt id payload q) (failures_of attempt)
  unfolding settle acknowledge fail
  settle-own (returns answers) id payload q =
      inl (acknowledge-own id (record q { processed = id ∷ q.processed }), ground (arith, self id))
  settle-own (returns silent) id payload q = inr (refl, omega arith, ground arith)
  settle-own (returns counts) id payload q = inr (refl, omega arith, ground arith)
  settle-own (returns pushes) id payload q = inr (refl, omega arith, ground arith)
  settle-own (raises silent) id payload q = inr (refl, omega arith, ground arith)
  settle-own (raises counts) id payload q = inr (unanswered counts id payload q (λ h. cc))
  settle-own (raises pushes) id payload q = inr (unanswered pushes id payload q (λ h. cc))
  settle-own (raises answers) id payload q = answered id payload q

  -- What is left of a message of another schema version, where a call may have raised.
  refuse-own :
      (attempt : Attempt) (id : String) (payload : Fields W) (q : Queues W)
      → let q' = or_as_before q (refuse (reach_of attempt) id payload q) in
        IsSettled id q' ⊎ Stays id q q' (failures_of attempt)
  unfolding refuse dead_letter push
  refuse-own (returns answers) id payload q = inl (dead_lettered id payload 0 q)
  refuse-own (raises answers) id payload q = inl (dead_lettered id payload 0 q)
  refuse-own (returns silent) id payload q = inr (refl, omega arith, ground arith)
  refuse-own (returns counts) id payload q = inr (refl, omega arith, ground arith)
  refuse-own (returns pushes) id payload q = inr (refl, omega arith, ground arith)
  refuse-own (raises silent) id payload q = inr (refl, omega arith, ground arith)
  refuse-own (raises counts) id payload q = inr (refl, omega arith, ground arith)
  refuse-own (raises pushes) id payload q = inr (refl, omega arith, ground arith)

  -- The schema version of a message has a hash, so that it is looked at.
  abbrev pub IsReadable : String → Fields W → Type 0
  IsReadable id data' =
      (b : Bool) × (accepted (member "schema_version" (with_id id data')) ≡ some b)

  handle-own :
      (attempt : Attempt) (id : String) (data' : Fields W) (q : Queues W)
      → IsReadable id data'
      → IsSettled id (handle attempt id data' q)
        ⊎ Stays id q (handle attempt id data' q) (failures_of attempt)
  unfolding handle handle_message
  handle-own attempt id data' q (true, e) =
      rw (e, handle, handle_message) (settle-own attempt id (with_id id data') q)
  handle-own attempt id data' q (false, e) =
      rw (e, handle, handle_message) (refuse-own attempt id (with_id id data') q)

  -- The message is not read as a new one again; Redis gives each one its own id.
  abbrev pub undelivered : String → List (Delivery W) → Bool
  undelivered id [] = true
  undelivered id (delivered j data' attempt ∷ ds) = not (str_eq j id) && undelivered id ds
  undelivered id (reclaimed j attempt ∷ ds) = undelivered id ds

  -- How often the message is claimed again and fails while Redis answers.
  abbrev pub failures : String → List (Delivery W) → ℕ
  failures id [] = 0
  failures id (delivered j data' attempt ∷ ds) = failures id ds
  failures id (reclaimed j attempt ∷ ds) =
      (if str_eq j id then failures_of attempt else 0) + failures id ds

  abbrev Tried : String → Fields W → Queues W → List (Delivery W) → Type 0
  Tried id data' q ds =
      (get id q.pending ≡ some data')
      × (1 ≤ failures id ds)
      × (3 ≤ get_or id 0 q.retries + failures id ds)

  Same-Settled : (id : String) (q q' : Queues W) → Same id q q' → IsSettled id q → IsSettled id q'
  Same-Settled id q q' (a, b, c, d) (p, s) = (a ∙ p, rw (c, d) s)

  Same-Tried :
      (id : String) (data' : Fields W) (q q' : Queues W) (ds ds' : List (Delivery W))
      → failures id ds ≡ failures id ds'
      → Same id q q'
      → Tried id data' q ds
      → Tried id data' q' ds'
  Same-Tried id data' q q' ds ds' e (a, b, c, d) (g, l, m) =
      (a ∙ g, ground (arith, e, l), ground (arith, b, e, m))

  reclaimed-own :
      (id : String) (data' : Fields W) (attempt : Attempt) (q : Queues W) (ds : List (Delivery W))
      → IsReadable id data'
      → IsSettled id q ⊎ Tried id data' q (reclaimed id attempt ∷ ds)
      → IsSettled id (deliver q (reclaimed id attempt))
        ⊎ Tried id data' (deliver q (reclaimed id attempt)) ds
  unfolding deliver
  reclaimed-own id data' attempt q ds r (inl s) = inl (rw (s.0, deliver) s)
  reclaimed-own id data' attempt q ds r (inr (g, l, m)) =
      rw (g, deliver)
        (elim (handle-own attempt id data' q r) [
          | inl s ↦ inl s
          | inr (a, b, c) ↦
              inr (a ∙ g, ground (arith, b, c, l, m, self id), ground (arith, b, l, m, self id))
        ])

  exhausted :
      (id : String) (data' : Fields W) (ds : List (Delivery W)) (q : Queues W)
      → IsReadable id data'
      → undelivered id ds ≡ true
      → IsSettled id q ⊎ Tried id data' q ds
      → IsSettled id (deliver_all q ds)
  unfolding deliver_all
  exhausted id data' [] q r u (inl s) = s
  exhausted id data' [] q r u (inr (g, l, m)) = absurd (omega arith)
  exhausted id data' (delivered j data'' attempt ∷ ds) q r u known =
      let other : str_eq j id ≡ false = ground (arith, u) in
      let left : undelivered id ds ≡ true = ground (arith, u) in
      let q' = deliver q (delivered j data'' attempt) in
      let same = delivered-Same id j data'' attempt q other in
      exhausted id data' ds q' r left (elim known [
        | inl s ↦ inl (Same-Settled id q q' same s)
        | inr t ↦ inr (Same-Tried id data' q q' (delivered j data'' attempt ∷ ds) ds refl same t)
      ])
  exhausted id data' (reclaimed j attempt ∷ ds) q r u known = elim (Bool-cases (str_eq j id)) [
    | inl own ↦
        let e = (eq_iff j id).0 own in
        subst (λ (k : String). IsSettled id (deliver_all (deliver q (reclaimed k attempt)) ds))
          (sym e)
          (exhausted id data' ds (deliver q (reclaimed id attempt)) r u (
            reclaimed-own id data' attempt q ds r (
              subst (λ (k : String). IsSettled id q ⊎ Tried id data' q (reclaimed k attempt ∷ ds)) e
                known)))
    | inr other ↦
        let q' = deliver q (reclaimed j attempt) in
        let same = reclaimed-Same id j attempt q other in
        exhausted id data' ds q' r u (elim known [
          | inl s ↦ inl (Same-Settled id q q' same s)
          | inr t ↦ inr (
              Same-Tried id data' q q' (reclaimed j attempt ∷ ds) ds (rw other (omega arith)) same
                t)
        ])
  ]

  -- A pending message that is claimed again and fails while Redis answers, at least once and so often
  -- that there are three failures with those counted before, is pending no more, whatever happens to it
  -- and to other messages besides, lost acknowledgements and failed pushes included: it was processed,
  -- or it lies in the dead-letter queue. Its schema version must have a hash, and it is not read as a
  -- new message again.
  pub deliver_all-IsSettled :
      (id : String) (data' : Fields W) (ds : List (Delivery W)) (q : Queues W)
      → IsReadable id data'
      → undelivered id ds ≡ true
      → get id q.pending ≡ some data'
      → 1 ≤ failures id ds
      → 3 ≤ get_or id 0 q.retries + failures id ds
      → IsSettled id (deliver_all q ds)
  deliver_all-IsSettled id data' ds q r u g l m = exhausted id data' ds q r u (inr (g, l, m))
