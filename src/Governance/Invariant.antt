-- ===== src/Governance/Invariant.antt =====
-- The well-formed states of the governor, and that every call keeps them.
use trading_control.Prelude.{
  ℕ, ◌+◌, ◌≤◌, ◌<◌, ◌≡◌, ◌⊎◌, refl, Bool, true, false, List, [], ◌∷◌, ◌++◌, String, str_eq, arith,
  eq_iff, length, length-append, Bool-cases, leb, if◌then◌else◌, inl, inr,
}
use trading_control.Prelude.Dict.{Dict}
use trading_control.Governance.{
  Reason, admitted, blocked_quota, blocked_duplicate, blocked_cooldown, Admit, Governor, Candidate,
  Call, propose, outcome, expire, benched, has_key, tally, admit, record_outcome, call, run, fresh,
}

-- Admissions in order of their cycles, the first one after `low`, and none after `now`.
abbrev pub Ordered : ℕ → ℕ → List Admit → Type 0
Ordered low now [] = Unit {0}
Ordered low now (a ∷ rest) = (low < a.cycle) × (a.cycle ≤ now) × Ordered a.cycle now rest

-- No two admissions of one key.
abbrev pub Distinct : List Admit → Type 0
Distinct [] = Unit {0}
Distinct (a ∷ rest) = (has_key a.key rest ≡ false) × Distinct rest

pub record IsValid (g : Governor) : Type 0 where
  pub ordered : Ordered 0 g.cycle g.admits
  pub distinct : Distinct g.admits
  pub within_quota : length g.admits ≤ g.quota

pub Ordered-weaken :
    (low low' now now' : ℕ) (as' : List Admit)
    → low' ≤ low
    → now ≤ now'
    → Ordered low now as'
    → Ordered low' now' as'
Ordered-weaken low low' now now' [] h k o = tt
Ordered-weaken low low' now now' (a ∷ rest) h k o =
    (omega arith, omega arith, Ordered-weaken a.cycle a.cycle now now' rest (omega arith) k o.2)

Ordered-expire :
    (low window now n : ℕ) (as' : List Admit)
    → Ordered low now as'
    → Ordered low now (expire window n as')
unfolding expire
Ordered-expire low window now n [] o = tt
Ordered-expire low window now n (a ∷ rest) o = elim (Bool-cases (leb (a.cycle + window) n)) [
  | inl old ↦ rw old (
      Ordered-weaken a.cycle low now now (expire window n rest) (omega arith) (omega arith)
        (Ordered-expire a.cycle window now n rest o.2))
  | inr live ↦ rw live o
]

pub Ordered-append :
    (low now : ℕ) (as' : List Admit) (key : String)
    → low ≤ now
    → Ordered low now as'
    → Ordered low (now + 1) (as' ++ (record { cycle = now + 1; key = key } ∷ []))
Ordered-append low now [] key h o = (omega arith, omega arith, tt)
Ordered-append low now (a ∷ rest) key h o =
    (o.0, omega arith, Ordered-append a.cycle now rest key o.1 o.2)

Distinct-expire : (window n : ℕ) (as' : List Admit) → Distinct as' → Distinct (expire window n as')
unfolding expire
Distinct-expire window n [] d = tt
Distinct-expire window n (a ∷ rest) d = elim (Bool-cases (leb (a.cycle + window) n)) [
  | inl old ↦ rw old (Distinct-expire window n rest d.1)
  | inr live ↦ rw live d
]

pub has_key-append :
    (k : String) (as' : List Admit) (a : Admit)
    → has_key k (as' ++ (a ∷ [])) ≡ (if str_eq a.key k then true else has_key k as')
unfolding has_key
has_key-append k [] a = ground arith
has_key-append k (b ∷ rest) a = ground (arith, has_key-append k rest a)

Distinct-append :
    (as' : List Admit) (a : Admit)
    → has_key a.key as' ≡ false
    → Distinct as'
    → Distinct (as' ++ (a ∷ []))
unfolding has_key
Distinct-append [] a new d = (refl, tt)
Distinct-append (b ∷ rest) a new d = (
  ground (arith, has_key-append b.key rest a, eq_iff b.key a.key, eq_iff a.key b.key),
  Distinct-append rest a (ground arith) d.1,
)

pub length-expire : (window n : ℕ) (as' : List Admit) → length (expire window n as') ≤ length as'
unfolding expire
length-expire window n [] = omega arith
length-expire window n (a ∷ rest) = ground (arith, length-expire window n rest)

-- The state in which `admit` makes its tests: one cycle on, with the old admissions expired.
abbrev pub advance : Governor → Governor
advance g = record g { cycle = g.cycle + 1; admits = expire g.window (g.cycle + 1) g.admits }

advance-IsValid : (g : Governor) → IsValid g → IsValid (advance g)
advance-IsValid g v = record {
  ordered =
      Ordered-weaken 0 0 g.cycle (g.cycle + 1) (expire g.window (g.cycle + 1) g.admits)
        (omega arith) (omega arith)
        (Ordered-expire 0 g.window g.cycle (g.cycle + 1) g.admits v.ordered);
  distinct = Distinct-expire g.window (g.cycle + 1) g.admits v.distinct;
  within_quota = omega (arith, v.within_quota, length-expire g.window (g.cycle + 1) g.admits);
}

-- What `admit` leaves behind when it refuses, and when it admits.
abbrev pub refused : Governor → Dict ℕ → Governor
refused g counts = record (advance g) { blocked = counts }

abbrev pub extended : Governor → Candidate → Governor
extended g p = record (advance g) {
  admits = (advance g).admits ++ (record { cycle = g.cycle + 1; key = p.key } ∷ []);
}

abbrev pub Refuses : Governor → Candidate → Type 0
Refuses g p = (counts : Dict ℕ) × (r : Reason) × (admit g p ≡ (refused g counts, false, r))

abbrev pub Admits : Governor → Candidate → Type 0
Admits g p =
    (benched g p.target (g.cycle + 1) ≡ false)
    × (has_key p.key (advance g).admits ≡ false)
    × (length (advance g).admits < g.quota)
    × (admit g p ≡ (extended g p, true, admitted))

-- The three tests of `admit`, split once for all proofs.
pub admit_cases : (g : Governor) (p : Candidate) → Refuses g p ⊎ Admits g p
unfolding admit
admit_cases g p = elim (Bool-cases (benched g p.target (g.cycle + 1))) [
  | inl bench ↦ inl (tally g.blocked blocked_cooldown, blocked_cooldown, rw bench refl)
  | inr bench ↦ elim (Bool-cases (has_key p.key (advance g).admits)) [
    | inl dup ↦ inl (tally g.blocked blocked_duplicate, blocked_duplicate, rw (bench, dup) refl)
    | inr dup ↦ elim (Bool-cases (leb g.quota (length (advance g).admits))) [
      | inl full ↦ inl (tally g.blocked blocked_quota, blocked_quota, rw (bench, dup, full) refl)
      | inr room ↦ inr (bench, dup, ground arith, rw (bench, dup, room) refl)
    ]
  ]
]

-- Every `admit`, whatever it answers, keeps the governor well formed: the admissions in the order
-- of their cycles, no key twice, and no more of them than the quota.
pub admit-IsValid : (g : Governor) (p : Candidate) → IsValid g → IsValid (admit g p).0
admit-IsValid g p v =
    let w = advance-IsValid g v in
    elim (admit_cases g p) [
      | inl (counts, r, e) ↦
          rw e
            (record { ordered = w.ordered; distinct = w.distinct; within_quota = w.within_quota })
      | inr (bench, dup, room, e) ↦
          let live = (advance g).admits in
          let new : Admit = record { cycle = g.cycle + 1; key = p.key } in
          rw e (record {
            ordered =
                Ordered-append 0 g.cycle live p.key (omega arith)
                  (Ordered-expire 0 g.window g.cycle (g.cycle + 1) g.admits v.ordered);
            distinct = Distinct-append live new dup w.distinct;
            within_quota = omega (arith, length-append live (new ∷ []));
          })
    ]

record_outcome-IsValid :
    (g : Governor) (p : Candidate) (approved : Bool)
    → IsValid g
    → IsValid (record_outcome g p approved)
unfolding record_outcome
record_outcome-IsValid g p true v = v
record_outcome-IsValid g p false v = record {
  ordered = v.ordered;
  distinct = v.distinct;
  within_quota = v.within_quota;
}

pub call-IsValid : (g : Governor) (c : Call) → IsValid g → IsValid (call g c)
unfolding call
call-IsValid g (propose p) v = admit-IsValid g p v
call-IsValid g (outcome p approved) v = record_outcome-IsValid g p approved v

-- Whatever the calls of a run, the governor stays well formed.
pub run-IsValid : (g : Governor) (cs : List Call) → IsValid g → IsValid (run g cs)
unfolding run
run-IsValid g [] v = v
run-IsValid g (c ∷ cs) v = run-IsValid (call g c) cs (call-IsValid g c v)

pub fresh-IsValid : (quota window cooldown : ℕ) → IsValid (fresh quota window cooldown)
fresh-IsValid quota window cooldown = record {
  ordered = tt;
  distinct = tt;
  within_quota = omega arith;
}
