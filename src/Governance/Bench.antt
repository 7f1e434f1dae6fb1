-- ===== src/Governance/Bench.antt =====
-- The bench of a rejected target, and the duplicate test, over any run of calls.
use mathlib.Core.Bool.{false≢true}
use trading_control.Prelude.{
  ℕ, ◌+◌, ◌≤◌, ◌<◌, ◌≡◌, refl, Bool, true, false, ◌&&◌, some, List, [], ◌∷◌, ◌++◌, String, str_eq,
  arith, eq_iff, Bool-cases, ◌||◌, leb, inl, inr,
}
use trading_control.Prelude.Dict.{get, get-put}
use trading_control.Governance.{
  Admit, Governor, Candidate, Call, propose, outcome, blocked_cooldown, expire, has_key, admit,
  record_outcome, call, run, proposals,
}
use trading_control.Governance.Invariant.{admit_cases, advance}
use trading_control.Governance.Window.{cycle-admit, window-admit, cycle-run, window-run}

-- The target is benched at least until the cycle `until`.
abbrev BenchedTo : Governor → String → ℕ → Type 0
BenchedTo g target until = (ends : ℕ) × (get target g.cooldowns ≡ some ends) × (until ≤ ends)

cooldowns-admit : (g : Governor) (p : Candidate) → (admit g p).0.cooldowns ≡ g.cooldowns
cooldowns-admit g p = elim (admit_cases g p) [
  | inl (counts, r, e) ↦ rw e refl
  | inr (bench, dup, room, e) ↦ rw e refl
]

cooldown-admit : (g : Governor) (p : Candidate) → (admit g p).0.cooldown ≡ g.cooldown
cooldown-admit g p = elim (admit_cases g p) [
  | inl (counts, r, e) ↦ rw e refl
  | inr (bench, dup, room, e) ↦ rw e refl
]

BenchedTo-run :
    (g : Governor) (cs : List Call) (target : String) (until : ℕ)
    → until ≤ g.cycle + g.cooldown
    → BenchedTo g target until
    → BenchedTo (run g cs) target until
unfolding run call record_outcome
BenchedTo-run g [] target until h b = b
BenchedTo-run g (propose p ∷ cs) target until h b =
    BenchedTo-run (admit g p).0 cs target until (omega (arith, cycle-admit g p, cooldown-admit g p))
      (b.0, rw (cooldowns-admit g p) b.1, b.2)
BenchedTo-run g (outcome p true ∷ cs) target until h b = BenchedTo-run g cs target until h b
BenchedTo-run g (outcome p false ∷ cs) target until h (ends, e, k) =
    BenchedTo-run (record_outcome g p false) cs target until h
      (elim (Bool-cases (str_eq p.target target)) [
        | inl same ↦ (g.cycle + g.cooldown, rw (get-put p.target target, same) refl, h)
        | inr other ↦ (ends, rw (get-put p.target target, other) e, k)
      ])

-- A bench that has not ended refuses the target, whatever else the state holds.
admit-benched :
    (g : Governor) (p : Candidate) {ends : ℕ}
    → get p.target g.cooldowns ≡ some ends
    → g.cycle + 1 < ends
    → ((admit g p).1 ≡ false) × ((admit g p).2 ≡ blocked_cooldown)
unfolding admit
admit-benched g p e h = ground arith

-- After a rejection, every proposal of that target in the next `cooldown - 1` cycles is refused as
-- benched, whatever calls stand in between.
pub admit-record_outcome :
    (g : Governor) (p q : Candidate) (cs : List Call)
    → q.target ≡ p.target
    → proposals cs + 1 < g.cooldown
    → let answer = admit (run (record_outcome g p false) cs) q in
      (answer.1 ≡ false) × (answer.2 ≡ blocked_cooldown)
unfolding record_outcome
admit-record_outcome g p q cs same h =
    let start = record_outcome g p false in
    let (ends, e, k) = BenchedTo-run start cs q.target (g.cycle + g.cooldown) (omega arith) (
      g.cycle + g.cooldown,
      rw (get-put p.target q.target) (ground (arith, eq_iff p.target q.target)),
      omega arith,
    ) in
    admit-benched (run start cs) q e (omega (arith, cycle-run start cs))

-- Some live admission of the key came at the cycle `start` or later.
holds_since : ℕ → String → List Admit → Bool
holds_since start key [] = false
holds_since start key (a ∷ rest) =
    (str_eq a.key key && leb start a.cycle) || holds_since start key rest

has_key-of-holds_since :
    (start : ℕ) (key : String) (as' : List Admit)
    → holds_since start key as' ≡ true
    → has_key key as' ≡ true
unfolding holds_since has_key
has_key-of-holds_since start key [] h = cc
has_key-of-holds_since start key (a ∷ rest) h =
    ground (arith, has_key-of-holds_since start key rest)

holds_since-expire :
    (start window now : ℕ) (key : String) (as' : List Admit)
    → now < start + window
    → holds_since start key as' ≡ true
    → holds_since start key (expire window now as') ≡ true
unfolding holds_since expire
holds_since-expire start window now key [] h k = cc
holds_since-expire start window now key (a ∷ rest) h k =
    ground (arith, holds_since-expire start window now key rest h)

holds_since-append :
    (start : ℕ) (key : String) (as' bs : List Admit)
    → holds_since start key as' ≡ true
    → holds_since start key (as' ++ bs) ≡ true
unfolding holds_since
holds_since-append start key [] bs h = cc
holds_since-append start key (a ∷ rest) bs h = ground (arith, holds_since-append start key rest bs)

holds_since-last :
    (start : ℕ) (key : String) (as' : List Admit)
    → holds_since start key (as' ++ (record { cycle = start; key = key } ∷ [])) ≡ true
unfolding holds_since
holds_since-last start key [] = ground (arith, eq_iff key key)
holds_since-last start key (a ∷ rest) = ground (arith, holds_since-last start key rest)

holds_since-admit :
    (start : ℕ) (key : String) (g : Governor) (p : Candidate)
    → g.cycle + 1 < start + g.window
    → holds_since start key g.admits ≡ true
    → holds_since start key (admit g p).0.admits ≡ true
holds_since-admit start key g p h k =
    let live = holds_since-expire start g.window (g.cycle + 1) key g.admits h k in
    elim (admit_cases g p) [
      | inl (counts, r, e) ↦ rw e live
      | inr (bench, dup, room, e) ↦ rw e (
          holds_since-append start key (advance g).admits
            (record { cycle = g.cycle + 1; key = p.key } ∷ []) live)
    ]

holds_since-run :
    (start : ℕ) (key : String) (g : Governor) (cs : List Call)
    → g.cycle + proposals cs < start + g.window
    → holds_since start key g.admits ≡ true
    → holds_since start key (run g cs).admits ≡ true
unfolding run call record_outcome
holds_since-run start key g [] h k = k
holds_since-run start key g (propose p ∷ cs) h k =
    holds_since-run start key (admit g p).0 cs (omega (arith, cycle-admit g p, window-admit g p))
      (holds_since-admit start key g p (omega arith) k)
holds_since-run start key g (outcome p true ∷ cs) h k = holds_since-run start key g cs h k
holds_since-run start key g (outcome p false ∷ cs) h k =
    holds_since-run start key (record_outcome g p false) cs h k

admit-has_key :
    (g : Governor) (p : Candidate) → has_key p.key (advance g).admits ≡ true → (admit g p).1 ≡ false
admit-has_key g p h = elim (admit_cases g p) [
  | inl (counts, r, e) ↦ rw e refl
  | inr (bench, dup, room, e) ↦ cc
]

holds_since-admitted :
    (g : Governor) (p : Candidate)
    → (admit g p).1 ≡ true
    → holds_since (g.cycle + 1) p.key (admit g p).0.admits ≡ true
holds_since-admitted g p ok = elim (admit_cases g p) [
  | inl (counts, r, e) ↦ absurd (false≢true (rw e at ok))
  | inr (bench, dup, room, e) ↦ rw e (holds_since-last (g.cycle + 1) p.key (advance g).admits)
]

-- After a proposal is admitted, the next `window - 1` cycles refuse every proposal of the same key,
-- whatever calls stand in between.
pub admit-admit :
    (g : Governor) (p q : Candidate) (cs : List Call)
    → (admit g p).1 ≡ true
    → q.key ≡ p.key
    → proposals cs + 1 < g.window
    → (admit (run (admit g p).0 cs) q).1 ≡ false
admit-admit g p q cs ok same h =
    let g' = (admit g p).0 in
    let held =
      holds_since-run (g.cycle + 1) p.key g' cs (omega (arith, cycle-admit g p, window-admit g p))
        (holds_since-admitted g p ok) in
    let end = run g' cs in
    let live =
      holds_since-expire (g.cycle + 1) end.window (end.cycle + 1) p.key end.admits
        (omega (arith, cycle-run g' cs, window-run g' cs, cycle-admit g p, window-admit g p))
        held in
    admit-has_key end q
      (rw same (has_key-of-holds_since (g.cycle + 1) p.key (advance end).admits live))
