-- ===== src/Governance/Window.antt =====
-- The quota of the governor, over any run of calls.
use trading_control.Prelude.{
  ℕ, ◌+◌, ◌≤◌, ◌≡◌, refl, true, false, List, [], ◌∷◌, ◌++◌, arith, length, ltb, inl, inr,
}
use trading_control.Governance.{
  Admit, Governor, Candidate, Call, propose, outcome, expire, admit, record_outcome, call, run,
  proposals, admissions, one_if,
}
use trading_control.Governance.Invariant.{IsValid, run-IsValid, admit_cases, advance}

-- How many of the admissions came after the cycle `start`.
recent : ℕ → List Admit → ℕ
recent start [] = 0
recent start (a ∷ rest) = one_if (ltb start a.cycle) + recent start rest

recent-le-length : (start : ℕ) (as' : List Admit) → recent start as' ≤ length as'
unfolding recent
recent-le-length start [] = omega arith
recent-le-length start (a ∷ rest) = ground (arith, recent-le-length start rest)

recent-append :
    (start : ℕ) (as' : List Admit) (a : Admit)
    → recent start (as' ++ (a ∷ [])) ≡ recent start as' + one_if (ltb start a.cycle)
unfolding recent
recent-append start [] a = ground arith
recent-append start (b ∷ rest) a = omega (arith, recent-append start rest a)

-- Within one window of `start`, expiry removes no admission that came after it.
recent-expire :
    (start window now : ℕ) (as' : List Admit)
    → now ≤ start + window
    → recent start (expire window now as') ≡ recent start as'
unfolding recent expire
recent-expire start window now [] h = refl
recent-expire start window now (a ∷ rest) h = ground (arith, recent-expire start window now rest h)

pub cycle-admit : (g : Governor) (p : Candidate) → (admit g p).0.cycle ≡ g.cycle + 1
cycle-admit g p = elim (admit_cases g p) [
  | inl (counts, r, e) ↦ rw e refl
  | inr (bench, dup, room, e) ↦ rw e refl
]

pub window-admit : (g : Governor) (p : Candidate) → (admit g p).0.window ≡ g.window
window-admit g p = elim (admit_cases g p) [
  | inl (counts, r, e) ↦ rw e refl
  | inr (bench, dup, room, e) ↦ rw e refl
]

quota-admit : (g : Governor) (p : Candidate) → (admit g p).0.quota ≡ g.quota
quota-admit g p = elim (admit_cases g p) [
  | inl (counts, r, e) ↦ rw e refl
  | inr (bench, dup, room, e) ↦ rw e refl
]

pub cycle-run : (g : Governor) (cs : List Call) → (run g cs).cycle ≡ g.cycle + proposals cs
unfolding run call record_outcome
cycle-run g [] = omega arith
cycle-run g (propose p ∷ cs) = omega (arith, cycle-run (admit g p).0 cs, cycle-admit g p)
cycle-run g (outcome p true ∷ cs) = cycle-run g cs
cycle-run g (outcome p false ∷ cs) = cycle-run (record_outcome g p false) cs

pub window-run : (g : Governor) (cs : List Call) → (run g cs).window ≡ g.window
unfolding run call record_outcome
window-run g [] = refl
window-run g (propose p ∷ cs) = omega (arith, window-run (admit g p).0 cs, window-admit g p)
window-run g (outcome p true ∷ cs) = window-run g cs
window-run g (outcome p false ∷ cs) = window-run (record_outcome g p false) cs

quota-run : (g : Governor) (cs : List Call) → (run g cs).quota ≡ g.quota
unfolding run call record_outcome
quota-run g [] = refl
quota-run g (propose p ∷ cs) = omega (arith, quota-run (admit g p).0 cs, quota-admit g p)
quota-run g (outcome p true ∷ cs) = quota-run g cs
quota-run g (outcome p false ∷ cs) = quota-run (record_outcome g p false) cs

-- One `admit` within the window adds to the recent admissions what it answers.
recent-admit :
    (start : ℕ) (g : Governor) (p : Candidate)
    → start ≤ g.cycle
    → g.cycle + 1 ≤ start + g.window
    → recent start (admit g p).0.admits ≡ recent start g.admits + one_if (admit g p).1
recent-admit start g p h k =
    let live = (advance g).admits in
    let new : Admit = record { cycle = g.cycle + 1; key = p.key } in
    let same = recent-expire start g.window (g.cycle + 1) g.admits k in
    elim (admit_cases g p) [
      | inl (counts, r, e) ↦ rw e (omega (arith, same))
      | inr (bench, dup, room, e) ↦ rw e (ground (arith, same, recent-append start live new))
    ]

recent-run :
    (start : ℕ) (g : Governor) (cs : List Call)
    → start ≤ g.cycle
    → g.cycle + proposals cs ≤ start + g.window
    → recent start (run g cs).admits ≡ recent start g.admits + admissions g cs
unfolding run call admissions record_outcome
recent-run start g [] h k = omega arith
recent-run start g (propose p ∷ cs) h k = omega (
  arith,
  recent-run start (admit g p).0 cs (omega (arith, cycle-admit g p))
      (omega (arith, cycle-admit g p, window-admit g p)),
  recent-admit start g p h (omega arith),
)
recent-run start g (outcome p true ∷ cs) h k = recent-run start g cs h k
recent-run start g (outcome p false ∷ cs) h k = recent-run start (record_outcome g p false) cs h k

-- From a well-formed governor, whatever the outcomes in between, a run of at most `window`
-- proposals admits at most `quota` of them.
pub admissions-le-quota :
    (g : Governor) (cs : List Call)
    → IsValid g
    → proposals cs ≤ g.window
    → admissions g cs ≤ g.quota
admissions-le-quota g cs v h = omega (
  arith,
  recent-run g.cycle g cs (omega arith) (omega arith),
  recent-le-length g.cycle (run g cs).admits,
  (run-IsValid g cs v).within_quota,
  quota-run g cs,
)
