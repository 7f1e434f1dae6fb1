-- ===== src/Governance/Spec.antt =====
-- The governor against a specification that never forgets an admission.
use trading_control.Prelude.{
  ℕ, ◌+◌, ◌≤◌, ◌<◌, ◌≡◌, refl, ap, Bool, true, false, List, [], ◌∷◌, ◌++◌, arith, length, keep,
  Bool-cases, ltb, leb, if◌then◌else◌, inl, inr,
}
use trading_control.Prelude.Dict.{Dict, put}
use trading_control.Governance.{
  Reason, admitted, blocked_quota, blocked_duplicate, blocked_cooldown, Admit, Governor, Candidate,
  Call, propose, outcome, expire, benched, has_key, tally, admit, record_outcome, fresh,
}
use trading_control.Governance.Invariant.{Ordered, Ordered-weaken, Ordered-append}

-- The whole history of admissions, oldest first, in place of the deque.
pub record History : Type 0 where
  pub quota : ℕ
  pub window : ℕ
  pub cooldown : ℕ
  pub cycle : ℕ
  pub log : List Admit
  pub cooldowns : Dict ℕ
  pub blocked : Dict ℕ

-- The admissions of the last `window` cycles.
abbrev pub in_window : ℕ → ℕ → Admit → Bool
in_window window now a = ltb now (a.cycle + window)

-- The deque that stands for a history: what the window leaves of it.
abbrev pub forget : History → Governor
forget h = record {
  quota = h.quota;
  window = h.window;
  cooldown = h.cooldown;
  cycle = h.cycle;
  admits = keep (in_window h.window h.cycle) h.log;
  cooldowns = h.cooldowns;
  blocked = h.blocked;
}

-- The verdict on a proposal by the admissions in the window, read off the history.
pub verdict : History → Candidate → Reason
verdict h p =
    let now = h.cycle + 1 in
    let seen = keep (in_window h.window now) h.log in
    if benched (forget h) p.target now
    then blocked_cooldown
    else if has_key p.key seen
    then blocked_duplicate
    else if leb h.quota (length seen)
    then blocked_quota
    else admitted

-- An admission is written to the history, a refusal is counted.
pub enter : History → Candidate → Reason → History
enter h p admitted = record h {
  cycle = h.cycle + 1;
  log = h.log ++ (record { cycle = h.cycle + 1; key = p.key } ∷ []);
}
enter h p r = record h { cycle = h.cycle + 1; blocked = tally h.blocked r }

pub settle : History → Candidate → Bool → History
settle h p approved =
    if approved then h else record h { cooldowns = put p.target (h.cycle + h.cooldown) h.cooldowns }

abbrev pub blank : ℕ → ℕ → ℕ → History
blank quota window cooldown = record {
  quota = quota;
  window = window;
  cooldown = cooldown;
  cycle = 0;
  log = [];
  cooldowns = [];
  blocked = [];
}

-- The answers of a run of calls, by the governor and by the specification.
pub answers : Governor → List Call → List Reason
answers g [] = []
answers g (propose p ∷ cs) = (admit g p).2 ∷ answers (admit g p).0 cs
answers g (outcome p approved ∷ cs) = answers (record_outcome g p approved) cs

pub verdicts : History → List Call → List Reason
verdicts h [] = []
verdicts h (propose p ∷ cs) = verdict h p ∷ verdicts (enter h p (verdict h p)) cs
verdicts h (outcome p approved ∷ cs) = verdicts (settle h p approved) cs

-- On admissions in order, to drop the expired from the front is to keep those in the window.
keep_all :
    (low window now n : ℕ) (as' : List Admit)
    → Ordered low now as'
    → n < low + window
    → keep (in_window window n) as' ≡ as'
keep_all low window now n [] o h = refl
keep_all low window now n (a ∷ rest) o h = ground (arith, keep_all a.cycle window now n rest o.2)

expire-eq-keep :
    (low window now n : ℕ) (as' : List Admit)
    → Ordered low now as'
    → expire window n as' ≡ keep (in_window window n) as'
unfolding expire
expire-eq-keep low window now n [] o = refl
expire-eq-keep low window now n (a ∷ rest) o =
    ground
      (arith, expire-eq-keep a.cycle window now n rest o.2, keep_all a.cycle window now n rest o.2)

expire-keep :
    (low window now m n : ℕ) (as' : List Admit)
    → m ≤ n
    → Ordered low now as'
    → expire window n (keep (in_window window m) as') ≡ keep (in_window window n) as'
unfolding expire
expire-keep low window now m n [] h o = refl
expire-keep low window now m n (a ∷ rest) h o = ground (
  arith,
  expire-keep a.cycle window now m n rest h o.2,
  keep_all a.cycle window now n rest o.2,
  keep_all a.cycle window now m rest o.2,
)

keep-append :
    (window now : ℕ) (as' : List Admit) (a : Admit)
    → now < a.cycle + window
    → keep (in_window window now) (as' ++ (a ∷ [])) ≡ keep (in_window window now) as' ++ (a ∷ [])
keep-append window now [] a h = ground arith
keep-append window now (b ∷ rest) a h = ground (arith, keep-append window now rest a h)

-- The admissions of the history are in order, and a window has at least one cycle.
pub record IsOrdered (h : History) : Type 0 where
  pub in_order : Ordered 0 h.cycle h.log
  pub window_pos : 0 < h.window

abbrev Agrees : Candidate → History → Governor × Bool × Reason → Reason → Type 0
Agrees p h answer r = (answer.0 ≡ forget (enter h p r)) × (answer.2 ≡ r)

admit-forget :
    (h : History) (p : Candidate) → IsOrdered h → Agrees p h (admit (forget h) p) (verdict h p)
unfolding admit verdict enter
admit-forget h p o =
    let live =
      expire-keep 0 h.window h.cycle h.cycle (h.cycle + 1) h.log (omega arith) o.in_order in
    let seen = keep (in_window h.window (h.cycle + 1)) h.log in
    let new : Admit = record { cycle = h.cycle + 1; key = p.key } in
    let w = o.window_pos in
    elim (Bool-cases (benched (forget h) p.target (h.cycle + 1))) [
      | inl bench ↦ rw (live, bench) (refl, refl)
      | inr bench ↦ elim (Bool-cases (has_key p.key seen)) [
        | inl dup ↦ rw (live, bench, dup) (refl, refl)
        | inr dup ↦ elim (Bool-cases (leb h.quota (length seen))) [
          | inl full ↦ rw (live, bench, dup, full) (refl, refl)
          | inr room ↦
              rw
                (live, bench, dup, room, keep-append h.window (h.cycle + 1) h.log new (omega arith))
                (refl, refl)
        ]
      ]
    ]

enter-IsOrdered : (h : History) (p : Candidate) (r : Reason) → IsOrdered h → IsOrdered (enter h p r)
unfolding enter
enter-IsOrdered h p admitted o = record {
  in_order = Ordered-append 0 h.cycle h.log p.key (omega arith) o.in_order;
  window_pos = o.window_pos;
}
enter-IsOrdered h p r o = record {
  in_order = Ordered-weaken 0 0 h.cycle (h.cycle + 1) h.log (omega arith) (omega arith) o.in_order;
  window_pos = o.window_pos;
}

answers-forget :
    (h : History) (cs : List Call) → IsOrdered h → answers (forget h) cs ≡ verdicts h cs
unfolding answers verdicts settle record_outcome
answers-forget h [] o = refl
answers-forget h (propose p ∷ cs) o =
    let r = verdict h p in
    let agree = admit-forget h p o in
    rw (agree.0, agree.1)
      (ap (λ rest. r ∷ rest) (answers-forget (enter h p r) cs (enter-IsOrdered h p r o)))
answers-forget h (outcome p true ∷ cs) o = answers-forget h cs o
answers-forget h (outcome p false ∷ cs) o =
    answers-forget (settle h p false) cs
      (unfold settle in (record { in_order = o.in_order; window_pos = o.window_pos }))

-- With a window of at least one cycle, a fresh governor answers every sequence of calls as the
-- specification that keeps the whole history and looks at the admissions of the last `window`
-- cycles.
pub answers-fresh :
    (quota window cooldown : ℕ) (cs : List Call)
    → 0 < window
    → answers (fresh quota window cooldown) cs ≡ verdicts (blank quota window cooldown) cs
answers-fresh quota window cooldown cs h =
    answers-forget (blank quota window cooldown) cs (record { in_order = tt; window_pos = h })
