-- ===== src/Governance.antt =====
-- cognitive/governance.py: `ProposalGovernor`, the admission control of generated proposals. Keys
-- and targets are strings. Cycles are counted from the first `admit`.
pub mod Invariant
pub mod Window
pub mod Bench
pub mod Spec
use trading_control.Prelude.{
  ℕ, suc, ◌+◌, Bool, true, false, none, some, List, [], ◌∷◌, ◌++◌, String, str_eq, length, any, ltb,
  leb, if◌then◌else◌,
}
use trading_control.Prelude.Dict.{Dict, get, put, get_or}

pub data Reason : Type 0 where
  admitted blocked_quota blocked_duplicate blocked_cooldown : Reason

-- The reasons under which `_blocked` counts.
abbrev pub reason_name : Reason → String
reason_name admitted = "admitted"
reason_name blocked_quota = "quota_exceeded"
reason_name blocked_duplicate = "duplicate"
reason_name blocked_cooldown = "cooldown"

pub record Admit : Type 0 where
  pub cycle : ℕ
  pub key : String

pub record Governor : Type 0 where
  pub quota : ℕ
  pub window : ℕ
  pub cooldown : ℕ
  pub cycle : ℕ
  -- oldest first
  pub admits : List Admit
  -- the cycle at which the bench of a target ends
  pub cooldowns : Dict ℕ
  pub blocked : Dict ℕ

-- What the governor reads of a proposal: its target, and its `_key`.
pub record Candidate : Type 0 where
  pub target : String
  pub key : String

abbrev pub fresh : ℕ → ℕ → ℕ → Governor
fresh quota window cooldown = record {
  quota = quota;
  window = window;
  cooldown = cooldown;
  cycle = 0;
  admits = [];
  cooldowns = [];
  blocked = [];
}

-- `while self._admitted and self._admitted[0].cycle <= self._cycle - self.window: popleft()`.
-- The difference may be negative in the source, so the window is added on the other side.
unfoldable pub expire : ℕ → ℕ → List Admit → List Admit
expire window now [] = []
expire window now (a ∷ rest) =
    if leb (a.cycle + window) now then expire window now rest else a ∷ rest

unfoldable pub benched : Governor → String → ℕ → Bool
unfolding get
benched g target now = elim (get target g.cooldowns) [ none ↦ false | some ends ↦ ltb now ends ]

unfoldable pub has_key : String → List Admit → Bool
has_key key = any λ (a : Admit). str_eq a.key key

-- `self._blocked[reason] = self._blocked.get(reason, 0) + 1`
pub tally : Dict ℕ → Reason → Dict ℕ
unfolding get_or put
tally counts reason = put (reason_name reason) (get_or (reason_name reason) 0 counts + 1) counts

pub block : Governor → Reason → Governor × Bool × Reason
block g reason = (record g { blocked = tally g.blocked reason }, false, reason)

unfoldable pub admit : Governor → Candidate → Governor × Bool × Reason
unfolding expire benched has_key block
admit g p =
    let now = g.cycle + 1 in
    let live = expire g.window now g.admits in
    let g' = record g { cycle = now; admits = live } in
    if benched g p.target now
    then block g' blocked_cooldown
    else if has_key p.key live
    then block g' blocked_duplicate
    else if leb g.quota (length live)
    then block g' blocked_quota
    else (record g' { admits = live ++ (record { cycle = now; key = p.key } ∷ []) }, true, admitted)

pub record_outcome : Governor → Candidate → Bool → Governor
unfolding put
record_outcome g p approved =
    if approved then g else record g { cooldowns = put p.target (g.cycle + g.cooldown) g.cooldowns }

-- A run of the governor: the calls that the loop makes of it, in order.
pub data Call : Type 0 where
  propose : Candidate → Call
  outcome : Candidate → Bool → Call

unfoldable pub call : Governor → Call → Governor
call g (propose p) = (admit g p).0
call g (outcome p approved) = record_outcome g p approved

unfoldable pub run : Governor → List Call → Governor
run g [] = g
run g (c ∷ cs) = run (call g c) cs

-- How many of the calls are `admit`, and how many of them admit.
abbrev pub proposals : List Call → ℕ
proposals [] = 0
proposals (propose p ∷ cs) = suc (proposals cs)
proposals (outcome p approved ∷ cs) = proposals cs

abbrev pub one_if : Bool → ℕ
one_if true = 1
one_if false = 0

unfoldable pub admissions : Governor → List Call → ℕ
admissions g [] = 0
admissions g (propose p ∷ cs) = one_if (admit g p).1 + admissions (admit g p).0 cs
admissions g (outcome p approved ∷ cs) = admissions (record_outcome g p approved) cs
