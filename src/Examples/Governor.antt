-- ===== src/Examples/Governor.antt =====
-- The proposal governor of cognitive/governance.py on short runs.
use trading_control.Prelude.{◌≤◌, ◌≡◌, refl, true, false, List, [], ◌∷◌, arith}
use trading_control.Governance.{
  blocked_cooldown, Governor, Candidate, Call, propose, outcome, admit, record_outcome, run,
  admissions, fresh,
}
use trading_control.Governance.Invariant.{fresh-IsValid}
use trading_control.Governance.Window.{admissions-le-quota}
use trading_control.Governance.Spec.{answers, verdicts, blank, answers-fresh}
use trading_control.Governance.Bench.{admit-record_outcome}

abbrev governor : Governor
governor = fresh 3 10 5

abbrev news : Candidate
news = record { target = "weights.news"; key = "weights.news=0.3775" }

abbrev tech : Candidate
tech = record { target = "weights.tech"; key = "weights.tech=0.3675" }

abbrev calls : List Call
calls = propose news ∷ outcome news true ∷ propose tech ∷ propose news ∷ outcome tech false ∷ []

admissions-le-quota_example : admissions governor calls ≤ 3
admissions-le-quota_example =
    admissions-le-quota governor calls (fresh-IsValid 3 10 5) (omega arith)

answers-fresh_example : answers (fresh 3 10 5) calls ≡ verdicts (blank 3 10 5) calls
answers-fresh_example = answers-fresh 3 10 5 calls (omega arith)

admit-record_outcome_example :
    ((admit (run (record_outcome governor tech false) (propose news ∷ [])) tech).1 ≡ false)
    × ((admit (run (record_outcome governor tech false) (propose news ∷ [])) tech).2
        ≡ blocked_cooldown)
admit-record_outcome_example =
    admit-record_outcome governor tech tech (propose news ∷ []) refl (omega arith)
