-- ===== src/Examples/Gates.antt =====
-- The promotion gate and the circuit breaker on a registry whose first version is live and whose
-- second one is a canary.
use trading_control.Prelude.Options.{some-inj}
use trading_control.Prelude.Dict.{Dict, get, put, get-put_same, get-put_other}
use trading_control.CircuitBreaker.Trips.{check-run, Breached, Trips}
use trading_control.CircuitBreaker.{Redis, IsStore, BreakerInputs, check}
use trading_control.Promotion.Gate.{evaluate-run, Clears, Legal, Promoted}
use trading_control.Promotion.{PromotionDecision, evaluate as gate_evaluate}
use trading_control.Strategies.{Registry, run, empty, live}
use trading_control.Examples.Registry.{hash, two}
use trading_control.Prelude.{
  ◌≡◌, ◌↔◌, refl, true, false, some, List, [], ◌∷◌, String, ap, sym, ◌∙◌, arith, eq_iff,
}
use trading_control.Prelude.Int.{ℤ, pos, negsuc}
use trading_control.Float.{dec}
use trading_control.Float.Fixed.{fixed}
use trading_control.Json.{Fields, end, field, num, text}
use trading_control.Replay.{ReplayMetrics, replay, floats_of, compute_learning_metrics}

abbrev trade : ℤ → ℤ → Fields ℤ
trade pnl pct = field "side" (text "sell") (
    field "pnl" (num pnl)
      (field "pnl_percent" (num pct) (field "slippage_bps" (num (dec 1 0)) end)))

abbrev champion_trades : List (Fields ℤ)
champion_trades = trade (dec 10 0) (dec 1 0) ∷ trade (negsuc 4999999999999) (dec 1 0) ∷ []

abbrev win : Fields ℤ
win = trade (dec 20 0) (dec 2 0)

abbrev candidate_trades : List (Fields ℤ)
candidate_trades =
    win ∷ win ∷ win ∷ win ∷ win ∷ win ∷ win ∷ win ∷ win ∷ trade (dec 10 0) (dec 1 0) ∷ []

abbrev champion : ReplayMetrics ℤ
champion = record {
  trade_count = 2;
  total_pnl = dec 5 0;
  win_rate = dec 5 1;
  avg_return = dec 1 0;
  sharpe_ratio = dec 0 0;
  max_drawdown = dec 0 0;
  false_positive_rate = dec 5 1;
  avg_slippage_bps = dec 1 0;
}

abbrev candidate : ReplayMetrics ℤ
candidate = record {
  trade_count = 10;
  total_pnl = dec 190 0;
  win_rate = dec 1 0;
  avg_return = dec 19 1;
  sharpe_ratio = dec 953792 4;
  max_drawdown = dec 0 0;
  false_positive_rate = dec 0 0;
  avg_slippage_bps = dec 1 0;
}

champion_replay : replay champion_trades ≡ some champion
unfolding replay compute_learning_metrics floats_of
champion_replay = refl

candidate_replay : replay candidate_trades ≡ some candidate
unfolding replay compute_learning_metrics floats_of
candidate_replay = refl

evaluate-run_example :
    let r = run hash empty two in
    (out : Registry ℤ × PromotionDecision ℤ) × (gate_evaluate "v2-h" champion_trades
        candidate_trades live
        (pos 6)
        (pos 6)
        r
      ≡ some out)
    × ((out.1.approved ≡ true) ↔ Clears champion candidate)
    × ((out.1.transitioned ≡ true) ↔ ((out.1.approved ≡ true) × Legal r "v2-h" live))
    × (out.1.transitioned ≡ false → out.0 ≡ r)
    × (out.1.transitioned ≡ true → Promoted r "v2-h" live out.0)
evaluate-run_example =
    evaluate-run hash two "v2-h" live (pos 6) (pos 6) champion_trades candidate_trades champion
      candidate champion_replay candidate_replay

-- A store that takes every write.
instance abbrev dict_redis : Redis (Dict String)
dict_redis = record { set = λ k v s. some (put k v s); get = get }

dict_redis-IsStore : IsStore (Dict String)
dict_redis-IsStore = record {
  get-set = λ k v s t h.
      ap (get k) (sym (some-inj h)) ∙ get-put_same k k v s (ground (arith, eq_iff k k));
  get-set_other = λ k j v s t h other.
      ap (get j) (sym (some-inj h)) ∙ get-put_other k j v s (ground (arith, eq_iff k j));
}

abbrev inputs : BreakerInputs ℤ
inputs = record {
  drawdown_pct = dec 2 1;
  consecutive_failures = pos 0;
  divergence_score = dec 0 0;
  latency_ms = dec 100 0;
}

check-run_example :
    let r = run hash empty two in
    let (out, decision) = check {S = Dict String} "now" (pos 6) (pos 6) inputs [] r in
    ((decision.tripped ≡ true) ↔ Breached inputs)
    × (Breached inputs → Trips "now" [] r out)
    × ((Breached inputs → ⊥) → (out.done ≡ true) × (out.store ≡ []) × (out.registry ≡ r))
check-run_example = check-run dict_redis-IsStore hash two "now" (pos 6) (pos 6) inputs []
