-- ===== src/Examples/Trades.antt =====
-- Trades closed, graded and learnt from, and a backtest.
use trading_control.Prelude.{
  ℕ, ◌+◌, ◌*◌, ◌≤◌, ◌≡◌, refl, true, none, some, List, [], ◌∷◌, String, All, length, arith, map,
}
use trading_control.Prelude.Dict.{get}
use trading_control.Prelude.Int.{ℤ, pos}
use trading_control.Float.{◌≼◌, dec}
use trading_control.Float.Fixed.{fixed}
use trading_control.Float.FixedLaws.{fixed-IsOrdered}
use trading_control.Backtest.{opening, bars, close_out}
use trading_control.Backtest.Trades.{final_book}
use trading_control.Backtest.WalkForward.{segments, walk_forward}
use trading_control.Backtest.WalkForward.Folds.{cut, IsLong, walk_forward_covers, judged, piece}
use trading_control.Grading.{Stats}
use trading_control.Learning.{PerSignal, Attribution, SignalAcc, no_trades}
use trading_control.Learning.Importance.{Trades, update_all, hits, update_all-counts}
use trading_control.Counterfactual.{counterfactual}
use trading_control.Counterfactual.Regret.{regret-nonnegative}
use trading_control.Drift.{DriftMonitor, register}
use trading_control.Drift.Series.{last_of, observe_all, get-observe_all-register}
use trading_control.Examples.Configs.{fx, config}

-- A random source that always draws one half.
abbrev pub uniform : ℕ → ℕ → ℤ
uniform seed n = dec 5 1

abbrev pub prices : List ℤ
prices = dec 100 0 ∷ dec 104 0 ∷ dec 103 0 ∷ dec 107 0 ∷ dec 110 0 ∷ []

final_book_example :
    let b =
      close_out uniform 7 prices
        (bars uniform 7 config (dec 95 2) none [] prices (opening (dec 1000 0))) in
    (length b.trade_pnls ≤ b.signals)
    × (b.signals ≤ 5)
    × (b.losing ≤ length b.trade_pnls)
    × (b.draws ≡ 2 * length b.trade_pnls)
    × (length b.equity_curve ≡ 5)
final_book_example = final_book uniform 7 config none (dec 1000 0) (dec 95 2) prices

walk_forward_covers_example :
    (cut prices (segments 5 2 2 0) ≡ prices)
    × All IsLong (segments 5 2 2 0)
    × (length (segments 5 2 2 0) ≡ 2)
    × ((walk_forward uniform prices config config 2 none 7).folds
        ≡ judged uniform config config 7 (map (piece prices none) (segments 5 2 2 0)))
walk_forward_covers_example =
    walk_forward_covers uniform prices config config 2 none 7 (omega arith) (omega arith)

abbrev attribution : Attribution ℤ
attribution = record {
  contributions = record { news = dec 2 1; tech = dec 1 1; macro = dec 0 0 };
  shares = record { news = dec 6 1; tech = dec 3 1; macro = dec 0 0 };
  pnl_attribution = record { news = dec 3 0; tech = dec 1 0; macro = dec 0 0 };
  realized_pnl = dec 5 0;
}

abbrev trades : Trades ℤ
trades = (attribution, pos 1) ∷ (attribution, pos 0) ∷ []

abbrev accs : PerSignal (SignalAcc ℤ)
accs = no_trades

update_all-counts_example :
    let r = update_all accs trades in
    ((r.news.samples ≡ 0 + length trades)
      × (r.tech.samples ≡ 0 + length trades)
      × (r.macro.samples ≡ 0 + length trades))
    × ((r.news.correct ≡ 0 + hits (λ (d : PerSignal ℤ). d.news) trades)
        × (r.tech.correct ≡ 0 + hits (λ (d : PerSignal ℤ). d.tech) trades)
        × (r.macro.correct ≡ 0 + hits (λ (d : PerSignal ℤ). d.macro) trades))
update_all-counts_example = update_all-counts accs trades

abbrev stats_of : ℕ → ℤ → Stats ℤ
stats_of samples rate = record {
  samples = samples;
  avg_abs_contribution = dec 1 1;
  total_pnl_attribution = dec 4 0;
  correct_rate = rate;
}

abbrev stats : PerSignal (Stats ℤ)
stats = record {
  news = stats_of 40 (dec 7 1);
  tech = stats_of 40 (dec 3 1);
  macro = stats_of 9 (dec 9 1);
}

regret-nonnegative_example :
    let r = counterfactual "hold" (fx 2 0) "buy" in
    (All (λ (e : String × ℤ). e.1 ≼ e.1) r.alternatives
      → All (λ (e : String × ℤ). e.1 ≼ r.best_pnl_pct) r.alternatives
        × (r.chosen_pnl_pct ≼ r.best_pnl_pct)
        × (r.regret_pct ≼ r.regret_pct → fx 0 0 ≼ r.regret_pct))
    × ((counterfactual "buy" (fx 2 0) "buy").chosen_pnl_pct ≡ fixed.round 6 (fx 2 0))
    × ((counterfactual "sell" (fx 2 0) "sell").chosen_pnl_pct ≡ fixed.round 6 (fx 2 0))
regret-nonnegative_example = regret-nonnegative fixed-IsOrdered "hold" (fx 2 0) "buy"

abbrev monitor : DriftMonitor ℤ
monitor = record { window = 1; min_samples = 1; metrics = [] }

get-observe_all-register_example :
    let after =
      observe_all
        (register monitor "direction_correct" true (dec 15 2))
        "direction_correct"
        prices in
    (get "direction_correct" after.metrics
      ≡ some (record {
        spec = record { higher_is_better = true; threshold = dec 15 2 };
        series = last_of 2 prices;
      }))
    × (get "decision_regret_pct" after.metrics ≡ get "decision_regret_pct" monitor.metrics)
get-observe_all-register_example =
    get-observe_all-register monitor "direction_correct" "decision_regret_pct" true (dec 15 2)
      prices refl
