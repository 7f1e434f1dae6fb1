-- ===== src/Learning/Observing.antt =====
-- What stands behind an observation.
use trading_control.Prelude.{
  ℕ, ◌≤◌, ◌≡◌, refl, true, false, ◌&&◌, ◌||◌, List, [], ◌∷◌, All, All-append, String, arith,
  Bool-cases, inl, inr, ltb, length, suc, In, All-map, length-append,
}
use trading_control.Prelude.Int.{pos}
use trading_control.Float.{Float, IsOrdered, ◌≼◌, dec, decimal}
use trading_control.Float.Order.{round_unit, clamp_bounds}
use trading_control.Grading.{Stats}
use trading_control.Learning.{
  PerSignal, items, Edge, outperforming, underperforming, Observation, LearningEngine,
  confidence_of, observation_of, observe_signal, observe_each, observe,
}

module _ {W : Type 0} ⦃f : Float W⦄ where
  -- The evidence that the direction of an observation asks for.
  abbrev pub Points : LearningEngine W → Stats W → Edge → Type 0
  Points engine stats outperforming =
      (engine.outperform_rate ≼ stats.correct_rate) × (dec 0 0 ≼ stats.total_pnl_attribution)
  Points engine stats underperforming =
      (f.le engine.outperform_rate stats.correct_rate && f.le (dec 0 0) stats.total_pnl_attribution
        ≡ false)
      × (f.le stats.correct_rate engine.underperform_rate
            || f.lt stats.total_pnl_attribution (dec 0 0)
          ≡ true)

  pub record IsBacked (engine : LearningEngine W) (signal : String) (stats : Stats W)
      (o : Observation W) : Type 0 where
    pub of_signal : o.signal ≡ signal
    pub samples : engine.min_samples ≤ stats.samples
    pub evidence :
        (o.evidence.sample_size ≡ stats.samples) × (o.evidence.correct_rate ≡ stats.correct_rate)
    pub confidence : (dec 0 0 ≼ o.confidence) × (o.confidence ≼ dec 1 0)
    pub points : Points engine stats o.direction

  confidence-unit :
      IsOrdered W
      → (n : ℕ) (stats : Stats W)
      → (dec 0 0 ≼ confidence_of n stats) × (confidence_of n stats ≼ dec 1 0)
  unfolding confidence_of
  confidence-unit laws n stats =
      round_unit laws 2 _
        (clamp_bounds laws _ _ _ (laws.le_lit (pos 0) (decimal 1 0) (omega arith)))

  observation_of-IsBacked :
      IsOrdered W
      → (engine : LearningEngine W) (signal : String) (stats : Stats W) (d : Edge) (suffix : String)
      → engine.min_samples ≤ stats.samples
      → Points engine stats d
      → IsBacked engine signal stats (observation_of engine signal stats d suffix)
  unfolding observation_of
  observation_of-IsBacked laws engine signal stats d suffix n p = record {
    of_signal = refl;
    samples = n;
    evidence = (refl, refl);
    confidence = confidence-unit laws engine.min_samples stats;
    points = p;
  }

  observe_signal-IsBacked :
      IsOrdered W
      → (engine : LearningEngine W) (signal : String) (stats : Stats W)
      → All (IsBacked engine signal stats) (observe_signal engine (signal, stats))
        × (length (observe_signal engine (signal, stats)) ≤ 1)
  unfolding observe_signal
  observe_signal-IsBacked laws engine signal stats =
      elim (Bool-cases (ltb stats.samples engine.min_samples)) [
        | inl few ↦ rw few (tt, omega arith)
        | inr enough ↦
            let n : engine.min_samples ≤ stats.samples = ground arith in
            let backed = observation_of-IsBacked laws engine signal stats in
            elim (Bool-cases (
              f.le engine.outperform_rate stats.correct_rate
              && f.le (dec 0 0) stats.total_pnl_attribution)) [
                | inl out ↦
                    rw (enough, out)
                      (
                        (backed outperforming "_agent_outperforming" n (ground arith), tt),
                        omega arith,
                      )
                | inr e ↦
                    elim (Bool-cases (
                      f.le stats.correct_rate engine.underperform_rate
                      || f.lt stats.total_pnl_attribution (dec 0 0))) [
                        | inl under ↦
                            rw (enough, e, under)
                              (
                                (backed underperforming "_agent_underperforming" n (e, under), tt),
                                omega arith,
                              )
                        | inr neither ↦ rw (enough, e, neither) (tt, omega arith)
                      ]
              ]
      ]

  observe_each-IsBacked :
      IsOrdered W
      → (engine : LearningEngine W) (es : List (String × Stats W))
      → All
          (λ (o : Observation W). (e : String × Stats W) × In e es × IsBacked engine e.0 e.1 o)
          (observe_each engine es)
        × (length (observe_each engine es) ≤ length es)
  unfolding observe_each
  observe_each-IsBacked laws engine [] = (tt, omega arith)
  observe_each-IsBacked laws engine ((k, st) ∷ es) =
      let (first, one) = observe_signal-IsBacked laws engine k st in
      let (rest, n) = observe_each-IsBacked laws engine es in
      (
        All-append _ (observe_signal engine (k, st)) (observe_each engine es)
            (All-map _ _ (observe_signal engine (k, st)) (λ o b. ((k, st), (0, refl), b)) first)
            (All-map _ _ (observe_each engine es) (λ o h. (h.0, (suc h.1.0, h.1.1), h.2)) rest),
        omega (arith, length-append (observe_signal engine (k, st)) (observe_each engine es)),
      )

  -- Every observation is of one of the signals, of which there are enough samples; its confidence
  -- lies between 0 and 1, and the hit rate and the contribution of the signal point the way it
  -- says. There is at most one observation for each signal. This rests on the laws of floats.
  pub observe-IsBacked :
      IsOrdered W
      → (engine : LearningEngine W) (stats : PerSignal (Stats W))
      → All
          (λ (o : Observation W).
            (e : String × Stats W) × In e (items stats) × IsBacked engine e.0 e.1 o)
          (observe engine stats)
        × (length (observe engine stats) ≤ 3)
  unfolding observe
  observe-IsBacked laws engine stats = observe_each-IsBacked laws engine (items stats)
