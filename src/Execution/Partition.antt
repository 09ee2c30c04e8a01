-- ===== src/Execution/Partition.antt =====
-- Every signal of a day is counted once.
use crypto_microstructure_ma.Prelude.{
  ℕ, zero, suc, ◌+◌, ◌≤◌, ◌≡◌, refl, subst, Bool, true, false, ◌||◌, not, ◌==◌, ◌%◌, inl, inr,
  Option, List, [], ◌∷◌, arith, Bool-cases, ltb, leb, length, length-append,
}
use crypto_microstructure_ma.Prelude.Int.{ℤ}
use crypto_microstructure_ma.Execution.Walk.{ok, Checked, bind-Checked, any-Checked}
use crypto_microstructure_ma.Execution.Day.{
  GridRow, RunArguments, Signal, Decision, day_boundary, gap, no_quantity, no_depth, traded,
  signals_from, decide, pass_before, one_if, Run, add_trade, next, run_signals, no_counters,
  start_run, close_run, too_late, run_day_signals, run_day,
}

-- The signals that have been handled by the loop.
abbrev handled : Run → ℕ
handled r =
    length r.trades
    + r.counters.skipped_overlap
    + r.counters.excluded_day_boundary
    + r.counters.excluded_gap
    + r.counters.excluded_quantity
    + r.counters.excluded_depth

record HasHandled (all done : ℕ) (r : Run) : Type 0 where
  by_signal : handled r ≡ done
  signals : r.counters.signals ≡ all
  latency : r.counters.excluded_latency ≡ 0
  unrealistic : r.counters.unrealistic_liquidity ≤ length r.trades

-- The counters of a day's run: each signal ends in one of them, and the trades are listed.
pub record IsPartition (r : Run) : Type 0 where
  pub by_signal :
      r.counters.signals
      ≡ r.counters.completed_trades + r.counters.skipped_overlap + r.counters.excluded_latency
        + r.counters.excluded_day_boundary + r.counters.excluded_gap + r.counters.excluded_quantity
        + r.counters.excluded_depth
  pub completed : r.counters.completed_trades ≡ length r.trades
  pub unrealistic : r.counters.unrealistic_liquidity ≤ r.counters.completed_trades

pass_before-length :
    (busy : ℕ) (ss : List Signal)
    → (pass_before busy ss).0 + length (pass_before busy ss).1 ≡ length ss
unfolding pass_before
pass_before-length busy [] = refl
pass_before-length busy (s ∷ ss) = elim (Bool-cases (ltb s.0 busy)) [
  | inl e ↦ rw e (omega (arith, pass_before-length busy ss))
  | inr e ↦ rw e (omega arith)
]

one_if-le : (b : Bool) → one_if b ≤ 1
one_if-le true = omega arith
one_if-le false = omega arith

-- A turn handles one signal and the ones that it passes.
next-HasHandled :
    (all done : ℕ) (d : Decision) (ss : List Signal) (r : Run)
    → HasHandled all done r
    → (n : ℕ) × (HasHandled all n (next d ss r).1)
      × (n + length (next d ss r).0 ≡ suc (done + length ss))
      × (length (next d ss r).0 ≤ length ss)
unfolding next add_trade
next-HasHandled all done day_boundary ss r h = (
  suc done,
  record {
    by_signal = omega (arith, h.by_signal);
    signals = h.signals;
    latency = h.latency;
    unrealistic = h.unrealistic;
  },
  omega arith,
  omega arith,
)
next-HasHandled all done gap ss r h = (
  suc done,
  record {
    by_signal = omega (arith, h.by_signal);
    signals = h.signals;
    latency = h.latency;
    unrealistic = h.unrealistic;
  },
  omega arith,
  omega arith,
)
next-HasHandled all done no_quantity ss r h = (
  suc done,
  record {
    by_signal = omega (arith, h.by_signal);
    signals = h.signals;
    latency = h.latency;
    unrealistic = h.unrealistic;
  },
  omega arith,
  omega arith,
)
next-HasHandled all done no_depth ss r h = (
  suc done,
  record {
    by_signal = omega (arith, h.by_signal);
    signals = h.signals;
    latency = h.latency;
    unrealistic = h.unrealistic;
  },
  omega arith,
  omega arith,
)
next-HasHandled all done (traded t) ss r h =
    let p = pass_before-length t.exit_index ss in
    let l = length-append r.trades (t ∷ []) in
    (
      suc done + (pass_before t.exit_index ss).0,
      record {
        by_signal = omega (arith, h.by_signal, l);
        signals = h.signals;
        latency = h.latency;
        unrealistic = omega (arith, h.unrealistic, l, one_if-le t.unrealistic);
      },
      omega (arith, p),
      omega (arith, p),
    )

-- With fuel for each of the signals the loop handles them all.
run_signals-HasHandled :
    (g : RunArguments) (frame : List GridRow) (all done fuel : ℕ) (ss : List Signal) (r : Run)
    → length ss ≤ fuel
    → HasHandled all done r
    → Checked (HasHandled all (done + length ss)) (run_signals g frame fuel ss r)
unfolding run_signals
run_signals-HasHandled g frame all done zero [] r l h =
    subst (λ n. HasHandled all n r) (omega arith) h
run_signals-HasHandled g frame all done zero (s ∷ ss) r l h = absurd (omega arith)
run_signals-HasHandled g frame all done (suc fuel) [] r l h =
    subst (λ n. HasHandled all n r) (omega arith) h
run_signals-HasHandled g frame all done (suc fuel) (s ∷ ss) r l h =
    bind-Checked (λ d. Unit {0}) (HasHandled all (done + suc (length ss)))
      (λ d. run_signals g frame fuel (next d ss r).0 (next d ss r).1) (decide g frame s)
      (any-Checked (λ d. Unit {0}) (decide g frame s) (λ d. tt))
      (λ d u.
        let (n, k, e, w) = next-HasHandled all done d ss r h in
        subst
          (λ n.
            Checked (HasHandled all n) (run_signals g frame fuel (next d ss r).0 (next d ss r).1))
          (omega (arith, e))
          (run_signals-HasHandled g frame all n fuel (next d ss r).0 (next d ss r).1
            (omega (arith, w)) k))

run_day_signals-IsPartition :
    (g : RunArguments) (frame : List GridRow) (ss : List Signal)
    → Checked IsPartition (run_day_signals g frame ss)
unfolding run_day_signals too_late start_run close_run no_counters
run_day_signals-IsPartition g frame ss = elim (Bool-cases (leb g.horizon_ms g.latency_ms)) [
  | inl e ↦ rw e (record { by_signal = omega arith; completed = refl; unrealistic = omega arith })
  | inr e ↦ rw e (
      bind-Checked (HasHandled (length ss) (0 + length ss)) IsPartition (λ r. ok (close_run r))
        (run_signals g frame (length ss) ss (start_run (length ss)))
        (run_signals-HasHandled g frame (length ss) 0 (length ss) ss (start_run (length ss))
          (omega arith)
          (record { by_signal = refl; signals = refl; latency = refl; unrealistic = omega arith }))
        (λ r h. record {
          by_signal = omega (arith, h.by_signal, h.signals, h.latency);
          completed = refl;
          unrealistic = h.unrealistic;
        }))
]

-- Every signal of a day's run that succeeds is counted once: as a completed trade, as skipped
-- while a position was open, as too late for its horizon, or as excluded for one reason. The
-- completed trades are the listed ones, and no more trades are counted as unrealistic.
pub run_day-IsPartition :
    (g : RunArguments) (frame : List GridRow) (prediction : List (Option ℤ)) (r : Run)
    → run_day g frame prediction ≡ ok r
    → IsPartition r
unfolding run_day
run_day-IsPartition g frame prediction r e =
    subst (Checked IsPartition) e
      (elim (Bool-cases (
        not (length prediction == length frame)
        || g.horizon_ms == 0
        || not (g.horizon_ms % 100 == 0))) [
          | inl q ↦ rw q tt
          | inr q ↦ rw q (
              run_day_signals-IsPartition g frame
                (signals_from g.prediction_threshold 0 prediction))
        ])
