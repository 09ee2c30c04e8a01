-- ===== src/Execution/Windows.antt =====
-- The positions of a day do not overlap, and each is closed on a row of the day.
use crypto_microstructure_ma.Prelude.{
  ℕ, zero, suc, ◌+◌, ◌%◌, ◌≤◌, ◌<◌, ◌≡◌, refl, subst, ◌||◌, ◌&&◌, not, ◌==◌, inl, inr, Option, none,
  some, List, [], ◌∷◌, ◌++◌, arith, Bool-cases, ltb, leb, length, get_elem?, All, All-append,
}
use crypto_microstructure_ma.Prelude.Int.{ℤ, abs}
use crypto_microstructure_ma.Execution.Walk.{
  FillResult, Result, ok, Checked, bind-Checked, any-Checked, ◌>>=◌, floor_quantity,
}
use crypto_microstructure_ma.Execution.Day.{
  GridRow, RunArguments, Trade, Signal, Decision, day_boundary, gap, no_quantity, no_depth, traded,
  horizon_steps, latency_steps, keep_signal, signals_from, is_gap, make_trade, fill, fill_all,
  decide_quantity, decide_at, decide, entry_side, exit_side, entry_touch, pass_before, Run,
  add_trade, next, run_signals, start_run, close_run, too_late, run_day_signals, run_day,
}

-- A trade that starts no earlier than a row, is closed no earlier than it is opened, and within
-- the day.
abbrev pub IsWindow : List GridRow → ℕ → Trade → Type 0
IsWindow frame start t =
    (start ≤ t.decision_index)
    × (t.decision_index ≤ t.entry_index)
    × (t.entry_index ≤ t.exit_index)
    × (t.exit_index < length frame)

-- Each trade's window starts no earlier than the one before it ends.
abbrev pub IsApart : List GridRow → ℕ → List Trade → Type 0
IsApart frame start [] = Unit
IsApart frame start (t ∷ ts) = IsWindow frame start t × IsApart frame t.exit_index ts

abbrev EndsBy : ℕ → Trade → Type 0
EndsBy busy t = t.exit_index ≤ busy

abbrev StartsAt : ℕ → Signal → Type 0
StartsAt busy s = busy ≤ s.0

abbrev IsSorted : List Signal → Type 0
IsSorted [] = Unit
IsSorted (s ∷ ss) = All (StartsAt s.0) ss × IsSorted ss

All-map {κ μ} :
    {A : Type 0} (P : A → Type κ) (Q : A → Type μ) (xs : List A)
    → ((x : A) → P x → Q x)
    → All P xs
    → All Q xs
All-map P Q [] f h = tt
All-map P Q (x ∷ xs) f h = (f x h.0, All-map P Q xs f h.1)

keep_signal-IsSorted :
    (threshold i : ℕ) (p : Option ℤ) (ss : List Signal)
    → All (StartsAt (i + 1)) ss
    → IsSorted ss
    → All (StartsAt i) (keep_signal threshold i p ss) × IsSorted (keep_signal threshold i p ss)
unfolding keep_signal
keep_signal-IsSorted threshold i none ss a h =
    (All-map (StartsAt (i + 1)) (StartsAt i) ss (λ s k. omega (arith, k)) a, h)
keep_signal-IsSorted threshold i (some v) ss a h =
    let later = All-map (StartsAt (i + 1)) (StartsAt i) ss (λ s k. omega (arith, k)) a in
    elim (Bool-cases (not (abs v == 0) && leb threshold (abs v))) [
      | inl e ↦ rw e ((omega arith, later), (later, h))
      | inr e ↦ rw e (later, h)
    ]

signals_from-IsSorted :
    (threshold i : ℕ) (ps : List (Option ℤ))
    → All (StartsAt i) (signals_from threshold i ps) × IsSorted (signals_from threshold i ps)
unfolding signals_from
signals_from-IsSorted threshold i [] = (tt, tt)
signals_from-IsSorted threshold i (p ∷ ps) =
    let (a, h) = signals_from-IsSorted threshold (i + 1) ps in
    keep_signal-IsSorted threshold i p (signals_from threshold (i + 1) ps) a h

pass_before-StartsAt :
    (busy : ℕ) (ss : List Signal)
    → IsSorted ss
    → All (StartsAt busy) (pass_before busy ss).1 × IsSorted (pass_before busy ss).1
unfolding pass_before
pass_before-StartsAt busy [] h = (tt, tt)
pass_before-StartsAt busy (s ∷ ss) h = elim (Bool-cases (ltb s.0 busy)) [
  | inl e ↦ rw e (pass_before-StartsAt busy ss h.1)
  | inr e ↦
      let first : busy ≤ s.0 = ground (arith, e) in
      rw e
        ((first, All-map (StartsAt s.0) (StartsAt busy) ss (λ u k. omega (arith, first, k)) h.0), h)
]

get_elem?-bound {ℓ} :
    {A : Type ℓ} (xs : List A) (i : ℕ) (x : A) → get_elem? xs i ≡ some x → i < length xs
get_elem?-bound [] i x e = absurd (ground arith)
get_elem?-bound (y ∷ xs) zero x e = omega arith
get_elem?-bound (y ∷ xs) (suc i) x e = omega (arith, get_elem?-bound xs i x e)

-- A trade's indices are those of its signal.
abbrev IsTradeOf : RunArguments → List GridRow → Signal → Decision → Type 0
IsTradeOf g frame s (traded t) =
    (t.decision_index ≡ s.0)
    × (t.entry_index ≡ s.0 + latency_steps g)
    × (t.exit_index ≡ s.0 + horizon_steps g)
    × (t.exit_index < length frame)
IsTradeOf g frame s _ = Unit

module _ (g : RunArguments) (frame : List GridRow) where
  make_trade-IsTradeOf :
      (s : Signal) (q : ℕ) (a b c d : Option FillResult)
      → s.0 + horizon_steps g < length frame
      → IsTradeOf g frame s (make_trade g s q a b c d)
  unfolding make_trade
  make_trade-IsTradeOf s q (some a) (some b) (some c) (some d) l = (refl, refl, refl, l)
  make_trade-IsTradeOf s q none b c d l = tt
  make_trade-IsTradeOf s q (some a) none c d l = tt
  make_trade-IsTradeOf s q (some a) (some b) none d l = tt
  make_trade-IsTradeOf s q (some a) (some b) (some c) none l = tt

  each-Checked {ℓ} :
      {A : Type ℓ} (s : Signal) (f : A → Result Decision) (r : Result A)
      → ((a : A) → Checked (IsTradeOf g frame s) (f a))
      → Checked (IsTradeOf g frame s) (r >>= f)
  each-Checked s f r k =
      bind-Checked (λ a. Unit {0}) (IsTradeOf g frame s) f r
        (any-Checked (λ a. Unit {0}) r (λ a. tt)) (λ a u. k a)

  fill_all-IsTradeOf :
      (s : Signal) (q : ℕ) (d e x : GridRow)
      → s.0 + horizon_steps g < length frame
      → Checked (IsTradeOf g frame s) (fill_all g s q d e x)
  unfolding fill_all
  fill_all-IsTradeOf s q d e x l = each-Checked s _ (fill g d (entry_side s.1) q) (λ ze.
      each-Checked s _ (fill g x (exit_side s.1) q) (λ zx.
        each-Checked s _ (fill g e (entry_side s.1) q) (λ ae.
          each-Checked s _ (fill g x (exit_side s.1) q)
            (λ ax. make_trade-IsTradeOf s q ze zx ae ax l))))

  decide_quantity-IsTradeOf :
      (s : Signal) (q : ℕ) (d e x : GridRow)
      → s.0 + horizon_steps g < length frame
      → Checked (IsTradeOf g frame s) (decide_quantity g s q d e x)
  unfolding decide_quantity
  decide_quantity-IsTradeOf s q d e x l = elim (Bool-cases (q == 0)) [
    | inl w ↦ rw w tt
    | inr w ↦ rw w (fill_all-IsTradeOf s q d e x l)
  ]

  decide_at-IsTradeOf :
      (s : Signal) (d e x : Option GridRow)
      → ((y : GridRow) → x ≡ some y → s.0 + horizon_steps g < length frame)
      → Checked (IsTradeOf g frame s) (decide_at g s d e x)
  unfolding decide_at
  decide_at-IsTradeOf s none e x l = tt
  decide_at-IsTradeOf s (some d) none x l = tt
  decide_at-IsTradeOf s (some d) (some e) none l = tt
  decide_at-IsTradeOf s (some d) (some e) (some x) l = elim (Bool-cases (is_gap d e x)) [
    | inl w ↦ rw w tt
    | inr w ↦ rw w (
        decide_quantity-IsTradeOf s (floor_quantity g.notional (entry_touch s.1 e) g.quantity_step)
          d e x (l x refl))
  ]

  decide-IsTradeOf : (s : Signal) → Checked (IsTradeOf g frame s) (decide g frame s)
  unfolding decide
  decide-IsTradeOf s =
      decide_at-IsTradeOf s (get_elem? frame s.0) (get_elem? frame (s.0 + latency_steps g))
        (get_elem? frame (s.0 + horizon_steps g))
        (λ y q. get_elem?-bound frame (s.0 + horizon_steps g) y q)

-- The trades so far are apart and have ended when the signals that remain begin.
record IsClear (frame : List GridRow) (busy : ℕ) (ss : List Signal) (ts : List Trade) : Type 0 where
  apart : IsApart frame 0 ts
  ended : All (EndsBy busy) ts
  ahead : All (StartsAt busy) ss
  sorted : IsSorted ss

IsApart-snoc :
    (frame : List GridRow) (start busy : ℕ) (ts : List Trade) (t : Trade)
    → IsApart frame start ts
    → All (EndsBy busy) ts
    → start ≤ busy
    → IsWindow frame busy t
    → IsApart frame start (ts ++ t ∷ [])
IsApart-snoc frame start busy [] t h e l w = ((omega (arith, l, w.0), w.1, w.2, w.3), tt)
IsApart-snoc frame start busy (u ∷ us) t h e l w =
    (h.0, IsApart-snoc frame u.exit_index busy us t h.1 e.1 e.0 w)

module _ (g : RunArguments) (frame : List GridRow) (late : latency_steps g ≤ horizon_steps g) where
  next-IsClear :
      (busy : ℕ) (d : Decision) (s : Signal) (ss : List Signal) (r : Run)
      → IsTradeOf g frame s d
      → IsClear frame busy (s ∷ ss) r.trades
      → (b : ℕ) × IsClear frame b (next d ss r).0 (next d ss r).1.trades
  unfolding next add_trade
  next-IsClear busy day_boundary s ss r k h =
      (busy, record { apart = h.apart; ended = h.ended; ahead = h.ahead.1; sorted = h.sorted.1 })
  next-IsClear busy gap s ss r k h =
      (busy, record { apart = h.apart; ended = h.ended; ahead = h.ahead.1; sorted = h.sorted.1 })
  next-IsClear busy no_quantity s ss r k h =
      (busy, record { apart = h.apart; ended = h.ended; ahead = h.ahead.1; sorted = h.sorted.1 })
  next-IsClear busy no_depth s ss r k h =
      (busy, record { apart = h.apart; ended = h.ended; ahead = h.ahead.1; sorted = h.sorted.1 })
  next-IsClear busy (traded t) s ss r k h =
      let (a, b) = pass_before-StartsAt t.exit_index ss h.sorted.1 in
      let from : busy ≤ s.0 = h.ahead.0 in
      let k0 = k.0 in
      let k1 = k.1 in
      let k2 = k.2 in
      let window : IsWindow frame busy t =
        (omega (arith, from, k0), omega (arith, k0, k1), omega (arith, k1, k2, late), k.3) in
      (
        t.exit_index,
        record {
          apart = IsApart-snoc frame 0 busy r.trades t h.apart h.ended (omega arith) window;
          ended =
              All-append (EndsBy t.exit_index) r.trades (t ∷ [])
                (All-map (EndsBy busy) (EndsBy t.exit_index) r.trades
                  (λ u e. omega (arith, e, from, k0, k2)) h.ended)
                (omega arith, tt);
          ahead = a;
          sorted = b;
        },
      )

  run_signals-IsApart :
      (busy fuel : ℕ) (ss : List Signal) (r : Run)
      → IsClear frame busy ss r.trades
      → Checked (λ q. IsApart frame 0 q.trades) (run_signals g frame fuel ss r)
  unfolding run_signals
  run_signals-IsApart busy zero ss r h = h.apart
  run_signals-IsApart busy (suc fuel) [] r h = h.apart
  run_signals-IsApart busy (suc fuel) (s ∷ ss) r h =
      bind-Checked (IsTradeOf g frame s) (λ q. IsApart frame 0 q.trades)
        (λ d. run_signals g frame fuel (next d ss r).0 (next d ss r).1) (decide g frame s)
        (decide-IsTradeOf g frame s)
        (λ d k.
          let (b, c) = next-IsClear busy d s ss r k h in
          run_signals-IsApart b fuel (next d ss r).0 (next d ss r).1 c)

run_day_signals-IsApart :
    (g : RunArguments) (frame : List GridRow) (ss : List Signal)
    → g.horizon_ms % 100 ≡ 0
    → IsSorted ss
    → Checked (λ r. IsApart frame 0 r.trades) (run_day_signals g frame ss)
unfolding run_day_signals too_late start_run close_run
run_day_signals-IsApart g frame ss whole sorted =
    elim (Bool-cases (leb g.horizon_ms g.latency_ms)) [
      | inl e ↦ rw e tt
      | inr e ↦
          let before : g.latency_ms < g.horizon_ms = ground (arith, e) in
          rw e (
            bind-Checked (λ r. IsApart frame 0 r.trades) (λ r. IsApart frame 0 r.trades)
              (λ r. ok (close_run r)) (run_signals g frame (length ss) ss (start_run (length ss)))
              (run_signals-IsApart g frame (omega (arith, before, whole)) 0 (length ss) ss
                (start_run (length ss))
                (record { apart = tt; ended = tt; ahead = all_from ss; sorted = sorted }))
              (λ r h. h))
    ]
  where
    all_from : (us : List Signal) → All (StartsAt 0) us
    all_from [] = tt
    all_from (u ∷ us) = (omega arith, all_from us)

-- One position at a time. In a day's run that succeeds each trade is entered no earlier than it is
-- decided, closed no earlier than it is entered and on a row of the day, and decided no earlier
-- than the trade before it is closed.
pub run_day-IsApart :
    (g : RunArguments) (frame : List GridRow) (prediction : List (Option ℤ)) (r : Run)
    → run_day g frame prediction ≡ ok r
    → IsApart frame 0 r.trades
unfolding run_day
run_day-IsApart g frame prediction r e =
    subst (Checked (λ q. IsApart frame 0 q.trades)) e
      (elim (Bool-cases (
        not (length prediction == length frame)
        || g.horizon_ms == 0
        || not (g.horizon_ms % 100 == 0))) [
          | inl q ↦ rw q tt
          | inr q ↦ rw q (
              run_day_signals-IsApart g frame (signals_from g.prediction_threshold 0 prediction)
                (ground (arith, q)) (signals_from-IsSorted g.prediction_threshold 0 prediction).1)
        ])
