-- ===== src/Execution/Day.antt =====
-- `run_day` of pyresearch/execution/engine.py: the signals of a day in their order, one position
-- at a time. A signal is its row's index with its prediction. The amounts that the source divides
-- by the tick are kept as notionals. The columns of a trade that are computed from its fills and
-- from the mid prices are left out.
use crypto_microstructure_ma.Prelude.{
  ℕ, zero, suc, ◌+◌, ◌*◌, ◌/◌, ◌%◌, Bool, true, false, ◌&&◌, ◌||◌, not, Option, none, some, List,
  [], ◌∷◌, ◌++◌, ltb, leb, ◌==◌, if◌then◌else◌, length, get_elem?,
}
use crypto_microstructure_ma.Prelude.Int.{ℤ, pos, ltb_ℤ, abs}
use crypto_microstructure_ma.Execution.Walk.{
  OrderSide, buy, sell, Level, FillResult, Result, ok, err, ◌>>=◌, bad_arguments, floor_quantity,
  walk_visible_book,
}

pub record GridRow : Type 0 where
  pub valid_book : Bool
  pub segment : Option ℕ
  pub best_bid : ℕ
  pub best_ask : ℕ
  pub bids : List Level
  pub asks : List Level

pub record RunCounters : Type 0 where
  pub signals : ℕ
  pub completed_trades : ℕ
  pub skipped_overlap : ℕ
  pub excluded_latency : ℕ
  pub excluded_day_boundary : ℕ
  pub excluded_gap : ℕ
  pub excluded_quantity : ℕ
  pub excluded_depth : ℕ
  pub unrealistic_liquidity : ℕ

-- The keyword arguments. The threshold on the participation is a fraction.
pub record RunArguments : Type 0 where
  pub horizon_ms : ℕ
  pub latency_ms : ℕ
  pub prediction_threshold : ℕ
  pub notional : ℕ
  pub tick_size : ℕ
  pub quantity_step : ℕ
  pub participation_num : ℕ
  pub participation_den : ℕ

pub record Trade : Type 0 where
  pub decision_index : ℕ
  pub entry_index : ℕ
  pub exit_index : ℕ
  pub is_long : Bool
  pub prediction : ℤ
  pub quantity : ℕ
  pub zero_entry : FillResult
  pub zero_exit : FillResult
  pub actual_entry : FillResult
  pub actual_exit : FillResult
  pub unrealistic : Bool

abbrev pub horizon_steps : RunArguments → ℕ
horizon_steps g = g.horizon_ms / 100

-- `math.ceil(latency_ms / 100)`
abbrev pub latency_steps : RunArguments → ℕ
latency_steps g = (g.latency_ms + 99) / 100

abbrev pub Signal : Type 0
Signal = ℕ × ℤ

unfoldable pub keep_signal : ℕ → ℕ → Option ℤ → List Signal → List Signal
keep_signal threshold i none rest = rest
keep_signal threshold i (some v) rest =
    if not (abs v == 0) && leb threshold (abs v) then (i, v) ∷ rest else rest

-- `np.flatnonzero(valid_prediction)`, from a row on.
unfoldable pub signals_from : ℕ → ℕ → List (Option ℤ) → List Signal
signals_from threshold i [] = []
signals_from threshold i (p ∷ ps) = keep_signal threshold i p (signals_from threshold (i + 1) ps)

-- What becomes of a signal that is looked at.
pub data Decision : Type 0 where
  day_boundary gap no_quantity no_depth : Decision
  traded : Trade → Decision

abbrev pub same_segment : Option ℕ → Option ℕ → Bool
same_segment (some a) (some b) = a == b
same_segment none b = false
same_segment (some a) none = false

abbrev pub is_gap : GridRow → GridRow → GridRow → Bool
is_gap d e x =
    not d.valid_book
    || not e.valid_book
    || not x.valid_book
    || not (same_segment d.segment e.segment)
    || not (same_segment d.segment x.segment)

abbrev pub levels_for : OrderSide → GridRow → List Level
levels_for buy r = r.asks
levels_for _ r = r.bids

unfoldable pub fill : RunArguments → GridRow → OrderSide → ℕ → Result (Option FillResult)
fill g r side quantity = walk_visible_book (levels_for side r) quantity side g.tick_size

abbrev pub exceeds : RunArguments → FillResult → Bool
exceeds g f = ltb (g.participation_num * f.visible_quantity) (f.quantity * g.participation_den)

unfoldable pub make_trade :
    RunArguments
    → Signal
    → ℕ
    → Option FillResult
    → Option FillResult
    → Option FillResult
    → Option FillResult
    → Decision
make_trade g s quantity (some ze) (some zx) (some ae) (some ax) = traded (record {
  decision_index = s.0;
  entry_index = s.0 + latency_steps g;
  exit_index = s.0 + horizon_steps g;
  is_long = ltb_ℤ (pos 0) s.1;
  prediction = s.1;
  quantity = quantity;
  zero_entry = ze;
  zero_exit = zx;
  actual_entry = ae;
  actual_exit = ax;
  unrealistic = exceeds g ae || exceeds g ax;
})
make_trade g s quantity _ _ _ _ = no_depth

abbrev pub entry_side : ℤ → OrderSide
entry_side v = if ltb_ℤ (pos 0) v then buy else sell

abbrev pub exit_side : ℤ → OrderSide
exit_side v = if ltb_ℤ (pos 0) v then sell else buy

unfoldable pub fill_all : RunArguments → Signal → ℕ → GridRow → GridRow → GridRow → Result Decision
fill_all g s quantity d e x = fill g d (entry_side s.1) quantity >>= (λ ze.
    fill g x (exit_side s.1) quantity >>= (λ zx. fill g e (entry_side s.1) quantity >>= (λ ae.
      fill g x (exit_side s.1) quantity >>= (λ ax. ok (make_trade g s quantity ze zx ae ax)))))

unfoldable pub decide_quantity :
    RunArguments → Signal → ℕ → GridRow → GridRow → GridRow → Result Decision
decide_quantity g s quantity d e x =
    if quantity == 0 then ok no_quantity else fill_all g s quantity d e x

abbrev pub entry_touch : ℤ → GridRow → ℕ
entry_touch v e = if ltb_ℤ (pos 0) v then e.best_ask else e.best_bid

-- By the rows of the decision, the entry and the exit; a row behind the end of the day is `none`.
unfoldable pub decide_at :
    RunArguments → Signal → Option GridRow → Option GridRow → Option GridRow → Result Decision
decide_at g s (some d) (some e) (some x) =
    if is_gap d e x
    then ok gap
    else decide_quantity g s (floor_quantity g.notional (entry_touch s.1 e) g.quantity_step) d e x
decide_at g s _ _ _ = ok day_boundary

unfoldable pub decide : RunArguments → List GridRow → Signal → Result Decision
decide g frame s =
    decide_at g s (get_elem? frame s.0) (get_elem? frame (s.0 + latency_steps g))
      (get_elem? frame (s.0 + horizon_steps g))

-- `np.searchsorted(signal_indices, busy_until)`: the signals that remain, and how many are passed.
unfoldable pub pass_before : ℕ → List Signal → ℕ × List Signal
pass_before busy [] = (0, [])
pass_before busy (s ∷ ss) =
    let (n, rest) = pass_before busy ss in if ltb s.0 busy then (n + 1, rest) else (0, s ∷ ss)

abbrev pub one_if : Bool → ℕ
one_if true = 1
one_if false = 0

pub record Run : Type 0 where
  pub counters : RunCounters
  pub trades : List Trade

-- A trade; `passed` signals are skipped behind it.
unfoldable pub add_trade : Trade → ℕ → Run → Run
add_trade t passed r =
    let c = r.counters in
    record {
      counters = record c {
        skipped_overlap = c.skipped_overlap + passed;
        unrealistic_liquidity = c.unrealistic_liquidity + one_if t.unrealistic;
      };
      trades = r.trades ++ t ∷ [];
    }

-- The signals that remain behind one, and what has been made by then.
unfoldable pub next : Decision → List Signal → Run → List Signal × Run
next day_boundary ss r =
    let c = r.counters in
    (ss, record r { counters = record c { excluded_day_boundary = c.excluded_day_boundary + 1 } })
next gap ss r =
    let c = r.counters in
    (ss, record r { counters = record c { excluded_gap = c.excluded_gap + 1 } })
next no_quantity ss r =
    let c = r.counters in
    (ss, record r { counters = record c { excluded_quantity = c.excluded_quantity + 1 } })
next no_depth ss r =
    let c = r.counters in
    (ss, record r { counters = record c { excluded_depth = c.excluded_depth + 1 } })
next (traded t) ss r =
    let (passed, rest) = pass_before t.exit_index ss in (rest, add_trade t passed r)

-- `while signal_cursor < signal_indices.size`, with fuel: each turn uses up a signal.
unfoldable pub run_signals : RunArguments → List GridRow → ℕ → List Signal → Run → Result Run
run_signals g frame zero ss r = ok r
run_signals g frame (suc fuel) [] r = ok r
run_signals g frame (suc fuel) (s ∷ ss) r =
    decide g frame s >>= (λ d. run_signals g frame fuel (next d ss r).0 (next d ss r).1)

unfoldable pub no_counters : RunCounters
no_counters = record {
  signals = 0;
  completed_trades = 0;
  skipped_overlap = 0;
  excluded_latency = 0;
  excluded_day_boundary = 0;
  excluded_gap = 0;
  excluded_quantity = 0;
  excluded_depth = 0;
  unrealistic_liquidity = 0;
}

unfoldable pub start_run : ℕ → Run
start_run n = record { counters = record no_counters { signals = n }; trades = [] }

-- `counters.completed_trades = len(rows)`
unfoldable pub close_run : Run → Run
close_run r =
    let c = r.counters in record r { counters = record c { completed_trades = length r.trades } }

unfoldable pub too_late : Run → Run
too_late r = let c = r.counters in record r { counters = record c { excluded_latency = c.signals } }

unfoldable pub run_day_signals : RunArguments → List GridRow → List Signal → Result Run
run_day_signals g frame ss =
    if leb g.horizon_ms g.latency_ms
    then ok (too_late (start_run (length ss)))
    else run_signals g frame (length ss) ss (start_run (length ss)) >>= (λ r. ok (close_run r))

unfoldable pub run_day : RunArguments → List GridRow → List (Option ℤ) → Result Run
run_day g frame prediction =
    if not (length prediction == length frame) || g.horizon_ms == 0 || not (g.horizon_ms % 100 == 0)
    then err bad_arguments
    else run_day_signals g frame (signals_from g.prediction_threshold 0 prediction)
