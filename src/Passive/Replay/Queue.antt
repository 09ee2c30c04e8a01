-- ===== src/Passive/Replay/Queue.antt =====
-- The quantity that the replay of a probe finds, against its closed form.
use crypto_microstructure_ma.Prelude.{
  ℕ, ◌+◌, ◌-◌, ◌≤◌, ◌≡◌, refl, min, Bool, true, false, ◌||◌, List, [], ◌∷◌, arith, inl, inr,
  Bool-cases, if◌then◌else◌,
}
use crypto_microstructure_ma.Passive.Replay.{
  Trade, Probe, ReplayState, queue_of, qualifies, replay_window, initial_replay, fill_through,
  fill_at_price, record_trade, fill_by, on_trade, is_done, replay_trades, recompute, compare_fills,
  replay_sample,
}

-- What is traded at the quote's price.
abbrev pub volume_at : Probe → List Trade → ℕ
volume_at p [] = 0
volume_at p (t ∷ ts) =
    let rest = volume_at p ts in if (qualifies p t).0 then t.amount + rest else rest

-- Whether a trade goes through the quote.
abbrev pub goes_through : Probe → List Trade → Bool
goes_through p [] = false
goes_through p (t ∷ ts) = (qualifies p t).1 || goes_through p ts

-- The fill of an order that has `filled` behind `queue`: all of it if the quote is traded through,
-- else what is traded at its price past the queue.
abbrev pub fill_of : ℕ → ℕ → ℕ → Bool → ℕ → ℕ
fill_of order_qty filled queue through volume =
    if through then order_qty else min order_qty (filled + (volume - queue))

abbrev pub fill_from : Probe → ReplayState → List Trade → ℕ
fill_from p s ts = fill_of p.quote_qty s.filled s.queue (goes_through p ts) (volume_at p ts)

-- The fill is this one, but for a rest within the tolerance.
abbrev pub IsWithin : ℕ → ℕ → ℕ → Type 0
IsWithin tolerance filled fill = (filled ≤ fill) × (fill ≤ filled + tolerance)

-- One trade's part in the closed form.
on_trade-fill_of :
    (tolerance order_qty : ℕ) (same through : Bool) (t : Trade) (s : ReplayState) (later : Bool)
    (volume : ℕ)
    → s.filled ≤ order_qty
    → let next = on_trade tolerance order_qty (same, through) t s in
      (next.filled ≤ order_qty)
      × (fill_of order_qty next.filled next.queue later volume
          ≡ fill_of order_qty s.filled s.queue
              (through || later)
              (if same then t.amount + volume else volume))
unfolding on_trade record_trade fill_by fill_through fill_at_price
on_trade-fill_of tolerance order_qty true true t s later volume l = ground arith
on_trade-fill_of tolerance order_qty false true t s later volume l = ground arith
on_trade-fill_of tolerance order_qty true false t s true volume l = (omega (arith, l), refl)
on_trade-fill_of tolerance order_qty true false t s false volume l =
    (omega (arith, l), omega (arith, l))
on_trade-fill_of tolerance order_qty false false t s later volume l = (l, refl)

fill_of-bounds :
    (order_qty filled queue : ℕ) (through : Bool) (volume : ℕ)
    → filled ≤ order_qty
    → let fill = fill_of order_qty filled queue through volume in
      (filled ≤ fill) × (fill ≤ order_qty)
fill_of-bounds order_qty filled queue through volume l = ground (arith, l)

is_done-enough :
    (tolerance order_qty : ℕ) (kind : Bool × Bool) (s : ReplayState)
    → is_done tolerance order_qty kind s ≡ true
    → order_qty ≤ s.filled + tolerance
unfolding is_done
is_done-enough tolerance order_qty kind s e = ground (arith, e)

replay_trades-IsWithin :
    (tolerance : ℕ) (p : Probe) (ts : List Trade) (s : ReplayState)
    → s.filled ≤ p.quote_qty
    → IsWithin tolerance (replay_trades tolerance p ts s).filled (fill_from p s ts)
unfolding replay_trades is_done
replay_trades-IsWithin tolerance p [] s l = (omega (arith, l), omega arith)
replay_trades-IsWithin tolerance p (t ∷ ts) s l =
    let next = on_trade tolerance p.quote_qty (qualifies p t) t s in
    let (most, same) =
      on_trade-fill_of tolerance p.quote_qty (qualifies p t).0 (qualifies p t).1 t s
        (goes_through p ts) (volume_at p ts) l in
    let (above, below) = replay_trades-IsWithin tolerance p ts next most in
    let (least, all) =
      fill_of-bounds p.quote_qty next.filled next.queue (goes_through p ts) (volume_at p ts) most in
    elim (Bool-cases (is_done tolerance p.quote_qty (qualifies p t) next)) [
      | inl e ↦
          let enough = is_done-enough tolerance p.quote_qty (qualifies p t) next e in
          rw e (omega (arith, same, least), omega (arith, same, all, enough))
      | inr e ↦ rw e (omega (arith, same, above), omega (arith, same, below))
    ]

-- The quantity that the replay of a probe reports is that of the closed form, for the queue at the
-- placement and the trades of the window, but for a rest within the tolerance.
pub replay_sample-IsWithin :
    (tolerance within : ℕ) (p : Probe) (trades : List Trade)
    → IsWithin tolerance (replay_sample tolerance within p trades).recomputed.filled_qty (
        fill_of p.quote_qty 0
          (queue_of p.queue_ahead_initial)
          (goes_through p (replay_window p trades))
          (volume_at p (replay_window p trades)))
unfolding replay_sample recompute compare_fills initial_replay
replay_sample-IsWithin tolerance within p trades =
    let window = replay_window p trades in
    let (above, below) =
      replay_trades-IsWithin tolerance p window (initial_replay p) (omega arith) in
    let (least, all) =
      fill_of-bounds p.quote_qty 0 (queue_of p.queue_ahead_initial) (goes_through p window)
        (volume_at p window) (omega arith) in
    (omega (arith, above, all), omega (arith, below, all))
