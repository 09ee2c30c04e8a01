-- ===== src/Passive/Replay.antt =====
-- `_qualifying_trade` and `_replay_sample` of pyresearch/passive/manual_audit.py: a probe's queue
-- and its fill, from the raw trades. Prices are in ticks and quantities in a unit that makes the
-- tolerance of 1e-12 a whole number; a number that is missing is `none`.
use crypto_microstructure_ma.Prelude.Arrays.{when}
use crypto_microstructure_ma.Prelude.{
  ℕ, suc, ◌+◌, ◌-◌, min, Bool, true, false, ◌&&◌, ◌||◌, not, Option, none, some, List, [], ◌∷◌,
  ◌++◌, map, ltb, leb, ◌==◌, if◌then◌else◌, length,
}
use crypto_microstructure_ma.Prelude.Search.{search_right, search_left, slice}
pub mod Queue
pub mod Times

pub data QuoteSide : Type 0 where
  bid ask : QuoteSide

pub data Aggressor : Type 0 where
  buy sell unknown : Aggressor

pub data FillReason : Type 0 where
  same_price_aggressor_trade trade_through : FillReason

pub record Trade : Type 0 where
  pub timestamp : ℕ
  pub local_timestamp : ℕ
  pub trade_id : ℕ
  pub side : Aggressor
  pub price : ℕ
  pub amount : ℕ

-- A fill as the simulator gives it, and as the replay finds it.
pub record Fill : Type 0 where
  pub filled_qty : ℕ
  pub first_fill_local : Option ℕ
  pub first_fill_exchange : Option ℕ
  pub full_fill_local : Option ℕ
  pub full_fill_exchange : Option ℕ
  pub fill_reason : Option FillReason

pub record Probe : Type 0 where
  pub side : QuoteSide
  pub quote_price : Option ℕ
  pub quote_qty : ℕ
  pub queue_ahead_initial : Option ℕ
  pub placement_local : ℕ
  pub expiry_local : ℕ
  pub next_snapshot_local : Option ℕ
  pub simulator : Fill

-- One of the trades shown to the reader of the audit.
pub record RelevantTrade : Type 0 where
  pub event : Trade
  pub same_price : Bool
  pub through : Bool
  pub queue_before : ℕ
  pub queue_after : ℕ
  pub filled_before : ℕ
  pub filled_after : ℕ

pub record ReplayState : Type 0 where
  pub queue : ℕ
  pub filled : ℕ
  pub at_price_qty : ℕ
  pub relevant : List RelevantTrade
  pub fill_reason : Option FillReason
  pub first_fill : Option Trade
  pub full_fill : Option Trade

pub record ReplayReport : Type 0 where
  pub recomputed : Fill
  pub filled_qty_match : Bool
  pub first_fill_local_match : Bool
  pub first_fill_exchange_match : Bool
  pub full_fill_local_match : Bool
  pub full_fill_exchange_match : Bool
  pub fill_reason_match : Bool
  pub same_price_traded_qty : ℕ
  pub relevant_total : ℕ
  pub relevant_shown : List RelevantTrade

abbrev pub is_at : Option ℕ → ℕ → Bool
is_at none price = false
is_at (some q) price = price == q

abbrev pub is_under : Option ℕ → ℕ → Bool
is_under none price = false
is_under (some q) price = ltb price q

abbrev pub is_over : Option ℕ → ℕ → Bool
is_over none price = false
is_over (some q) price = ltb q price

-- Whether a trade is at the quote's price, and whether it is through it.
unfoldable pub qualifying_trade : QuoteSide → Option ℕ → Aggressor → ℕ → Bool × Bool
qualifying_trade bid quote sell price = (is_at quote price, is_under quote price)
qualifying_trade bid quote buy price = (false, false)
qualifying_trade bid quote unknown price = (false, false)
qualifying_trade ask quote buy price = (is_at quote price, is_over quote price)
qualifying_trade ask quote sell price = (false, false)
qualifying_trade ask quote unknown price = (false, false)

unfoldable pub qualifies : Probe → Trade → Bool × Bool
qualifies p t = qualifying_trade p.side p.quote_price t.side t.price

-- The end of the replay: the order's expiry, or a snapshot of the book before it.
unfoldable pub replay_end : ℕ → ℕ → Option ℕ → ℕ
replay_end start end none = end
replay_end start end (some snapshot) =
    if ltb start snapshot && ltb snapshot end then snapshot else end

unfoldable pub replay_window : Probe → List Trade → List Trade
replay_window p trades =
    let end = replay_end p.placement_local p.expiry_local p.next_snapshot_local in
    slice (search_right Trade.local_timestamp p.placement_local trades)
      (search_left Trade.local_timestamp end trades) trades

abbrev pub queue_of : Option ℕ → ℕ
queue_of none = 0
queue_of (some q) = q

unfoldable pub initial_replay : Probe → ReplayState
initial_replay p = record {
  queue = queue_of p.queue_ahead_initial;
  filled = 0;
  at_price_qty = 0;
  relevant = [];
  fill_reason = none;
  first_fill = none;
  full_fill = none;
}

-- The first of two.
abbrev pub first_of {ℓ} : {A : Type ℓ} → Option A → Option A → Option A
first_of none o = o
first_of (some a) o = some a

-- A trade through the quote fills the rest of the order.
unfoldable pub fill_through : ℕ → ReplayState → ReplayState
fill_through order_qty s = record s {
  queue = 0;
  filled = order_qty;
  fill_reason = some trade_through;
}

-- A trade at the quote's price takes the queue first, and then the order.
unfoldable pub fill_at_price : ℕ → ℕ → ReplayState → ReplayState
fill_at_price order_qty amount s =
    let consumed = min s.queue amount in
    let filled = s.filled + min (order_qty - s.filled) (amount - consumed) in
    record s {
      queue = s.queue - consumed;
      filled = filled;
      at_price_qty = s.at_price_qty + amount;
      fill_reason = first_of s.fill_reason (when (ltb s.filled filled) same_price_aggressor_trade);
    }

-- The trade is recorded, as the first fill and as the one that completes the order, and among the
-- first fifty that are shown.
unfoldable pub record_trade : ℕ → ℕ → Trade → Bool × Bool → ReplayState → ReplayState → ReplayState
record_trade tolerance order_qty t kind before s = record s {
  first_fill = first_of s.first_fill (when (ltb before.filled s.filled) t);
  full_fill = first_of s.full_fill (when (leb order_qty (s.filled + tolerance)) t);
  relevant =
      if ltb (length s.relevant) 50
      then s.relevant
        ++ (record {
          event = t;
          same_price = kind.0;
          through = kind.1;
          queue_before = before.queue;
          queue_after = s.queue;
          filled_before = before.filled;
          filled_after = s.filled;
        }
            ∷ [])
      else s.relevant;
}

unfoldable pub fill_by : Bool × Bool → ℕ → Trade → ReplayState → ReplayState
fill_by kind order_qty t s =
    if kind.1 then fill_through order_qty s else fill_at_price order_qty t.amount s

unfoldable pub on_trade : ℕ → ℕ → Bool × Bool → Trade → ReplayState → ReplayState
on_trade tolerance order_qty kind t s =
    if kind.0 || kind.1
    then record_trade tolerance order_qty t kind s (fill_by kind order_qty t s)
    else s

-- The loop's `break` is asked after a trade that qualifies.
unfoldable pub is_done : ℕ → ℕ → Bool × Bool → ReplayState → Bool
is_done tolerance order_qty kind s = (kind.0 || kind.1) && leb order_qty (s.filled + tolerance)

unfoldable pub replay_trades : ℕ → Probe → List Trade → ReplayState → ReplayState
replay_trades tolerance p [] s = s
replay_trades tolerance p (t ∷ ts) s =
    let next = on_trade tolerance p.quote_qty (qualifies p t) t s in
    let rest = replay_trades tolerance p ts next in
    if is_done tolerance p.quote_qty (qualifies p t) next then next else rest

abbrev is_same : Option ℕ → Option ℕ → Bool
is_same none none = true
is_same (some a) (some b) = a == b
is_same none (some b) = false
is_same (some a) none = false

abbrev is_same_reason : Option FillReason → Option FillReason → Bool
is_same_reason none none = true
is_same_reason (some same_price_aggressor_trade) (some same_price_aggressor_trade) = true
is_same_reason (some trade_through) (some trade_through) = true
is_same_reason _ _ = false

abbrev time_of : (Trade → ℕ) → Option Trade → Option ℕ
time_of time none = none
time_of time (some t) = some (time t)

-- `abs(a - b) < 1e-9`
abbrev pub is_close : ℕ → ℕ → ℕ → Bool
is_close within a b = ltb (a - b + (b - a)) within

unfoldable pub count_relevant : Probe → List Trade → ℕ
count_relevant p [] = 0
count_relevant p (t ∷ ts) =
    let rest = count_relevant p ts in
    if (qualifies p t).0 || (qualifies p t).1 then suc rest else rest

unfoldable pub recompute : ℕ → ReplayState → Fill
recompute order_qty s = record {
  filled_qty = min order_qty s.filled;
  first_fill_local = time_of Trade.local_timestamp s.first_fill;
  first_fill_exchange = time_of Trade.timestamp s.first_fill;
  full_fill_local = time_of Trade.local_timestamp s.full_fill;
  full_fill_exchange = time_of Trade.timestamp s.full_fill;
  fill_reason = s.fill_reason;
}

unfoldable pub compare_fills : ℕ → Fill → Fill → Probe → List Trade → ReplayState → ReplayReport
compare_fills within found given p window s = record {
  recomputed = found;
  filled_qty_match = is_close within found.filled_qty given.filled_qty;
  first_fill_local_match = is_same found.first_fill_local given.first_fill_local;
  first_fill_exchange_match = is_same found.first_fill_exchange given.first_fill_exchange;
  full_fill_local_match = is_same found.full_fill_local given.full_fill_local;
  full_fill_exchange_match = is_same found.full_fill_exchange given.full_fill_exchange;
  fill_reason_match = is_same_reason found.fill_reason given.fill_reason;
  same_price_traded_qty = s.at_price_qty;
  relevant_total = count_relevant p window;
  relevant_shown = s.relevant;
}

unfoldable pub replay_sample : ℕ → ℕ → Probe → List Trade → ReplayReport
replay_sample tolerance within p trades =
    let window = replay_window p trades in
    let s = replay_trades tolerance p window (initial_replay p) in
    compare_fills within (recompute p.quote_qty s) p.simulator p window s

-- `all(item[check] for check in checks)`
unfoldable pub is_consistent : ReplayReport → Bool
is_consistent r =
    r.filled_qty_match && r.first_fill_local_match && r.first_fill_exchange_match
    && r.full_fill_local_match && r.full_fill_exchange_match && r.fill_reason_match
