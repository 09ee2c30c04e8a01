-- ===== src/Binance/OrderBook.antt =====
-- `OrderBook` (cpp/book/order_book.cpp): two sides of price levels, in ticks and lots. The reading
-- of ticks and lots from a payload's texts is the parameter `levels_of`.
use crypto_microstructure_ma.Prelude.{
  ℕ, ◌≡◌, Bool, true, false, ◌||◌, not, List, [], ◌∷◌, arith, ◌==◌, if◌then◌else◌,
}
use crypto_microstructure_ma.Prelude.Int.{ℤ, pos, negsuc, ltb_ℤ}
use crypto_microstructure_ma.Historical.Message.{Text}
use crypto_microstructure_ma.Historical.Emission.{DepthUpdate, DepthSnapshot}
use crypto_microstructure_ma.Binance.Book.{BookOps}
pub mod Sides
pub mod Updates
pub mod Quotes
pub mod Bounds
mod Tests

-- Price in ticks, quantity in lots.
abbrev pub Levels : Type 0
Levels = List (ℤ × ℤ)

pub record OrderBook : Type 0 where
  pub bids : Levels
  pub asks : Levels
  pub last_update_id : ℕ
  pub valid : Bool

unfoldable pub clear : OrderBook → OrderBook
clear b = record { bids = []; asks = []; last_update_id = 0; valid = false }

unfoldable pub invalidate : OrderBook → OrderBook
invalidate b = record b { valid = false }

unfoldable pub int_eq : ℤ → ℤ → Bool
int_eq (pos a) (pos b) = a == b
int_eq (pos a) (negsuc b) = false
int_eq (negsuc a) (pos b) = false
int_eq (negsuc a) (negsuc b) = a == b

-- `std::map::operator[]` assigned to; `before` is the map's order.
unfoldable pub set_level : (ℤ → ℤ → Bool) → ℤ → ℤ → Levels → Levels
unfolding int_eq
set_level before price qty [] = (price, qty) ∷ []
set_level before price qty ((p, q) ∷ side) =
    if int_eq price p
    then (price, qty) ∷ side
    else if before price p
    then (price, qty) ∷ (p, q) ∷ side
    else (p, q) ∷ set_level before price qty side

-- `std::map::erase`
unfoldable pub erase_level : ℤ → Levels → Levels
unfolding int_eq
erase_level price [] = []
erase_level price ((p, q) ∷ side) = if int_eq price p then side else (p, q) ∷ erase_level price side

abbrev is_negative : ℤ → Bool
is_negative (pos a) = false
is_negative (negsuc a) = true

unfoldable pub apply_level : (ℤ → ℤ → Bool) → ℤ → ℤ → Levels → Levels
unfolding set_level erase_level
apply_level before price qty side =
    if int_eq qty (pos 0) then erase_level price side else set_level before price qty side

-- A negative price or quantity stops the loop; what was applied before stays.
unfoldable pub apply_levels : (ℤ → ℤ → Bool) → Levels → Levels → Levels × Bool
unfolding apply_level
apply_levels before [] side = (side, true)
apply_levels before ((price, qty) ∷ levels) side =
    let rest = apply_levels before levels (apply_level before price qty side) in
    if is_negative price || is_negative qty then (side, false) else rest

-- Of two sides in order: the first price of each.
unfoldable pub tops_apart : Levels → Levels → Bool
tops_apart [] asks = false
tops_apart (x ∷ bids) [] = false
tops_apart (x ∷ bids) (y ∷ asks) = ltb_ℤ x.0 y.0

unfoldable pub is_uncrossed : OrderBook → Bool
unfolding tops_apart
is_uncrossed b = tops_apart b.bids b.asks

-- Bids run downwards and asks upwards.
abbrev pub bid_before : ℤ → ℤ → Bool
bid_before a b = ltb_ℤ b a

abbrev pub ask_before : ℤ → ℤ → Bool
ask_before a b = ltb_ℤ a b

module _ (levels_of : List (Text × Text) → Levels) where
  unfoldable pub load_snapshot : DepthSnapshot → OrderBook → OrderBook × Bool
  unfolding clear apply_levels is_uncrossed
  load_snapshot m b =
      let (bids, bids_done) = apply_levels bid_before (levels_of m.message.bids) [] in
      let (asks, asks_done) = apply_levels ask_before (levels_of m.message.asks) [] in
      let book : OrderBook = record {
        bids = bids;
        asks = asks;
        last_update_id = m.last_update_id;
        valid = false;
      } in
      if not bids_done || not asks_done
      then (clear b, false)
      else (record book { valid = is_uncrossed book }, is_uncrossed book)

  unfoldable pub apply_depth_event : DepthUpdate → OrderBook → OrderBook × Bool
  unfolding invalidate apply_levels is_uncrossed
  apply_depth_event u b =
      let (bids, bids_done) = apply_levels bid_before (levels_of u.message.bids) b.bids in
      let (asks, asks_done) = apply_levels ask_before (levels_of u.message.asks) b.asks in
      let bids_only : OrderBook = record b { bids = bids } in
      let both : OrderBook = record b { bids = bids; asks = asks } in
      let book : OrderBook = record both { last_update_id = u.final_update_id } in
      if not b.valid
      then (b, false)
      else if not bids_done
      then (invalidate bids_only, false)
      else if not asks_done
      then (invalidate both, false)
      else if not (is_uncrossed book)
      then (invalidate book, false)
      else (book, true)

  pub load_snapshot_id :
      (m : DepthSnapshot) (b : OrderBook)
      → (load_snapshot m b).1 ≡ true
      → (load_snapshot m b).0.last_update_id ≡ m.last_update_id
  unfolding load_snapshot
  load_snapshot_id m b h = ground arith

  pub apply_depth_event_id :
      (u : DepthUpdate) (b : OrderBook)
      → (apply_depth_event u b).1 ≡ true
      → (apply_depth_event u b).0.last_update_id ≡ u.final_update_id
  unfolding apply_depth_event
  apply_depth_event_id u b h = ground arith

  -- The order book as the synchronizer uses it.
  unfoldable pub order_book : BookOps
  unfolding clear invalidate load_snapshot apply_depth_event
  order_book = record {
    Book = OrderBook;
    empty_book = record { bids = []; asks = []; last_update_id = 0; valid = false };
    clear = clear;
    invalidate = invalidate;
    load_snapshot = load_snapshot;
    apply_depth_event = apply_depth_event;
    last_update_id = λ b. b.last_update_id;
    load_snapshot_id = load_snapshot_id;
    apply_depth_event_id = apply_depth_event_id;
  }
