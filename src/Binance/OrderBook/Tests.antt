-- ===== src/Binance/OrderBook/Tests.antt =====
-- An order book with two bids and an ask.
use crypto_microstructure_ma.Prelude.{◌≡◌, refl, true, some, List, [], ◌∷◌, map}
use crypto_microstructure_ma.Prelude.Int.{ℤ, pos, ◌+ℤ◌, ◌-ℤ◌}
use crypto_microstructure_ma.Historical.Message.{Text}
use crypto_microstructure_ma.Historical.Samples.{quiet}
use crypto_microstructure_ma.Historical.Emission.{DepthUpdate, DepthSnapshot}
use crypto_microstructure_ma.Binance.OrderBook.{
  Levels, OrderBook, int_eq, set_level, erase_level, apply_level, apply_levels, tops_apart,
  is_uncrossed, load_snapshot, apply_depth_event,
}
use crypto_microstructure_ma.Binance.OrderBook.Updates.{IsBook, Loads, Applies, updates-Refine}
use crypto_microstructure_ma.Binance.OrderBook.Quotes.{
  checked_sum, best_bid, best_ask, mid_ticks_x2,
}

-- The first character of a text stands for its number here.
abbrev first_code : Text → ℤ
first_code [] = pos 0
first_code (c ∷ cs) = pos c

abbrev coded : List (Text × Text) → Levels
coded = map λ (l : Text × Text). (first_code l.0, first_code l.1)

abbrev small_book : OrderBook
small_book = record {
  bids = (pos 10, pos 2) ∷ (pos 9, pos 1) ∷ [];
  asks = (pos 12, pos 5) ∷ [];
  last_update_id = 7;
  valid = true;
}

small_book-IsBook : IsBook small_book
unfolding int_eq tops_apart
small_book-IsBook = (
  (((refl, tt), (tt, tt)), ((refl, (refl, refl)), ((refl, (refl, refl)), tt))),
  (((tt, tt), ((refl, (refl, refl)), tt)), refl),
)

abbrev small_snapshot : DepthSnapshot
small_snapshot = record {
  message = record quiet {
    bids = (5 ∷ [], 1 ∷ []) ∷ (6 ∷ [], 2 ∷ []) ∷ [];
    asks = (8 ∷ [], 4 ∷ []) ∷ [];
  };
  last_update_id = 3;
}

abbrev small_update : DepthUpdate
small_update = record {
  message = record quiet {
    bids = (10 ∷ [], 0 ∷ []) ∷ (11 ∷ [], 3 ∷ []) ∷ [];
    asks = (12 ∷ [], 6 ∷ []) ∷ [];
  };
  first_update_id = 8;
  final_update_id = 9;
  prev_final_update_id = 7;
}

updates-Refine_example :
    Loads coded small_snapshot (load_snapshot coded small_snapshot small_book)
    × Applies coded small_update small_book (apply_depth_event coded small_update small_book)
updates-Refine_example =
    updates-Refine coded small_snapshot small_update small_book small_book-IsBook

after_update : apply_depth_event coded small_update small_book ≡ (
  record {
    bids = (pos 11, pos 3) ∷ (pos 9, pos 1) ∷ [];
    asks = (pos 12, pos 6) ∷ [];
    last_update_id = 9;
    valid = true;
  },
  true,
)
unfolding int_eq set_level erase_level apply_level apply_levels tops_apart is_uncrossed
    apply_depth_event
after_update = refl

sum_of_small : mid_ticks_x2 small_book ≡ some (pos 22)
unfolding best_bid best_ask mid_ticks_x2 checked_sum ◌+ℤ◌ ◌-ℤ◌
sum_of_small = refl
