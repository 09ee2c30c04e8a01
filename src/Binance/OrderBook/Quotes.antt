-- ===== src/Binance/OrderBook/Quotes.antt =====
-- What the order book (cpp/book/order_book.cpp) answers: its best prices, the spread and the sum of
-- the best prices, and the first levels of each side.
use crypto_microstructure_ma.Prelude.{
  ℕ, Bool, true, false, Option, none, some, [], ◌∷◌, if◌then◌else◌, take,
}
use crypto_microstructure_ma.Prelude.Int.{ℤ, pos, ◌+ℤ◌, ◌-ℤ◌, ltb_ℤ}
use crypto_microstructure_ma.Binance.OrderBook.{Levels, OrderBook}

-- The first price of a side, if the book is valid.
abbrev pub best_if : Bool → Levels → Option ℤ
best_if false side = none
best_if true [] = none
best_if true (level ∷ side) = some level.0

unfoldable pub best_bid : OrderBook → Option ℤ
best_bid b = best_if b.valid b.bids

unfoldable pub best_ask : OrderBook → Option ℤ
best_ask b = best_if b.valid b.asks

abbrev pub on_both : (ℤ → ℤ → Option ℤ) → Option ℤ → Option ℤ → Option ℤ
on_both f none ask = none
on_both f (some bid) none = none
on_both f (some bid) (some ask) = f bid ask

unfoldable pub spread_ticks : OrderBook → Option ℤ
spread_ticks b = on_both (λ bid ask. some (ask -ℤ bid)) (best_bid b) (best_ask b)

-- `std::numeric_limits<std::int64_t>::max()`
abbrev pub int64_max : ℕ
int64_max = 9_223_372_036_854_775_807

-- None where the sum does not fit.
unfoldable pub checked_sum : ℤ → ℤ → Option ℤ
checked_sum bid ask = if ltb_ℤ (pos int64_max -ℤ ask) bid then none else some (bid +ℤ ask)

unfoldable pub mid_ticks_x2 : OrderBook → Option ℤ
mid_ticks_x2 b = on_both checked_sum (best_bid b) (best_ask b)

abbrev pub top_if : Bool → ℕ → Levels → Levels
top_if false n side = []
top_if true n side = take n side

unfoldable pub top_n_bids : ℕ → OrderBook → Levels
top_n_bids n b = top_if b.valid n b.bids

unfoldable pub top_n_asks : ℕ → OrderBook → Levels
top_n_asks n b = top_if b.valid n b.asks
