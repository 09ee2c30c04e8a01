-- ===== src/Binance/OrderBook/Bounds.antt =====
-- The bounds of the order book's answers (cpp/book/order_book.cpp).
use crypto_microstructure_ma.Prelude.{
  ℕ, min, ◌≡◌, Bool, true, false, Option, none, some, [], ◌++◌, All, length, drop, if◌then◌else◌,
}
use crypto_microstructure_ma.Prelude.Int.{ℤ, pos, ◌+ℤ◌, ◌≤ℤ◌, leb_ℤ}
use crypto_microstructure_ma.Binance.OrderBook.{Levels, OrderBook}
use crypto_microstructure_ma.Binance.OrderBook.Quotes.{
  best_bid, best_ask, spread_ticks, int64_max, mid_ticks_x2, top_n_bids, top_n_asks,
}

-- The first n levels of a side, or all of them where there are fewer.
abbrev pub AreFirst : ℕ → Levels → Levels → Type 0
AreFirst n top side = side ≡ top ++ drop n side × length top ≡ min n (length side)

-- A number that fits into 64 bits with a sign, from a sum that is not negative.
abbrev pub if_fits : ℤ → Option ℤ
if_fits a = if leb_ℤ a (pos int64_max) then some a else none

-- What a valid book answers.
abbrev pub Answers : ℕ → OrderBook → Type 0
Answers n b =
    (bid ask spread : ℤ) × (best_bid b ≡ some bid
      × (best_ask b ≡ some ask
          × (All (λ level. level.0 ≤ℤ bid) b.bids
              × (All (λ level. ask ≤ℤ level.0) b.asks
                  × (spread_ticks b ≡ some spread
                      × (pos 1 ≤ℤ spread
                          × (spread ≤ℤ ask
                              × (mid_ticks_x2 b ≡ if_fits (bid +ℤ ask)
                                  × (AreFirst n (top_n_bids n b) b.bids
                                      × AreFirst n (top_n_asks n b) b.asks)))))))))

-- What a book answers that is not valid.
abbrev pub AnswersNothing : ℕ → OrderBook → Type 0
AnswersNothing n b =
    best_bid b ≡ none
    × (best_ask b ≡ none
        × (spread_ticks b ≡ none
            × (mid_ticks_x2 b ≡ none × (top_n_bids n b ≡ [] × top_n_asks n b ≡ []))))

-- What a book answers, valid or not.
abbrev pub AnswersIf : Bool → ℕ → OrderBook → Type 0
AnswersIf true n b = Answers n b
AnswersIf false n b = AnswersNothing n b
