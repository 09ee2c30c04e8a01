-- ===== src/SignalSearch/Tests.antt =====
-- Three samples a tenth of a second apart, of one segment.
use crypto_microstructure_ma.Prelude.{ℕ, ◌%◌, ◌<◌, ◌≡◌, true, none, some, List, [], ◌∷◌, length}
use crypto_microstructure_ma.Prelude.Int.{pos, negsuc, ◌-ℤ◌}
use crypto_microstructure_ma.SignalSearch.{
  Quote, BboCash, is_tradable, cash_at, cash_of, returns_at, bbo_return, bbo_returns,
}
use crypto_microstructure_ma.SignalSearch.Returns.{IsExecutable, EachRow, bbo_returns-EachRow}

abbrev quote_at : ℕ → ℕ → Quote
quote_at bid ask = record {
  best_bid = some bid;
  best_ask = some ask;
  is_valid = true;
  segment = some 1;
}

abbrev small_quotes : List Quote
small_quotes = quote_at 100 101 ∷ quote_at 101 102 ∷ quote_at 104 106 ∷ []

abbrev small_cash : BboCash
small_cash = record {
  long_gross = pos 20000;
  short_gross = negsuc 49999;
  long_net = pos 19176;
  short_net = negsuc 50827;
}

bbo_returns-EachRow_example :
    (1 < 2)
    × (100 % 100 ≡ 0)
    × (200 % 100 ≡ 0)
    × (3 ≡ length small_quotes)
    × EachRow (IsExecutable small_quotes 1 2) 0 (some small_cash ∷ none ∷ none ∷ [])
unfolding is_tradable cash_at cash_of returns_at bbo_return bbo_returns ◌-ℤ◌
bbo_returns-EachRow_example = bbo_returns-EachRow 4 100 200 small_quotes
