-- ===== src/SignalSearch.antt =====
-- `bbo_returns` of pyresearch/obi/search.py: what a position taken at the best bid and ask would
-- have returned. Prices are whole numbers of a unit, and the returns are the cash, in ten-thousandths
-- of it, whose quotient by the entry's price is left out; what is not finite is `none`.
use crypto_microstructure_ma.Prelude.Arrays.{equal_finite}
use crypto_microstructure_ma.Prelude.{
  ℕ, zero, suc, ◌+◌, ◌-◌, ◌*◌, ◌/◌, ◌%◌, Bool, true, false, ◌&&◌, ◌||◌, Option, none, some, List,
  [], ◌∷◌, map, ltb, leb, ◌==◌, if◌then◌else◌, length,
}
use crypto_microstructure_ma.Prelude.Int.{ℤ, pos, sub_ℕ, ◌-ℤ◌}
use crypto_microstructure_ma.Prelude.Results.{Fallible, ok, err}
pub mod Returns
mod Tests

-- One sample of the day.
pub record Quote : Type 0 where
  pub best_bid : Option ℕ
  pub best_ask : Option ℕ
  pub is_valid : Bool
  pub segment : Option ℕ

pub data SearchError : Type 0 where
  misaligned : SearchError

-- The cash of the two positions, gross and net.
pub record BboCash : Type 0 where
  pub long_gross : ℤ
  pub short_gross : ℤ
  pub long_net : ℤ
  pub short_net : ℤ

-- The books at the decision, the entry and the exit can be traded on, and are of one segment.
unfoldable pub is_tradable : Quote → Quote → Quote → Bool
is_tradable decision entry exit =
    decision.is_valid
    && entry.is_valid
    && exit.is_valid
    && equal_finite decision.segment entry.segment
    && equal_finite decision.segment exit.segment

-- The cash at the quotes of the entry and the exit, at a fee in basis points for each side.
unfoldable pub cash_at : ℕ → ℕ → ℕ → ℕ → ℕ → BboCash
cash_at fee_bps entry_bid entry_ask exit_bid exit_ask =
    let long = sub_ℕ (exit_bid * 10000) (entry_ask * 10000) in
    let short = sub_ℕ (entry_bid * 10000) (exit_ask * 10000) in
    record {
      long_gross = long;
      short_gross = short;
      long_net = long -ℤ pos (fee_bps * (entry_ask + exit_bid));
      short_net = short -ℤ pos (fee_bps * (entry_bid + exit_ask));
    }

-- The cash where the four quotes are finite.
unfoldable pub cash_of : ℕ → Option ℕ → Option ℕ → Option ℕ → Option ℕ → Option BboCash
cash_of fee_bps (some entry_bid) (some entry_ask) (some exit_bid) (some exit_ask) =
    some (cash_at fee_bps entry_bid entry_ask exit_bid exit_ask)
cash_of fee_bps _ _ _ _ = none

unfoldable pub returns_at : ℕ → Quote → Quote → Quote → Option BboCash
returns_at fee_bps decision entry exit =
    if is_tradable decision entry exit
    then cash_of fee_bps entry.best_bid entry.best_ask exit.best_bid exit.best_ask
    else none

abbrev pub row_at : List Quote → ℕ → Option Quote
row_at [] i = none
row_at (q ∷ qs) zero = some q
row_at (q ∷ qs) (suc i) = row_at qs i

abbrev pub on_three : ℕ → Option Quote → Option Quote → Option Quote → Option BboCash
on_three fee_bps (some d) (some e) (some x) = returns_at fee_bps d e x
on_three fee_bps _ _ _ = none

-- The result for one decision: none where the exit is past the last sample.
unfoldable pub bbo_return : ℕ → ℕ → ℕ → List Quote → ℕ → Option BboCash
bbo_return fee_bps latency_steps horizon_steps qs decision =
    on_three fee_bps (row_at qs decision) (row_at qs (decision + latency_steps))
      (row_at qs (decision + horizon_steps))

abbrev pub rows_from : ℕ → List Quote → List ℕ
rows_from i [] = []
rows_from i (q ∷ qs) = i ∷ rows_from (i + 1) qs

abbrev pub is_misaligned : ℕ → ℕ → Bool
is_misaligned horizon_ms latency_ms =
    ltb 0 (horizon_ms % 100) || ltb 0 (latency_ms % 100) || leb horizon_ms latency_ms

unfoldable pub bbo_returns : ℕ → ℕ → ℕ → List Quote → Fallible SearchError (List (Option BboCash))
bbo_returns fee_bps latency_ms horizon_ms qs =
    if is_misaligned horizon_ms latency_ms
    then err misaligned
    else ok (map (bbo_return fee_bps (latency_ms / 100) (horizon_ms / 100) qs) (rows_from 0 qs))
