-- ===== src/Historical/Snapshot.antt =====
-- `DepthMessage.snapshot_is_usable` of pyresearch/historical/l2.py.
use crypto_microstructure_ma.Prelude.{
  ℕ, Bool, true, false, Option, none, some, List, [], ◌∷◌, if◌then◌else◌, ◌==◌,
}
use crypto_microstructure_ma.Historical.Message.{Text, EventType, DepthMessage}
use crypto_microstructure_ma.Historical.Decimal.{Decimal, decimal, decimal_ltb, decimal_positive}

-- The prices of the levels with a positive quantity; none where a text is no decimal. A level
-- that is filtered out has its quantity read and not its price.
unfoldable pub positive_prices : List (Text × Text) → Option (List Decimal)
positive_prices [] = some []
positive_prices ((price, qty) ∷ levels) = elim (decimal qty) [
  | none ↦ none
  | some q ↦ elim (decimal_positive q) [
    | false ↦ positive_prices levels
    | true ↦ elim (decimal price) [
      | none ↦ none
      | some p ↦ elim (positive_prices levels) [ none ↦ none | some ps ↦ some (p ∷ ps) ]
    ]
  ]
]

-- `max` and `min` of a non-empty collection.
unfoldable pub greatest : Decimal → List Decimal → Decimal
greatest d [] = d
greatest d (e ∷ es) = greatest (if decimal_ltb d e then e else d) es

unfoldable pub least : Decimal → List Decimal → Decimal
least d [] = d
least d (e ∷ es) = least (if decimal_ltb e d then e else d) es

-- `bool(bids and asks and max(bids) < min(asks))`
unfoldable pub is_uncrossed : List Decimal → List Decimal → Bool
unfolding greatest least
is_uncrossed [] asks = false
is_uncrossed (b ∷ bids) [] = false
is_uncrossed (b ∷ bids) (a ∷ asks) = decimal_ltb (greatest b bids) (least a asks)

-- `not self.last_update_id`
abbrev pub has_id : Option ℕ → Bool
has_id none = false
has_id (some v) = if v == 0 then false else true

-- None where a price or quantity is no decimal, and the method raises.
unfoldable pub snapshot_is_usable : DepthMessage → Option Bool
unfolding positive_prices is_uncrossed
snapshot_is_usable m = elim m.event_type [
  | EventType.snapshot ↦
      if has_id m.last_update_id
      then elim (positive_prices m.bids) [
        | none ↦ none
        | some bids ↦ elim (positive_prices m.asks) [
          | none ↦ none
          | some asks ↦ some (is_uncrossed bids asks)
        ]
      ]
      else some false
  | _ ↦ some false
]
