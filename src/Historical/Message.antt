-- ===== src/Historical/Message.antt =====
-- `DepthMessage` of pyresearch/historical/l2.py: one order-book message, its place in the stream,
-- and the test for a snapshot that a replay can start from.
use crypto_microstructure_ma.Prelude.{
  ℕ, zero, suc, Bool, true, false, ◌&&◌, Option, none, some, List, [], ◌∷◌, ◌++◌, leb, ◌==◌,
  if◌then◌else◌,
}
use crypto_microstructure_ma.Prelude.Int.{ℤ, pos, negsuc, floor_div, abs, ltb_ℤ}

-- A Python `str`, by its code points.
abbrev pub Text : Type 0
Text = List ℕ

pub data EventType : Type 0 where
  snapshot update : EventType
  other : Text → EventType

-- Receive times and update ids are not negative; exchange times are signed.
pub record DepthMessage : Type 0 where
  pub received_time_ns : ℕ
  pub event_time : ℤ
  pub transaction_time : Option ℤ
  pub symbol : Text
  pub event_type : EventType
  pub first_update_id : Option ℕ
  pub final_update_id : Option ℕ
  pub prev_final_update_id : Option ℕ
  pub last_update_id : Option ℕ
  pub source_object : Text
  pub source_ordinal : ℕ
  pub bids : List (Text × Text)
  pub asks : List (Text × Text)

-- `value or -1`: a missing id and the id 0 both give -1.
abbrev pub or_minus_one : Option ℕ → ℤ
or_minus_one none = negsuc 0
or_minus_one (some zero) = negsuc 0
or_minus_one (some (suc n)) = pos (suc n)

unfoldable pub sequence_anchor : DepthMessage → ℤ
sequence_anchor m = elim m.event_type [
  | EventType.snapshot ↦ or_minus_one m.last_update_id
  | _ ↦ or_minus_one m.final_update_id
]

unfoldable pub type_rank : EventType → ℤ
type_rank EventType.snapshot = pos 0
type_rank _ = pos 1

-- The tuple by which messages are ordered.
unfoldable pub ordering_key : DepthMessage → List ℤ
unfolding sequence_anchor type_rank
ordering_key m =
    pos m.received_time_ns
    ∷ sequence_anchor m
    ∷ type_rank m.event_type
    ∷ or_minus_one m.first_update_id
    ∷ or_minus_one m.prev_final_update_id
    ∷ pos m.source_ordinal
    ∷ []

-- Python's `<=` on tuples of numbers.
unfoldable pub key_leb : List ℤ → List ℤ → Bool
key_leb [] bs = true
key_leb (a ∷ as') [] = false
key_leb (a ∷ as') (b ∷ bs) = if ltb_ℤ a b then true else if ltb_ℤ b a then false else key_leb as' bs

unfoldable pub to_exchange_ms : Option ℤ → ℤ
to_exchange_ms none = pos 0
to_exchange_ms (some value) =
    if leb 100_000_000_000_000_000 (abs value)
    then floor_div value 1_000_000
    else if leb 100_000_000_000_000 (abs value)
    then floor_div value 1_000
    else value

abbrev bid_text : Text
bid_text = b'b' ∷ b'i' ∷ b'd' ∷ []

abbrev ask_text : Text
ask_text = b'a' ∷ b's' ∷ b'k' ∷ []

abbrev pub text_eq : Text → Text → Bool
text_eq [] [] = true
text_eq [] (d ∷ ds) = false
text_eq (c ∷ cs) [] = false
text_eq (c ∷ cs) (d ∷ ds) = (c == d) && text_eq cs ds

-- The message with the level, or none for the `ValueError` of an unexpected side.
unfoldable pub add_level : Text → Text → Text → DepthMessage → Option DepthMessage
add_level side price quantity m =
    if text_eq side bid_text
    then some (record m { bids = m.bids ++ (price, quantity) ∷ [] })
    else if text_eq side ask_text
    then some (record m { asks = m.asks ++ (price, quantity) ∷ [] })
    else none
