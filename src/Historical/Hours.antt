-- ===== src/Historical/Hours.antt =====
-- `iter_hour_messages` of pyresearch/historical/l2.py: the rows of an hour's file are grouped into
-- messages, and the messages are put in the order of their keys. The database that the source
-- sorts with is a stable sort here.
use crypto_microstructure_ma.Prelude.{
  ℕ, ◌+◌, Bool, true, false, ◌&&◌, Option, none, some, List, [], ◌∷◌, ◌++◌, ◌==◌, if◌then◌else◌,
}
use crypto_microstructure_ma.Prelude.Int.{ℤ, ltb_ℤ, leb_ℤ}
use crypto_microstructure_ma.Prelude.Results.{Fallible, ok, err, ◌>>=◌}
use crypto_microstructure_ma.Historical.Message.{
  Text, text_eq, EventType, DepthMessage, add_level, ordering_key, key_leb,
}
pub mod Order
pub mod Levels

-- One row of the file: a level with the message's fields.
pub record LevelRow : Type 0 where
  pub received_time : ℕ
  pub event_time : ℤ
  pub transaction_time : Option ℤ
  pub symbol : Text
  pub event_type : EventType
  pub first_update_id : Option ℕ
  pub final_update_id : Option ℕ
  pub prev_final_update_id : Option ℕ
  pub last_update_id : Option ℕ
  pub side : Text
  pub price : Text
  pub quantity : Text

pub data HourError : Type 0 where
  unsupported_event_type unexpected_side : HourError

abbrev same_int : ℤ → ℤ → Bool
same_int a b = leb_ℤ a b && leb_ℤ b a

abbrev same_time : Option ℤ → Option ℤ → Bool
same_time none none = true
same_time none (some b) = false
same_time (some a) none = false
same_time (some a) (some b) = same_int a b

abbrev same_id : Option ℕ → Option ℕ → Bool
same_id none none = true
same_id none (some b) = false
same_id (some a) none = false
same_id (some a) (some b) = a == b

abbrev same_type : EventType → EventType → Bool
same_type EventType.snapshot EventType.snapshot = true
same_type EventType.update EventType.update = true
same_type (EventType.other a) (EventType.other b) = text_eq a b
same_type _ _ = false

-- Equality of the tuples of `_message_identity`.
unfoldable pub same_identity : LevelRow → LevelRow → Bool
same_identity a b =
    a.received_time == b.received_time
    && same_int a.event_time b.event_time
    && same_time a.transaction_time b.transaction_time
    && text_eq a.symbol b.symbol
    && same_type a.event_type b.event_type
    && same_id a.first_update_id b.first_update_id
    && same_id a.final_update_id b.final_update_id
    && same_id a.prev_final_update_id b.prev_final_update_id
    && same_id a.last_update_id b.last_update_id

-- The row that the current message began with, and the message; then the messages so far.
pub record Grouping : Type 0 where
  pub current : Option (LevelRow × DepthMessage)
  pub ordinal : ℕ
  pub spooled : List DepthMessage

unfoldable pub new_message : Text → ℕ → LevelRow → DepthMessage
new_message source ordinal row = record {
  received_time_ns = row.received_time;
  event_time = row.event_time;
  transaction_time = row.transaction_time;
  symbol = row.symbol;
  event_type = row.event_type;
  first_update_id = row.first_update_id;
  final_update_id = row.final_update_id;
  prev_final_update_id = row.prev_final_update_id;
  last_update_id = row.last_update_id;
  source_object = source;
  source_ordinal = ordinal;
  bids = [];
  asks = [];
}

unfoldable pub spool : DepthMessage → Grouping → Grouping
spool m g = record g { current = none; spooled = g.spooled ++ m ∷ [] }

unfoldable pub set_current : LevelRow → Option DepthMessage → Grouping → Fallible HourError Grouping
set_current row none g = err unexpected_side
set_current row (some m) g = ok (record g { current = some (row, m) })

-- The row's level joins a message, which is the current one then.
unfoldable pub add_row : LevelRow → DepthMessage → Grouping → Fallible HourError Grouping
add_row row m g = set_current row (add_level row.side row.price row.quantity m) g

abbrev pub is_supported : EventType → Bool
is_supported (EventType.other t) = false
is_supported _ = true

-- A row that begins a message.
unfoldable pub begin_message : Text → LevelRow → Grouping → Fallible HourError Grouping
begin_message source row g =
    if is_supported row.event_type
    then add_row row (new_message source g.ordinal row) (record g { ordinal = g.ordinal + 1 })
    else err unsupported_event_type

unfoldable pub group_with :
    Text → LevelRow → Option (LevelRow × DepthMessage) → Grouping → Fallible HourError Grouping
group_with source row none g = begin_message source row g
group_with source row (some (first, m)) g =
    if same_identity row first then add_row row m g else begin_message source row (spool m g)

unfoldable pub group_rows : Text → List LevelRow → Grouping → Fallible HourError Grouping
group_rows source [] g = ok g
group_rows source (row ∷ rows) g = group_with source row g.current g >>= group_rows source rows

unfoldable pub close_grouping : Option (LevelRow × DepthMessage) → Grouping → List DepthMessage
close_grouping none g = g.spooled
close_grouping (some (row, m)) g = g.spooled ++ m ∷ []

unfoldable pub insert_message : DepthMessage → List DepthMessage → List DepthMessage
insert_message m [] = m ∷ []
insert_message m (n ∷ ns) =
    if key_leb (ordering_key m) (ordering_key n) then m ∷ n ∷ ns else n ∷ insert_message m ns

-- `ORDER BY received_time, sequence_anchor, …`
unfoldable pub sort_messages : List DepthMessage → List DepthMessage
sort_messages [] = []
sort_messages (m ∷ ms) = insert_message m (sort_messages ms)

unfoldable pub hour_messages : Text → List LevelRow → Fallible HourError (List DepthMessage)
hour_messages source rows =
    group_rows source rows (record { current = none; ordinal = 0; spooled = [] })
    >>= (λ g. ok (sort_messages (close_grouping g.current g)))
