-- ===== src/RawFormat.antt =====
-- The records of the raw format: `ExistingRawFormatWriter` of pyresearch/historical/l2.py writes
-- them, and `RawEventReader` of cpp/storage/raw_event_writer.cpp reads them. Bytes are numbers
-- under 256; a string is its encoded bytes. The compression of a block is left out.
use crypto_microstructure_ma.Prelude.{
  ℕ, zero, suc, ◌+◌, ◌-◌, ◌*◌, ◌/◌, ◌%◌, Bool, Option, none, some, List, [], ◌∷◌, ◌++◌, ltb, leb,
  ◌==◌, if◌then◌else◌, length, take, drop,
}
use crypto_microstructure_ma.Prelude.Int.{ℤ, pos, negsuc}
pub mod RoundTrip
pub mod Files
pub mod Rotation
mod Tests

abbrev pub Bytes : Type 0
Bytes = List ℕ

pub record RawRecord : Type 0 where
  pub local_system_ns : ℕ
  pub local_steady_ns : ℕ
  pub exchange_time_ms : ℤ
  pub event_type : ℕ
  pub session_id : Bytes
  pub stream : Bytes
  pub payload : Bytes

abbrev pub bind {ℓ κ} : {A : Type ℓ} {B : Type κ} → Option A → (A → Option B) → Option B
bind none f = none
bind (some a) f = f a

-- `256 ** width`
abbrev pub pow256 : ℕ → ℕ
pow256 zero = 1
pow256 (suc w) = 256 * pow256 w

unfoldable pub le_bytes : ℕ → ℕ → Bytes
le_bytes zero n = []
le_bytes (suc w) n = n % 256 ∷ le_bytes w (n / 256)

-- `struct.pack` of an unsigned number; none for its error out of range.
unfoldable pub pack_unsigned : ℕ → ℕ → Option Bytes
pack_unsigned w n = if ltb n (pow256 w) then some (le_bytes w n) else none

abbrev pub half : ℕ
half = 9_223_372_036_854_775_808

-- `struct.pack("<q", …)`, in two's complement.
unfoldable pub pack_signed : ℤ → Option Bytes
pack_signed (pos n) = if ltb n half then some (le_bytes 8 n) else none
pack_signed (negsuc n) = if ltb n half then some (le_bytes 8 (half + half - 1 - n)) else none

-- `_string`
unfoldable pub pack_string : Bytes → Option Bytes
pack_string s = bind (pack_unsigned 4 (length s)) (λ size. some (size ++ s))

-- The body of a record, as `write` encodes it; it gives both clocks one stamp and the session a
-- fixed name.
unfoldable pub encode_record : RawRecord → Option Bytes
encode_record r = bind (pack_unsigned 8 r.local_system_ns) (λ system.
    bind (pack_unsigned 8 r.local_steady_ns) (λ steady.
      bind (pack_signed r.exchange_time_ms) (λ exchange.
        bind (pack_unsigned 1 r.event_type) (λ type. bind (pack_string r.session_id) (λ session.
          bind (pack_string r.stream) (λ stream. bind (pack_string r.payload) (λ payload.
            some (
              system ++ (steady ++ (exchange ++ (type ++ (session ++ (stream ++ payload)))))))))))))

-- `read_le`: the number and the bytes behind it; none for a truncated block.
unfoldable pub read_le : ℕ → Bytes → Option (ℕ × Bytes)
read_le zero bs = some (0, bs)
read_le (suc w) [] = none
read_le (suc w) (b ∷ bs) = bind (read_le w bs) (λ r. some (b + 256 * r.0, r.1))

abbrev pub signed : ℕ → ℤ
signed v = if ltb v half then pos v else negsuc (half + half - 1 - v)

-- `read_le` of a signed number.
unfoldable pub read_signed : Bytes → Option (ℤ × Bytes)
read_signed bs = bind (read_le 8 bs) (λ r. some (signed r.0, r.1))

unfoldable pub read_string : Bytes → Option (Bytes × Bytes)
read_string bs =
    bind (read_le 4 bs)
      (λ r. if leb r.0 (length r.1) then some (take r.0 r.1, drop r.0 r.1) else none)

abbrev pub no_trailing : RawRecord → Bytes → Option RawRecord
no_trailing r [] = some r
no_trailing r (b ∷ bs) = none

-- A record's view in `RawEventReader::for_each`.
unfoldable pub decode_record : Bytes → Option RawRecord
decode_record bs = bind (read_le 8 bs) (λ system. bind (read_le 8 system.1) (λ steady.
    bind (read_signed steady.1) (λ exchange. bind (read_le 1 exchange.1) (λ type.
      bind (read_string type.1) (λ session. bind (read_string session.1) (λ stream.
        bind (read_string stream.1) (λ payload.
          no_trailing
            (record {
              local_system_ns = system.0;
              local_steady_ns = steady.0;
              exchange_time_ms = exchange.0;
              event_type = type.0;
              session_id = session.0;
              stream = stream.0;
              payload = payload.0;
            })
            payload.1)))))))
