-- ===== src/RawFormat/Files.antt =====
-- The raw files: the blocks that `ExistingRawFormatWriter` of pyresearch/historical/l2.py writes,
-- and how `RawEventReader` of cpp/storage/raw_event_writer.cpp reads them. The compression is a
-- parameter, none where it fails, and a file is its bytes.
use crypto_microstructure_ma.Prelude.{
  ℕ, zero, suc, ◌+◌, Bool, true, false, ◌&&◌, Option, none, some, List, [], ◌∷◌, ◌++◌, leb, ◌==◌,
  if◌then◌else◌, length, take, drop,
}
use crypto_microstructure_ma.Prelude.Int.{ℤ}
use crypto_microstructure_ma.RawFormat.{
  Bytes, RawRecord, bind, le_bytes, pack_unsigned, encode_record, read_le, decode_record,
}
pub mod RoundTrip
pub mod Blocks
pub mod Written
pub mod Returned
pub mod Total
pub mod Tests

-- The arguments of a call of `write`.
pub record WriteCall : Type 0 where
  pub timestamp_ns : ℕ
  pub event_type : ℕ
  pub stream : Bytes
  pub payload : Bytes
  pub exchange_time_ms : ℤ

-- The fixed session name.
abbrev pub session_name : Bytes
session_name =
    b'c' ∷ b'r' ∷ b'y' ∷ b'p' ∷ b't' ∷ b'o' ∷ b'h' ∷ b'f' ∷ b't' ∷ b'd' ∷ b'a' ∷ b't' ∷ b'a' ∷ b'-'
    ∷ b'h' ∷ b'i' ∷ b's' ∷ b't' ∷ b'o' ∷ b'r' ∷ b'y' ∷ []

abbrev pub record_of : WriteCall → RawRecord
record_of call = record {
  local_system_ns = call.timestamp_ns;
  local_steady_ns = call.timestamp_ns;
  exchange_time_ms = call.exchange_time_ms;
  event_type = call.event_type;
  session_id = session_name;
  stream = call.stream;
  payload = call.payload;
}

-- `MAGIC`
abbrev pub magic : Bytes
magic = b'C' ∷ b'H' ∷ b'F' ∷ b'T' ∷ b'L' ∷ b'2' ∷ b'R' ∷ b'1' ∷ []

-- The magic and the version.
abbrev pub file_header : Bytes
file_header = magic ++ le_bytes 4 1

pub record BlockWriter : Type 0 where
  pub output : Bytes
  pub block : Bytes
  pub records_written : ℕ

abbrev pub opened_writer : BlockWriter
opened_writer = record { output = file_header; block = []; records_written = 0 }

-- A record with its size before it.
unfoldable pub frame_record : RawRecord → Option Bytes
frame_record r =
    bind (encode_record r)
      (λ encoded. bind (pack_unsigned 4 (length encoded)) (λ size. some (size ++ encoded)))

module _ (compress : Bytes → Option Bytes) where
  -- The sizes of a block, before and after compression, and the compressed bytes.
  unfoldable pub frame_block : Bytes → Option Bytes
  frame_block block = bind (compress block) (λ compressed.
      bind (pack_unsigned 4 (length block)) (λ raw_size.
        bind (pack_unsigned 4 (length compressed))
          (λ size. some (raw_size ++ (size ++ compressed)))))

  abbrev pub emit_block : BlockWriter → Bytes → BlockWriter
  emit_block w framed = record {
    output = w.output ++ framed;
    block = [];
    records_written = w.records_written;
  }

  abbrev pub flush_bytes : Bytes → BlockWriter → Option BlockWriter
  flush_bytes [] w = some w
  flush_bytes (b ∷ bs) w = bind (frame_block (b ∷ bs)) (λ framed. some (emit_block w framed))

  unfoldable pub flush_block : BlockWriter → Option BlockWriter
  flush_block w = flush_bytes w.block w

  abbrev pub add_framed : BlockWriter → Bytes → BlockWriter
  add_framed w framed = record {
    output = w.output;
    block = w.block ++ framed;
    records_written = suc w.records_written;
  }

  abbrev pub flush_if : Bool → BlockWriter → Option BlockWriter
  flush_if true w = flush_block w
  flush_if false w = some w

  -- A record joins the block, which goes out at the target size.
  unfoldable pub write_record : ℕ → RawRecord → BlockWriter → Option BlockWriter
  write_record target r w =
      bind (frame_record r)
        (λ framed. flush_if (leb target (length (w.block ++ framed))) (add_framed w framed))

  abbrev pub write_call : ℕ → WriteCall → BlockWriter → Option BlockWriter
  write_call target call w = write_record target (record_of call) w

  unfoldable pub write_all : ℕ → List WriteCall → BlockWriter → Option BlockWriter
  write_all target [] w = some w
  write_all target (call ∷ calls) w = bind (write_call target call w) (write_all target calls)

  -- The file after `close`.
  unfoldable pub write_file : ℕ → List WriteCall → Option Bytes
  write_file target calls =
      bind (write_all target calls opened_writer)
        (λ w. bind (flush_block w) (λ closed. some closed.output))

abbrev pub equal_bytes : Bytes → Bytes → Bool
equal_bytes [] [] = true
equal_bytes (a ∷ xs) (b ∷ bs) = (a == b) && equal_bytes xs bs
equal_bytes [] (b ∷ bs) = false
equal_bytes (a ∷ xs) [] = false

pub data ReadError : Type 0 where
  invalid_magic : ReadError
  unsupported_version : ReadError
  truncated_file : ReadError
  truncated_compressed : ReadError
  invalid_compressed : ReadError
  truncated_block : ReadError
  truncated_record : ReadError
  invalid_record : ReadError
  out_of_fuel : ReadError

-- The records that the callback got, and the error that ended the reading.
abbrev pub Delivered : Type 0
Delivered = List RawRecord × Option ReadError

abbrev pub failed : ReadError → Delivered
failed e = ([], some e)

abbrev pub then_rest : Option RawRecord → Delivered → Delivered
then_rest none d = failed invalid_record
then_rest (some r) d = (r ∷ d.0, d.1)

abbrev pub followed : Delivered → Delivered → Delivered
followed (rs, none) d = (rs ++ d.0, d.1)
followed (rs, some e) d = (rs, some e)

abbrev pub record_behind : (Bytes → Delivered) → Option (ℕ × Bytes) → Delivered
record_behind rest none = failed truncated_block
record_behind rest (some (size, bs)) =
    if leb size (length bs)
    then then_rest (decode_record (take size bs)) (rest (drop size bs))
    else failed truncated_record

-- The loop over a block's records.
unfoldable pub read_records : ℕ → Bytes → Delivered
read_records fuel [] = ([], none)
read_records zero (b ∷ bs) = failed out_of_fuel
read_records (suc fuel) (b ∷ bs) = record_behind (read_records fuel) (read_le 4 (b ∷ bs))

module _ (decompress : ℕ → Bytes → Option Bytes) where
  abbrev pub block_records : ℕ → Option Bytes → Delivered → Delivered
  block_records raw_size none d = failed invalid_compressed
  block_records raw_size (some block) d =
      if length block == raw_size
      then followed (read_records (length block) block) d
      else failed invalid_compressed

  abbrev pub compressed_behind : (Bytes → Delivered) → ℕ → Option (ℕ × Bytes) → Delivered
  compressed_behind rest raw_size none = failed truncated_file
  compressed_behind rest raw_size (some (size, bs)) =
      if leb size (length bs)
      then block_records raw_size (decompress raw_size (take size bs)) (rest (drop size bs))
      else failed truncated_compressed

  abbrev pub block_behind : (Bytes → Delivered) → Option (ℕ × Bytes) → Delivered
  block_behind rest none = failed truncated_file
  block_behind rest (some (raw_size, bs)) = compressed_behind rest raw_size (read_le 4 bs)

  -- The loop over a file's blocks.
  unfoldable pub read_blocks : ℕ → Bytes → Delivered
  read_blocks fuel [] = ([], none)
  read_blocks zero (b ∷ bs) = failed out_of_fuel
  read_blocks (suc fuel) (b ∷ bs) = block_behind (read_blocks fuel) (read_le 4 (b ∷ bs))

  abbrev pub version_behind : Option (ℕ × Bytes) → Delivered
  version_behind none = failed truncated_file
  version_behind (some (version, bs)) =
      if version == 1 then read_blocks (length bs) bs else failed unsupported_version

  -- The constructor of `RawEventReader` and `for_each`. The fuel of both loops is the number of
  -- bytes they read.
  unfoldable pub read_file : Bytes → Delivered
  read_file bs =
      if equal_bytes (take 8 bs) magic
      then version_behind (read_le 4 (drop 8 bs))
      else failed invalid_magic
