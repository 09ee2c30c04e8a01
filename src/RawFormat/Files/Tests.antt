-- ===== src/RawFormat/Files/Tests.antt =====
-- Raw files, with a compression that stores its input.
use crypto_microstructure_ma.Prelude.{ℕ, ◌≡◌, refl, true, Option, none, some, [], ◌∷◌, arith}
use crypto_microstructure_ma.Prelude.Int.{pos}
use crypto_microstructure_ma.RawFormat.{
  Bytes, le_bytes, pack_unsigned, pack_signed, pack_string, encode_record, read_le,
}
use crypto_microstructure_ma.RawFormat.Files.{
  WriteCall, record_of, write_file, truncated_compressed, read_blocks, read_file,
}
use crypto_microstructure_ma.RawFormat.Files.Total.{ends, read_file-total}
use crypto_microstructure_ma.RawFormat.Files.Blocks.{Undoes}
use crypto_microstructure_ma.RawFormat.Files.Returned.{Compresses, written-read}

abbrev pub stored : Bytes → Option Bytes
stored bs = some bs

abbrev pub stored_back : ℕ → Bytes → Option Bytes
stored_back size bs = some bs

pub stored-Undoes : Undoes stored_back stored
stored-Undoes bs packed e = cc e

stored-Compresses : Compresses stored
stored-Compresses bs h = (bs, (refl, omega (arith, h)))

abbrev call : ℕ → WriteCall
call t = record {
  timestamp_ns = t;
  event_type = 5;
  stream = b'd' ∷ [];
  payload = b'{' ∷ b'}' ∷ [];
  exchange_time_ms = pos 3;
}

abbrev bytes_or : Option Bytes → Bytes
bytes_or none = []
bytes_or (some bs) = bs

-- The second call fills the block.
written-read_example :
    (bytes : Bytes) × (write_file stored 100 (call 1 ∷ call 2 ∷ call 3 ∷ []) ≡ some bytes
      × read_file stored_back bytes
        ≡ (record_of (call 1) ∷ record_of (call 2) ∷ record_of (call 3) ∷ [], none))
unfolding le_bytes pack_unsigned pack_signed pack_string encode_record
written-read_example =
    written-read stored stored-Compresses stored_back 100 (call 1 ∷ call 2 ∷ call 3 ∷ [])
      stored-Undoes (omega arith)
      (
        (bytes_or (encode_record (record_of (call 1))), (refl, omega arith)),
        (
          (bytes_or (encode_record (record_of (call 2))), (refl, omega arith)),
          ((bytes_or (encode_record (record_of (call 3))), (refl, omega arith)), tt),
        ),
      )

-- A file that breaks off in its block.
read_file-total_example :
    ends
      (read_file stored_back (
        b'C' ∷ b'H' ∷ b'F' ∷ b'T' ∷ b'L' ∷ b'2' ∷ b'R' ∷ b'1' ∷ 1 ∷ 0 ∷ 0 ∷ 0 ∷ 9 ∷ 0 ∷ 0 ∷ 0 ∷ 9
        ∷ 0 ∷ 0 ∷ 0 ∷ 3 ∷ [])).1
    ≡ true
read_file-total_example = read_file-total stored_back (
    b'C' ∷ b'H' ∷ b'F' ∷ b'T' ∷ b'L' ∷ b'2' ∷ b'R' ∷ b'1' ∷ 1 ∷ 0 ∷ 0 ∷ 0 ∷ 9 ∷ 0 ∷ 0 ∷ 0 ∷ 9 ∷ 0
    ∷ 0 ∷ 0 ∷ 3 ∷ [])

broken_off :
    read_file stored_back (
      b'C' ∷ b'H' ∷ b'F' ∷ b'T' ∷ b'L' ∷ b'2' ∷ b'R' ∷ b'1' ∷ 1 ∷ 0 ∷ 0 ∷ 0 ∷ 9 ∷ 0 ∷ 0 ∷ 0 ∷ 9 ∷ 0
      ∷ 0 ∷ 0 ∷ 3 ∷ [])
    ≡ ([], some truncated_compressed)
unfolding read_le read_blocks read_file
broken_off = refl
