-- ===== src/RawFormat/Tests.antt =====
-- A record of the raw format, there and back.
use crypto_microstructure_ma.Prelude.{◌≡◌, refl, Option, none, some, [], ◌∷◌}
use crypto_microstructure_ma.Prelude.Int.{negsuc}
use crypto_microstructure_ma.RawFormat.{
  Bytes, RawRecord, le_bytes, pack_unsigned, pack_signed, pack_string, encode_record, decode_record,
}
use crypto_microstructure_ma.RawFormat.RoundTrip.{decode-encode}

abbrev small_record : RawRecord
small_record = record {
  local_system_ns = 1000;
  local_steady_ns = 1000;
  exchange_time_ms = negsuc 4;
  event_type = 5;
  session_id = b'h' ∷ [];
  stream = b'd' ∷ b'e' ∷ [];
  payload = b'{' ∷ b'}' ∷ [];
}

abbrev bytes_or : Option Bytes → Bytes
bytes_or none = []
bytes_or (some bs) = bs

abbrev small_bytes : Bytes
small_bytes = bytes_or (encode_record small_record)

decode-encode_example : decode_record small_bytes ≡ some small_record
unfolding le_bytes pack_unsigned pack_signed pack_string encode_record
decode-encode_example = decode-encode small_record small_bytes refl
