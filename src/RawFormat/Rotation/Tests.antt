-- ===== src/RawFormat/Rotation/Tests.antt =====
-- Sessions of a rotating writer.
use crypto_microstructure_ma.Prelude.{ℕ, ◌≡◌, refl, Option, none, some, List, [], ◌∷◌}
use crypto_microstructure_ma.Prelude.Int.{pos}
use crypto_microstructure_ma.RawFormat.{
  le_bytes, pack_unsigned, pack_signed, pack_string, encode_record,
}
use crypto_microstructure_ma.RawFormat.Files.{frame_record, frame_block, flush_block, write_record}
use crypto_microstructure_ma.RawFormat.Files.Tests.{stored, stored_back, stored-Undoes}
use crypto_microstructure_ma.RawFormat.Rotation.{
  FileName, exists, candidate, free_name, RawEventWriter, new_writer, Write, count_record,
  write_event, write_events, record_session,
}
use crypto_microstructure_ma.RawFormat.Rotation.Kept.{Recorded, record_session-Recorded}
use crypto_microstructure_ma.RawFormat.Rotation.Names.{
  IsDistinct, names_of, record_session-IsDistinct,
}

abbrev event : ℕ → ℕ → ℕ → Write
event stamp type now = (
  record {
    local_system_ns = stamp;
    local_steady_ns = 7;
    exchange_time_ms = pos 3;
    event_type = type;
    session_id = b's' ∷ [];
    stream = [];
    payload = b'{' ∷ b'}' ∷ [];
  },
  now,
)

-- Two records of one second, one of the next, one of a clock that went back, and one that the
-- system clock stamps.
abbrev some_events : List Write
some_events =
    event 1_000_000_000 5 0
    ∷ event 1_500_000_000 6 0
    ∷ event 2_000_000_000 4 0
    ∷ event 1_000_000_000 5 0
    ∷ event 0 5 3_000_000_000
    ∷ []

-- The name of the first second is taken.
abbrev some_names : List FileName
some_names = candidate 1 0 ∷ []

abbrev writer_or : Option RawEventWriter → RawEventWriter
writer_or none = new_writer []
writer_or (some w) = w

abbrev session : Option RawEventWriter
session = record_session stored 1_000_000_000 40 some_names some_events

names_found :
    names_of (writer_or session).closed_files some_names
    ≡ candidate 3 0 ∷ candidate 2 0 ∷ candidate 1 1 ∷ candidate 1 0 ∷ []
unfolding exists free_name le_bytes pack_unsigned pack_signed pack_string encode_record frame_record
    frame_block flush_block write_record count_record write_event write_events record_session
names_found = refl

record_session-Recorded_example : Recorded stored_back (writer_or session).closed_files (
    (event 1_000_000_000 5 0).0
    ∷ (event 1_500_000_000 6 0).0
    ∷ (event 2_000_000_000 4 0).0
    ∷ (event 1_000_000_000 5 0).0
    ∷ (event 0 5 0).0
    ∷ [])
unfolding exists free_name le_bytes pack_unsigned pack_signed pack_string encode_record frame_record
    frame_block flush_block write_record count_record write_event write_events record_session
record_session-Recorded_example =
    record_session-Recorded stored stored_back stored-Undoes 1_000_000_000 40 some_names some_events
      (writer_or session) refl

record_session-IsDistinct_example :
    IsDistinct (names_of (writer_or session).closed_files some_names)
unfolding exists free_name le_bytes pack_unsigned pack_signed pack_string encode_record frame_record
    frame_block flush_block write_record count_record write_event write_events record_session
record_session-IsDistinct_example =
    record_session-IsDistinct stored 1_000_000_000 40 some_names some_events (writer_or session)
      (refl, tt) refl
