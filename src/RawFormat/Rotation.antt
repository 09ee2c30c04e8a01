-- ===== src/RawFormat/Rotation.antt =====
-- The rotating writer of the live recorder: `RawEventWriter` of cpp/storage/raw_event_writer.cpp,
-- made with a rotation. A file's name is the second of its bucket and the number of the attempt
-- that found it; the clock's reading is an argument of a write.
use crypto_microstructure_ma.Prelude.{
  ℕ, zero, suc, ◌+◌, ◌*◌, ◌/◌, Bool, true, false, ◌&&◌, ◌||◌, Option, none, some, List, [], ◌∷◌,
  ◌++◌, ltb, leb, ◌==◌, if◌then◌else◌, length,
}
use crypto_microstructure_ma.RawFormat.{Bytes, RawRecord, bind}
use crypto_microstructure_ma.RawFormat.Files.{
  file_header, BlockWriter, frame_record, flush_block, write_record,
}
pub mod Names
pub mod Sessions
pub mod Kept
mod Tests

pub record FileName : Type 0 where
  pub seconds : ℕ
  pub suffix : ℕ

abbrev pub same_name : FileName → FileName → Bool
same_name a b = a.seconds == b.seconds && a.suffix == b.suffix

unfoldable pub exists : FileName → List FileName → Bool
exists name [] = false
exists name (other ∷ names) = same_name name other || exists name names

abbrev pub candidate : ℕ → ℕ → FileName
candidate seconds attempt = record { seconds = seconds; suffix = attempt }

-- The loop over the attempts, with those that are left; none for its error.
unfoldable pub free_name : ℕ → ℕ → ℕ → List FileName → Option FileName
free_name zero seconds attempt names =
    if exists (candidate seconds attempt) names then none else some (candidate seconds attempt)
free_name (suc left) seconds attempt names =
    let next = free_name left seconds (suc attempt) names in
    if exists (candidate seconds attempt) names then next else some (candidate seconds attempt)

-- `segment_path_locked`, where these names exist.
abbrev pub segment_path : ℕ → ℕ → List FileName → Option FileName
segment_path interval bucket names = free_name 1000 (bucket * interval / 1_000_000_000) 0 names

pub record Counters : Type 0 where
  pub raw_records : ℕ
  pub depth_events : ℕ
  pub trade_events : ℕ
  pub snapshots : ℕ

abbrev pub no_counts : Counters
no_counts = record { raw_records = 0; depth_events = 0; trade_events = 0; snapshots = 0 }

abbrev pub one_when : Bool → ℕ
one_when true = 1
one_when false = 0

unfoldable pub count_record : RawRecord → Counters → Counters
count_record r c = record {
  raw_records = suc c.raw_records;
  depth_events = c.depth_events + one_when (r.event_type == 5);
  trade_events = c.trade_events + one_when (r.event_type == 6);
  snapshots = c.snapshots + one_when (r.event_type == 4);
}

-- A closed file, as the hook gets it, with its bytes.
pub record ClosedRawFile : Type 0 where
  pub path : FileName
  pub previous_file : Option FileName
  pub continuation : Bool
  pub first_system_ns : ℕ
  pub last_system_ns : ℕ
  pub counters : Counters
  pub bytes : Bytes

pub record RawEventWriter : Type 0 where
  pub names : List FileName
  pub closed_files : List ClosedRawFile
  pub is_open : Bool
  pub writer : BlockWriter
  pub current_bucket : ℕ
  pub current_path : FileName
  pub previous_file : Option FileName
  pub segments_opened : ℕ
  pub rotations : ℕ
  pub segment_first_ns : ℕ
  pub segment_last_ns : ℕ
  pub segment_counts : Counters

-- A new writer in a directory with these files.
abbrev pub new_writer : List FileName → RawEventWriter
new_writer names = record {
  names = names;
  closed_files = [];
  is_open = false;
  writer = record { output = []; block = []; records_written = 0 };
  current_bucket = 0;
  current_path = candidate 0 0;
  previous_file = none;
  segments_opened = 0;
  rotations = 0;
  segment_first_ns = 0;
  segment_last_ns = 0;
  segment_counts = no_counts;
}

abbrev pub open_at : ℕ → ℕ → RawEventWriter → FileName → RawEventWriter
open_at bucket system_ns w path = record {
  names = path ∷ w.names;
  closed_files = w.closed_files;
  is_open = true;
  writer = record {
    output = file_header;
    block = w.writer.block;
    records_written = w.writer.records_written;
  };
  current_bucket = bucket;
  current_path = path;
  previous_file = w.previous_file;
  segments_opened = suc w.segments_opened;
  rotations = w.rotations + one_when (ltb 1 (suc w.segments_opened));
  segment_first_ns = system_ns;
  segment_last_ns = system_ns;
  segment_counts = no_counts;
}

-- `open_segment_locked`
abbrev pub open_segment : ℕ → ℕ → ℕ → RawEventWriter → Option RawEventWriter
open_segment interval bucket system_ns w =
    bind (segment_path interval bucket w.names) (λ path. some (open_at bucket system_ns w path))

abbrev pub closed_file : RawEventWriter → Bytes → ClosedRawFile
closed_file w bytes = record {
  path = w.current_path;
  previous_file = w.previous_file;
  continuation = ltb 1 w.segments_opened;
  first_system_ns = w.segment_first_ns;
  last_system_ns = w.segment_last_ns;
  counters = w.segment_counts;
  bytes = bytes;
}

abbrev pub close_with : RawEventWriter → BlockWriter → RawEventWriter
close_with w flushed = record {
  names = w.names;
  closed_files = w.closed_files ++ closed_file w flushed.output ∷ [];
  is_open = false;
  writer = flushed;
  current_bucket = w.current_bucket;
  current_path = w.current_path;
  previous_file = some w.current_path;
  segments_opened = w.segments_opened;
  rotations = w.rotations;
  segment_first_ns = w.segment_first_ns;
  segment_last_ns = w.segment_last_ns;
  segment_counts = w.segment_counts;
}

abbrev pub count_written : RawRecord → ℕ → RawEventWriter → BlockWriter → RawEventWriter
count_written r stamp w written = record {
  names = w.names;
  closed_files = w.closed_files;
  is_open = w.is_open;
  writer = written;
  current_bucket = w.current_bucket;
  current_path = w.current_path;
  previous_file = w.previous_file;
  segments_opened = w.segments_opened;
  rotations = w.rotations;
  segment_first_ns = w.segment_first_ns;
  segment_last_ns = stamp;
  segment_counts = count_record r w.segment_counts;
}

-- A record and what the system clock shows when it is written.
abbrev pub Write : Type 0
Write = RawRecord × ℕ

abbrev pub stamp_of : Write → ℕ
stamp_of (r, now) = if r.local_system_ns == 0 then now else r.local_system_ns

module _ (compress : Bytes → Option Bytes) where
  abbrev pub close_open : Bool → RawEventWriter → Option RawEventWriter
  close_open false w = some w
  close_open true w = bind (flush_block compress w.writer) (λ flushed. some (close_with w flushed))

  -- `close_segment_locked`
  abbrev pub close_segment : RawEventWriter → Option RawEventWriter
  close_segment w = close_open w.is_open w

  abbrev pub rotate_if : Bool → ℕ → ℕ → ℕ → RawEventWriter → Option RawEventWriter
  rotate_if false interval bucket stamp w = some w
  rotate_if true interval bucket stamp w =
      bind (close_segment w) (open_segment interval bucket stamp)

  abbrev pub segment_if : Bool → ℕ → ℕ → ℕ → RawEventWriter → Option RawEventWriter
  segment_if false interval bucket stamp w = open_segment interval bucket stamp w
  segment_if true interval bucket stamp w =
      rotate_if (ltb w.current_bucket bucket) interval bucket stamp w

  -- The file that a record of this time goes to: a new one where none is open or a later bucket
  -- begins.
  abbrev pub segment_for : ℕ → ℕ → RawEventWriter → Option RawEventWriter
  segment_for interval stamp w = segment_if w.is_open interval (stamp / interval) stamp w

  -- `write`, with the interval and the target size of a block.
  unfoldable pub write_event : ℕ → ℕ → Write → RawEventWriter → Option RawEventWriter
  write_event interval target (r, now) w = bind (segment_for interval (stamp_of (r, now)) w) (λ v.
      bind (write_record compress target r v.writer)
        (λ written. some (count_written r (stamp_of (r, now)) v written)))

  unfoldable pub write_events : ℕ → ℕ → List Write → RawEventWriter → Option RawEventWriter
  write_events interval target [] w = some w
  write_events interval target (event ∷ events) w =
      bind (write_event interval target event w) (write_events interval target events)

  -- The writes of a session and its `close`.
  unfoldable pub record_session : ℕ → ℕ → List FileName → List Write → Option RawEventWriter
  record_session interval target names events =
      bind (write_events interval target events (new_writer names)) close_segment
