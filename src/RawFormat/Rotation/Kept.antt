-- ===== src/RawFormat/Rotation/Kept.antt =====
-- What a rotating writer's files hold.
use crypto_microstructure_ma.Prelude.{
  ℕ, ◌+◌, ◌≡◌, refl, sym, ap, ◌∙◌, subst, Bool, true, false, Option, none, some, List, [], ◌∷◌,
  ◌++◌, map, arith, ◌==◌, length, length-append, append_assoc, append-nil,
}
use crypto_microstructure_ma.RawFormat.{Bytes, RawRecord}
use crypto_microstructure_ma.RawFormat.Files.{BlockWriter, read_file}
use crypto_microstructure_ma.RawFormat.Files.RoundTrip.{Given}
use crypto_microstructure_ma.RawFormat.Files.Blocks.{Undoes}
use crypto_microstructure_ma.RawFormat.Files.Written.{
  Holds, Flushed, emptied-Holds, flush_block-Flushed, write_record-Holds, Flushed-read,
}
use crypto_microstructure_ma.RawFormat.Rotation.Sessions.{session_lem}
use crypto_microstructure_ma.RawFormat.Rotation.{
  FileName, Counters, one_when, count_record, ClosedRawFile, RawEventWriter, new_writer, open_at,
  closed_file, close_with, count_written, Write, record_session,
}

-- How many records have the type.
abbrev pub count_type : ℕ → List RawRecord → ℕ
count_type type [] = 0
count_type type (r ∷ rs) = one_when (r.event_type == type) + count_type type rs

abbrev pub IsCount : List RawRecord → Counters → Type 0
IsCount rs c =
    c.raw_records ≡ length rs
    × (c.depth_events ≡ count_type 5 rs
        × (c.trade_events ≡ count_type 6 rs × c.snapshots ≡ count_type 4 rs))

count_type-snoc :
    (type : ℕ) (rs : List RawRecord) (r : RawRecord)
    → count_type type (rs ++ r ∷ []) ≡ count_type type rs + one_when (r.event_type == type)
count_type-snoc type [] r = omega arith
count_type-snoc type (s ∷ rs) r = omega (arith, count_type-snoc type rs r)

count_record-IsCount :
    (rs : List RawRecord) (r : RawRecord) (c : Counters)
    → IsCount rs c
    → IsCount (rs ++ r ∷ []) (count_record r c)
unfolding count_record
count_record-IsCount rs r c (all, (depth, (trades, snapshots))) = (
  omega (arith, all, length-append rs (r ∷ [])),
  (
    omega (arith, depth, count_type-snoc 5 rs r),
    (
      omega (arith, trades, count_type-snoc 6 rs r),
      omega (arith, snapshots, count_type-snoc 4 rs r),
    ),
  ),
)

module _ (decompress : ℕ → Bytes → Option Bytes) where
  -- The files hold these records in order: each file's reader delivers its part of them without an
  -- error, and the counters that its hook gets count that part.
  abbrev pub Recorded : List ClosedRawFile → List RawRecord → Type 0
  Recorded [] rs = rs ≡ []
  Recorded (file ∷ files) rs =
      (first rest : List RawRecord) × (rs ≡ first ++ rest
        × (read_file decompress file.bytes ≡ (first, none)
            × (IsCount first file.counters × Recorded files rest)))

  add-Recorded :
      (files : List ClosedRawFile) (file : ClosedRawFile) (rs ss : List RawRecord)
      → Recorded files rs
      → read_file decompress file.bytes ≡ (ss, none)
      → IsCount ss file.counters
      → Recorded (files ++ file ∷ []) (rs ++ ss)
  add-Recorded [] file rs ss h e c =
      (ss, [], (ap (λ ts. ts ++ ss) h ∙ sym (append-nil ss), (e, (c, refl))))
  add-Recorded (f ∷ files) file rs ss (first, rest, (split, (read, (count, more)))) e c = (
    first,
    rest ++ ss,
    (
      ap (λ ts. ts ++ ss) split ∙ append_assoc first rest ss,
      (read, (count, add-Recorded files file rest ss more e c)),
    ),
  )

module _ (compress : Bytes → Option Bytes) (decompress : ℕ → Bytes → Option Bytes)
    (undoes : Undoes decompress compress) where
  -- What the segment has, open or not, of the records since the last closed file.
  abbrev SegmentKeeps : Bool → List RawRecord → RawEventWriter → Type 0
  SegmentKeeps true rs w =
      Holds compress decompress undoes rs w.writer × IsCount rs w.segment_counts
  SegmentKeeps false rs w = rs ≡ [] × w.writer.block ≡ []

  record KeptAs (is_open : Bool) (rs : List RawRecord) (w : RawEventWriter) : Type 0 where
    closed : List RawRecord
    current : List RawRecord
    all : rs ≡ closed ++ current
    in_files : Recorded decompress w.closed_files closed
    state : w.is_open ≡ is_open
    in_segment : SegmentKeeps is_open current w

  new-KeptAs : (names : List FileName) → KeptAs false [] (new_writer names)
  new-KeptAs names = record {
    closed = [];
    current = [];
    all = refl;
    in_files = refl;
    state = refl;
    in_segment = (refl, refl);
  }

  open_at-KeptAs :
      (bucket stamp : ℕ) (rs : List RawRecord) (w : RawEventWriter) (path : FileName)
      → KeptAs false rs w
      → KeptAs true rs (open_at bucket stamp w path)
  open_at-KeptAs bucket stamp rs w path k = record {
    closed = k.closed;
    current = [];
    all = k.all ∙ ap (λ ts. k.closed ++ ts) k.in_segment.0;
    in_files = k.in_files;
    state = refl;
    in_segment = (
      emptied-Holds compress decompress undoes w.writer k.in_segment.1,
      (refl, (refl, (refl, refl))),
    );
  }

  close_with-KeptAs :
      (rs : List RawRecord) (w : RawEventWriter) (k : KeptAs true rs w) (flushed : BlockWriter)
      → Flushed compress decompress undoes k.current flushed
      → KeptAs false rs (close_with w flushed)
  close_with-KeptAs rs w k flushed f = record {
    closed = k.closed ++ k.current;
    current = [];
    all = k.all ∙ sym (append-nil (k.closed ++ k.current));
    in_files =
        add-Recorded decompress w.closed_files (closed_file w flushed.output) k.closed k.current
          k.in_files (Flushed-read compress decompress undoes k.current flushed f) k.in_segment.1;
    state = refl;
    in_segment = (refl, f.empty);
  }

  count_written-KeptAs :
      (r : RawRecord) (stamp : ℕ) (rs : List RawRecord) (w : RawEventWriter) (written : BlockWriter)
      (k : KeptAs true rs w)
      → Holds compress decompress undoes (k.current ++ r ∷ []) written
      → KeptAs true (rs ++ r ∷ []) (count_written r stamp w written)
  count_written-KeptAs r stamp rs w written k h = record {
    closed = k.closed;
    current = k.current ++ r ∷ [];
    all = ap (λ ts. ts ++ r ∷ []) k.all ∙ append_assoc k.closed k.current (r ∷ []);
    in_files = k.in_files;
    state = k.state;
    in_segment = (h, count_record-IsCount k.current r w.segment_counts k.in_segment.1);
  }

  KeptAs-Recorded :
      (rs : List RawRecord) (w : RawEventWriter)
      → KeptAs false rs w
      → Recorded decompress w.closed_files rs
  KeptAs-Recorded rs w k =
      subst (Recorded decompress w.closed_files)
        (sym (k.all ∙ (ap (λ ts. k.closed ++ ts) k.in_segment.0 ∙ append-nil k.closed))) k.in_files

  -- Where decompression undoes compression, a session of a rotating writer that raises no error
  -- leaves files that hold the records written, in order and each in one file: the reader delivers
  -- each file's part of them without an error, and the counters that the hook gets with the file
  -- count that part, all of it and by type.
  pub record_session-Recorded :
      (interval target : ℕ) (names : List FileName) (events : List Write) (w : RawEventWriter)
      → record_session compress interval target names events ≡ some w
      → Recorded decompress w.closed_files (map (λ event. event.0) events)
  record_session-Recorded interval target names events w e =
      KeptAs-Recorded (map (λ event. event.0) events) w (
        session_lem compress interval target KeptAs (λ b rs w k. k.state)
          (λ bucket stamp rs w path k fresh. open_at-KeptAs bucket stamp rs w path k)
          (λ rs w flushed k done. close_with-KeptAs rs w k flushed (
            subst (Given (Flushed compress decompress undoes k.current)) done
              (flush_block-Flushed compress decompress undoes k.current w.writer k.in_segment.0)))
          (λ r stamp rs w written k done. count_written-KeptAs r stamp rs w written k (
            subst (Given (Holds compress decompress undoes (k.current ++ r ∷ []))) done (
              write_record-Holds compress decompress undoes target k.current r w.writer
                k.in_segment.0)))
          names events w (new-KeptAs names) e)
