-- ===== src/RawFormat/Files/Written.antt =====
-- What the writer of raw files puts in a file its reader delivers.
use crypto_microstructure_ma.Prelude.{
  ℕ, ◌≡◌, refl, sym, ap, ◌∙◌, subst, Bool, true, false, Option, none, some, List, [], ◌∷◌, ◌++◌,
  map, arith, leb, length, append_assoc, append-nil,
}
use crypto_microstructure_ma.RawFormat.{Bytes, RawRecord, le_bytes, read_le}
use crypto_microstructure_ma.RawFormat.Files.{
  WriteCall, record_of, file_header, BlockWriter, opened_writer, frame_record, frame_block,
  emit_block, flush_bytes, flush_block, add_framed, flush_if, write_record, write_call, write_all,
  write_file, read_records, read_blocks, read_file,
}
use crypto_microstructure_ma.RawFormat.Files.RoundTrip.{
  Given, bind-Given, map-Given, Frames, no-Frames, append-Frames, all_read, no_records,
  frame_record-RecordFrames,
}
use crypto_microstructure_ma.RawFormat.Files.Blocks.{Undoes, frame_block-BlockFrames, no_blocks}

module _ (compress : Bytes → Option Bytes) (decompress : ℕ → Bytes → Option Bytes)
    (undoes : Undoes decompress compress) where
  -- The writer has these records: the first ones in its file's blocks, the others in its block.
  pub record Holds (rs : List RawRecord) (w : BlockWriter) : Type 0 where
    pub flushed : List RawRecord
    pub pending : List RawRecord
    pub body : Bytes
    pub all : rs ≡ flushed ++ pending
    pub file : w.output ≡ file_header ++ body
    pub in_file : Frames (read_blocks decompress) flushed body
    pub in_block : Frames read_records pending w.block

  -- All of the records are in the file's blocks.
  pub record Flushed (rs : List RawRecord) (w : BlockWriter) : Type 0 where
    pub body : Bytes
    pub file : w.output ≡ file_header ++ body
    pub in_file : Frames (read_blocks decompress) rs body
    pub empty : w.block ≡ []

  -- A file with nothing but its header.
  pub emptied-Holds :
      (w : BlockWriter)
      → w.block ≡ []
      → Holds []
          (record { output = file_header; block = w.block; records_written = w.records_written })
  emptied-Holds w e = record {
    flushed = [];
    pending = [];
    body = [];
    all = refl;
    file = sym (append-nil file_header);
    in_file = no-Frames (read_blocks decompress);
    in_block = subst (Frames read_records []) (sym e) (no-Frames read_records);
  }

  Flushed-Holds : (rs : List RawRecord) (w : BlockWriter) → Flushed rs w → Holds rs w
  Flushed-Holds rs w f = record {
    flushed = rs;
    pending = [];
    body = f.body;
    all = sym (append-nil rs);
    file = f.file;
    in_file = f.in_file;
    in_block = subst (Frames read_records []) (sym f.empty) (no-Frames read_records);
  }

  -- An empty block has no records.
  nothing_pending : (rs : List RawRecord) → Frames read_records rs [] → rs ≡ []
  nothing_pending rs f =
      sym (ap (λ d. d.0) (all_read read_records rs [] no_records f 0 (omega arith)))
      ∙ ap (λ d. d.0) (no_records 0)

  emitted-Flushed :
      (rs : List RawRecord) (w : BlockWriter) (h : Holds rs w) (framed : Bytes)
      → Frames (read_blocks decompress) h.pending framed
      → Flushed rs (emit_block compress w framed)
  emitted-Flushed rs w h framed f = record {
    body = h.body ++ framed;
    file = ap (λ bs. bs ++ framed) h.file ∙ append_assoc file_header h.body framed;
    in_file =
        subst (λ ts. Frames (read_blocks decompress) ts (h.body ++ framed)) (sym h.all)
          (append-Frames (read_blocks decompress) h.flushed h.pending h.body framed h.in_file f);
    empty = refl;
  }

  flush_bytes-Flushed :
      (bs : Bytes) (rs : List RawRecord) (w : BlockWriter)
      → w.block ≡ bs
      → Holds rs w
      → Given (Flushed rs) (flush_bytes compress bs w)
  flush_bytes-Flushed [] rs w e h =
      let nothing : h.pending ≡ [] =
        nothing_pending h.pending (subst (Frames read_records h.pending) e h.in_block) in
      let whole : rs ≡ h.flushed =
        h.all ∙ (ap (λ ps. h.flushed ++ ps) nothing ∙ append-nil h.flushed) in
      record {
        body = h.body;
        file = h.file;
        in_file = subst (λ ts. Frames (read_blocks decompress) ts h.body) (sym whole) h.in_file;
        empty = e;
      }
  flush_bytes-Flushed (b ∷ bs) rs w e h =
      bind-Given (Frames (read_blocks decompress) h.pending) (Flushed rs)
        (λ framed. some (emit_block compress w framed)) (frame_block compress (b ∷ bs))
        (frame_block-BlockFrames compress decompress undoes h.pending (b ∷ bs)
          (subst (Frames read_records h.pending) e h.in_block))
        (emitted-Flushed rs w h)

  pub flush_block-Flushed :
      (rs : List RawRecord) (w : BlockWriter)
      → Holds rs w
      → Given (Flushed rs) (flush_block compress w)
  unfolding flush_block
  flush_block-Flushed rs w h = flush_bytes-Flushed w.block rs w refl h

  added-Holds :
      (rs : List RawRecord) (r : RawRecord) (w : BlockWriter) (framed : Bytes)
      → Holds rs w
      → Frames read_records (r ∷ []) framed
      → Holds (rs ++ r ∷ []) (add_framed compress w framed)
  added-Holds rs r w framed h f = record {
    flushed = h.flushed;
    pending = h.pending ++ r ∷ [];
    body = h.body;
    all = ap (λ ts. ts ++ r ∷ []) h.all ∙ append_assoc h.flushed h.pending (r ∷ []);
    file = h.file;
    in_file = h.in_file;
    in_block = append-Frames read_records h.pending (r ∷ []) w.block framed h.in_block f;
  }

  flush_if-Holds :
      (full : Bool) (rs : List RawRecord) (w : BlockWriter)
      → Holds rs w
      → Given (Holds rs) (flush_if compress full w)
  flush_if-Holds true rs w h =
      map-Given (Flushed rs) (Holds rs) (flush_block compress w) (Flushed-Holds rs)
        (flush_block-Flushed rs w h)
  flush_if-Holds false rs w h = h

  pub write_record-Holds :
      (target : ℕ) (rs : List RawRecord) (r : RawRecord) (w : BlockWriter)
      → Holds rs w
      → Given (Holds (rs ++ r ∷ [])) (write_record compress target r w)
  unfolding write_record
  write_record-Holds target rs r w h =
      bind-Given (Frames read_records (r ∷ [])) (Holds (rs ++ r ∷ [])) _ (frame_record r)
        (frame_record-RecordFrames r)
        (λ framed f.
          flush_if-Holds (leb target (length (w.block ++ framed))) (rs ++ r ∷ [])
            (add_framed compress w framed) (added-Holds rs r w framed h f))

  write_all-Holds :
      (target : ℕ) (calls : List WriteCall) (rs : List RawRecord) (w : BlockWriter)
      → Holds rs w
      → Given (Holds (rs ++ map record_of calls)) (write_all compress target calls w)
  unfolding write_all
  write_all-Holds target [] rs w h = subst (λ ts. Holds ts w) (sym (append-nil rs)) h
  write_all-Holds target (call ∷ calls) rs w h =
      let r : RawRecord = record_of call in
      bind-Given (Holds (rs ++ r ∷ [])) (Holds (rs ++ (r ∷ map record_of calls)))
        (write_all compress target calls) (write_call compress target call w)
        (write_record-Holds target rs r w h)
        (λ v k.
          subst (λ ts. Given (Holds ts) (write_all compress target calls v))
            (append_assoc rs (r ∷ []) (map record_of calls))
            (write_all-Holds target calls (rs ++ r ∷ []) v k))

  pub Flushed-read :
      (rs : List RawRecord) (w : BlockWriter)
      → Flushed rs w
      → read_file decompress w.output ≡ (rs, none)
  unfolding read_file le_bytes read_le
  Flushed-read rs w f =
      let whole =
        all_read (read_blocks decompress) rs f.body (no_blocks compress decompress undoes) f.in_file
          (length f.body) (omega arith) in
      rw (f.file, whole) refl

  write_file-Given :
      (target : ℕ) (calls : List WriteCall)
      → Given
          (λ bytes. read_file decompress bytes ≡ (map record_of calls, none))
          (write_file compress target calls)
  unfolding write_file
  write_file-Given target calls =
      bind-Given (Holds (map record_of calls)) _ _ (write_all compress target calls opened_writer)
        (write_all-Holds target calls [] opened_writer (emptied-Holds opened_writer refl))
        (λ w h.
          bind-Given (Flushed (map record_of calls)) _ _ (flush_block compress w)
            (flush_block-Flushed (map record_of calls) w h) (Flushed-read (map record_of calls)))

  pub read-write :
      (target : ℕ) (calls : List WriteCall) (bytes : Bytes)
      → write_file compress target calls ≡ some bytes
      → read_file decompress bytes ≡ (map record_of calls, none)
  read-write target calls bytes e =
      subst (Given (λ bytes. read_file decompress bytes ≡ (map record_of calls, none))) e
        (write_file-Given target calls)
