-- ===== src/RawFormat/Files/Returned.antt =====
-- When the writer of raw files succeeds.
use crypto_microstructure_ma.Prelude.{
  ℕ, zero, suc, ◌+◌, ◌≤◌, ◌<◌, ◌≡◌, refl, sym, ap, subst, Bool, true, false, Option, none, some,
  List, [], ◌∷◌, ◌++◌, map, arith, All, leb, ltb, length, length-append, ◌/◌,
}
use crypto_microstructure_ma.RawFormat.{Bytes, le_bytes, pack_unsigned, encode_record, pow256}
use crypto_microstructure_ma.RawFormat.Files.{
  WriteCall, record_of, BlockWriter, opened_writer, frame_record, frame_block, emit_block,
  flush_bytes, flush_block, add_framed, flush_if, write_record, write_call, write_all, write_file,
  read_file,
}
use crypto_microstructure_ma.RawFormat.Files.Blocks.{Undoes}
use crypto_microstructure_ma.RawFormat.Files.Written.{read-write}

-- The half of what a field of four bytes holds, which leaves room for what compression adds.
abbrev pub limit : ℕ
limit = 2_147_483_648

-- A call whose numbers and strings are in range, with a record that is small enough for a block.
abbrev pub Fits : ℕ → WriteCall → Type 0
Fits target call =
    (encoded : Bytes) × (encode_record (record_of call) ≡ some encoded
      × target + length encoded + 4 < limit)

-- Compression succeeds below the limit, and does not double what it gets there.
abbrev pub Compresses : (Bytes → Option Bytes) → Type 0
Compresses compress =
    (bs : Bytes)
    → length bs < limit
    → (packed : Bytes) × (compress bs ≡ some packed × length packed < limit + limit)

length-le_bytes : (w n : ℕ) → length (le_bytes w n) ≡ w
unfolding le_bytes
length-le_bytes zero n = refl
length-le_bytes (suc w) n = ap suc (length-le_bytes w (n / 256))

packs : (n : ℕ) → n < limit + limit → pack_unsigned 4 n ≡ some (le_bytes 4 n)
unfolding pack_unsigned
packs n h = let small : ltb n (pow256 4) ≡ true = ground (arith, h) in rw small refl

module _ (compress : Bytes → Option Bytes) (compresses : Compresses compress) where
  -- A result whose block is within the target.
  abbrev Short : ℕ → Option BlockWriter → Type 0
  Short target o = (w : BlockWriter) × (o ≡ some w × length w.block ≤ target)

  frame_block-some :
      (block : Bytes)
      → length block < limit
      → (framed : Bytes) × frame_block compress block ≡ some framed
  unfolding frame_block
  frame_block-some block h =
      let packed = compresses block h in
      (
        le_bytes 4 (length block) ++ (le_bytes 4 (length packed.0) ++ packed.0),
        rw (packed.1.0, packs (length block) (omega (arith, h)), packs (length packed.0) packed.1.1)
            refl,
      )

  flush_bytes-Short :
      (target : ℕ) (bs : Bytes) (w : BlockWriter)
      → w.block ≡ bs
      → length bs < limit
      → Short target (flush_bytes compress bs w)
  flush_bytes-Short target [] w e h =
      (w, (refl, subst (λ bs. length bs ≤ target) (sym e) (omega arith)))
  flush_bytes-Short target (b ∷ bs) w e h =
      let framed = frame_block-some (b ∷ bs) h in
      (emit_block compress w framed.0, (rw framed.1 refl, omega arith))

  flush_block-Short :
      (target : ℕ) (w : BlockWriter)
      → length w.block < limit
      → Short target (flush_block compress w)
  unfolding flush_block
  flush_block-Short target w h = flush_bytes-Short target w.block w refl h

  flush_if-Short :
      (target : ℕ) (full : Bool) (w : BlockWriter)
      → leb target (length w.block) ≡ full
      → length w.block < limit
      → Short target (flush_if compress full w)
  flush_if-Short target true w e h = flush_block-Short target w h
  flush_if-Short target false w e h = (w, (refl, ground (arith, e)))

  write_call-Short :
      (target : ℕ) (call : WriteCall) (w : BlockWriter)
      → Fits target call
      → length w.block ≤ target
      → Short target (write_call compress target call w)
  unfolding write_record frame_record
  write_call-Short target call w (encoded, (e, fits)) h =
      let size : Bytes = le_bytes 4 (length encoded) in
      rw (e, packs (length encoded) (omega (arith, fits)))
        (flush_if-Short target (leb target (length (w.block ++ (size ++ encoded))))
          (add_framed compress w (size ++ encoded)) refl
          (omega (
            arith,
            length-append w.block (size ++ encoded),
            length-append size encoded,
            length-le_bytes 4 (length encoded),
            h,
            fits,
          )))

  write_all-Short :
      (target : ℕ) (calls : List WriteCall) (w : BlockWriter)
      → All (Fits target) calls
      → length w.block ≤ target
      → Short target (write_all compress target calls w)
  unfolding write_all
  write_all-Short target [] w fits h = (w, (refl, h))
  write_all-Short target (call ∷ calls) w fits h =
      let next = write_call-Short target call w fits.0 h in
      rw next.1.0 (write_all-Short target calls next.0 fits.1 next.1.1)

  -- The bound on the target, which no call's record states where there is none.
  write_file-some :
      (target : ℕ) (calls : List WriteCall)
      → target < limit
      → All (Fits target) calls
      → (bytes : Bytes) × write_file compress target calls ≡ some bytes
  unfolding write_file
  write_file-some target calls small fits =
      let all = write_all-Short target calls opened_writer fits (omega arith) in
      let last = flush_block-Short target all.0 (omega (arith, all.1.1, small)) in
      (last.0.output, rw (all.1.0, last.1.0) refl)

  -- Where compression works and decompression undoes it, a file is written of calls whose numbers
  -- and strings are in range and whose records are, with the target size of a block, under 2^31
  -- bytes; and its reader delivers the records of all of the calls in order, without an error.
  pub written-read :
      (decompress : ℕ → Bytes → Option Bytes) (target : ℕ) (calls : List WriteCall)
      → Undoes decompress compress
      → target < limit
      → All (Fits target) calls
      → (bytes : Bytes) × (write_file compress target calls ≡ some bytes
          × read_file decompress bytes ≡ (map record_of calls, none))
  written-read decompress target calls undoes small fits =
      let file = write_file-some target calls small fits in
      (file.0, (file.1, read-write compress decompress undoes target calls file.0 file.1))
