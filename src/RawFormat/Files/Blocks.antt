-- ===== src/RawFormat/Files/Blocks.antt =====
-- The blocks of a raw file, and how its reader goes through them.
use crypto_microstructure_ma.Prelude.{
  ℕ, zero, suc, ◌≤◌, ◌≡◌, refl, true, Option, none, some, List, [], ◌∷◌, ◌++◌, arith, ◌==◌, length,
  length-append, take-length-append, drop-length-append,
}
use crypto_microstructure_ma.RawFormat.{Bytes, RawRecord, bind, pack_unsigned, read_le}
use crypto_microstructure_ma.RawFormat.RoundTrip.{Reads, pack_unsigned-Reads}
use crypto_microstructure_ma.RawFormat.Files.{
  frame_block, Delivered, read_records, block_behind, read_blocks,
}
use crypto_microstructure_ma.RawFormat.Files.Total.{Leaves}
use crypto_microstructure_ma.RawFormat.Files.RoundTrip.{
  Given, Frames, all_read, no_records, leaves, size_behind, leb_append,
}

-- Decompression undoes compression, given the size of what was compressed.
abbrev pub Undoes : (ℕ → Bytes → Option Bytes) → (Bytes → Option Bytes) → Type 0
Undoes decompress compress =
    (bs packed : Bytes) → compress bs ≡ some packed → decompress (length bs) packed ≡ some bs

module _ (compress : Bytes → Option Bytes) (decompress : ℕ → Bytes → Option Bytes)
    (undoes : Undoes decompress compress) where
  pub no_blocks : (fuel : ℕ) → read_blocks decompress fuel [] ≡ ([], none)
  unfolding read_blocks
  no_blocks zero = refl
  no_blocks (suc fuel) = refl

  block_step :
      (fuel : ℕ) (bs : Bytes) (r : ℕ × Bytes) (d : Delivered)
      → read_le 4 bs ≡ some r
      → Leaves 4 bs (some r)
      → length bs ≤ fuel
      → ((m : ℕ) → length r.1 ≤ m → block_behind decompress (read_blocks decompress m) (some r) ≡ d)
      → read_blocks decompress fuel bs ≡ d
  unfolding read_blocks read_le
  block_step fuel [] r d e l h k = absurd (cc e)
  block_step zero (b ∷ bs) r d e l h k = absurd (omega (arith, h))
  block_step (suc m) (b ∷ bs) r d e l h k = rw e (k m (omega (arith, h, l)))

  abbrev BlockFrames : List RawRecord → Option Bytes → Type 0
  BlockFrames rs o = Given (Frames (read_blocks decompress) rs) o

  sized-BlockFrames :
      (rs : List RawRecord) (block packed : Bytes) (o p : Option Bytes)
      → Frames read_records rs block
      → compress block ≡ some packed
      → Reads (read_le 4) (length block) o
      → Reads (read_le 4) (length packed) p
      → BlockFrames rs (bind o (λ raw_size. bind p (λ size. some (raw_size ++ (size ++ packed)))))
  sized-BlockFrames rs block packed none p f e h k = tt
  sized-BlockFrames rs block packed (some raw_size) none f e h k = tt
  sized-BlockFrames rs block packed (some raw_size) (some size) f e h k = λ tail d y fuel enough.
      let bs : Bytes = (raw_size ++ (size ++ packed)) ++ tail in
      let behind : ℕ × Bytes = (length block, (size ++ packed) ++ tail) in
      let got : read_le 4 bs ≡ some behind =
        size_behind (length block) raw_size (size ++ packed) tail h in
      let got_size : read_le 4 ((size ++ packed) ++ tail) ≡ some (length packed, packed ++ tail) =
        size_behind (length packed) size packed tail k in
      let records : read_records (length block) block ≡ (rs, none) =
        all_read read_records rs block no_records f (length block) (omega arith) in
      let same : (length block == length block) ≡ true = ground arith in
      block_step fuel bs behind (rs ++ d.0, d.1) got (leaves bs behind got) enough
        (λ m le.
          let next : read_blocks decompress m tail ≡ d =
            y m (omega (arith, le, length-append (size ++ packed) tail)) in
          rw
            (
              got_size,
              leb_append packed tail,
              take-length-append packed tail,
              drop-length-append packed tail,
              undoes block packed e,
              same,
              records,
              next,
            )
            refl)

  framed-BlockFrames :
      (rs : List RawRecord) (block : Bytes) (o : Option Bytes)
      → Frames read_records rs block
      → compress block ≡ o
      → BlockFrames rs (
          bind o (λ compressed. bind (pack_unsigned 4 (length block)) (λ raw_size.
            bind
              (pack_unsigned 4 (length compressed))
              (λ size. some (raw_size ++ (size ++ compressed))))))
  framed-BlockFrames rs block none f e = tt
  framed-BlockFrames rs block (some packed) f e =
      sized-BlockFrames rs block packed (pack_unsigned 4 (length block))
        (pack_unsigned 4 (length packed)) f e (pack_unsigned-Reads 4 (length block))
        (pack_unsigned-Reads 4 (length packed))

  pub frame_block-BlockFrames :
      (rs : List RawRecord) (block : Bytes)
      → Frames read_records rs block
      → BlockFrames rs (frame_block compress block)
  unfolding frame_block
  frame_block-BlockFrames rs block f = framed-BlockFrames rs block (compress block) f refl
