-- ===== src/RawFormat/Files/Total.antt =====
-- The loops of the reader of raw files, and the fuel that they need.
use crypto_microstructure_ma.Prelude.{
  ℕ, zero, suc, ◌+◌, ◌*◌, ◌≤◌, ◌≡◌, refl, inl, inr, Bool, true, false, Option, none, some, [], ◌∷◌,
  arith, Bool-cases, leb, ◌==◌, length, take, drop,
}
use crypto_microstructure_ma.RawFormat.{Bytes, RawRecord, bind, read_le, decode_record}
use crypto_microstructure_ma.RawFormat.Files.{
  ReadError, invalid_magic, unsupported_version, truncated_file, truncated_compressed,
  invalid_compressed, truncated_block, truncated_record, invalid_record, out_of_fuel, Delivered,
  then_rest, followed, record_behind, read_records, block_records, compressed_behind, block_behind,
  read_blocks, version_behind, read_file, equal_bytes, magic,
}

-- How many bytes a read leaves.
abbrev pub Leaves : ℕ → Bytes → Option (ℕ × Bytes) → Type 0
Leaves w bs none = Unit
Leaves w bs (some r) = length bs ≡ w + length r.1

pub read_le-Leaves : (w : ℕ) (bs : Bytes) → Leaves w bs (read_le w bs)
unfolding read_le
read_le-Leaves zero bs = omega arith
read_le-Leaves (suc w) [] = tt
read_le-Leaves (suc w) (b ∷ bs) = go (read_le w bs) (read_le-Leaves w bs)
  where
    go :
        (o : Option (ℕ × Bytes))
        → Leaves w bs o
        → Leaves (suc w) (b ∷ bs) (bind o (λ r. some (b + 256 * r.0, r.1)))
    go none h = tt
    go (some r) h = omega (arith, h)

length-drop : (n : ℕ) (bs : Bytes) → length (drop n bs) ≤ length bs
length-drop zero bs = omega arith
length-drop (suc n) [] = omega arith
length-drop (suc n) (b ∷ bs) = omega (arith, length-drop n bs)

-- The reading ends by an error other than the fuel, or by none.
abbrev pub ends : Option ReadError → Bool
ends none = true
ends (some invalid_magic) = true
ends (some unsupported_version) = true
ends (some truncated_file) = true
ends (some truncated_compressed) = true
ends (some invalid_compressed) = true
ends (some truncated_block) = true
ends (some truncated_record) = true
ends (some invalid_record) = true
ends (some out_of_fuel) = false

abbrev Ends : Delivered → Type 0
Ends d = ends d.1 ≡ true

then_rest-Ends : (o : Option RawRecord) (d : Delivered) → Ends d → Ends (then_rest o d)
then_rest-Ends none d h = refl
then_rest-Ends (some r) d h = h

followed-Ends : (a d : Delivered) → Ends a → Ends d → Ends (followed a d)
followed-Ends (rs, none) d h k = k
followed-Ends (rs, some e) d h k = h

record_behind-Ends :
    (rest : Bytes → Delivered) (n : ℕ) (bs : Bytes) (o : Option (ℕ × Bytes))
    → Leaves 4 bs o
    → length bs ≤ suc n
    → ((cs : Bytes) → length cs ≤ n → Ends (rest cs))
    → Ends (record_behind rest o)
record_behind-Ends rest n bs none l h k = refl
record_behind-Ends rest n bs (some (size, cs)) l h k = elim (Bool-cases (leb size (length cs))) [
  | inl e ↦ rw e (
      then_rest-Ends (decode_record (take size cs)) (rest (drop size cs))
        (k (drop size cs) (omega (arith, length-drop size cs, l, h))))
  | inr e ↦ rw e refl
]

read_records-Ends : (fuel : ℕ) (bs : Bytes) → length bs ≤ fuel → Ends (read_records fuel bs)
unfolding read_records
read_records-Ends zero [] h = refl
read_records-Ends (suc fuel) [] h = refl
read_records-Ends zero (b ∷ bs) h = absurd (omega (arith, h))
read_records-Ends (suc fuel) (b ∷ bs) h =
    record_behind-Ends (read_records fuel) fuel (b ∷ bs) (read_le 4 (b ∷ bs))
      (read_le-Leaves 4 (b ∷ bs)) h (read_records-Ends fuel)

module _ (decompress : ℕ → Bytes → Option Bytes) where
  block_records-Ends :
      (raw_size : ℕ) (o : Option Bytes) (d : Delivered)
      → Ends d
      → Ends (block_records decompress raw_size o d)
  block_records-Ends raw_size none d h = refl
  block_records-Ends raw_size (some block) d h = elim (Bool-cases (length block == raw_size)) [
    | inl e ↦ rw e (
        followed-Ends (read_records (length block) block) d
          (read_records-Ends (length block) block (omega arith)) h)
    | inr e ↦ rw e refl
  ]

  compressed_behind-Ends :
      (rest : Bytes → Delivered) (n raw_size : ℕ) (bs : Bytes) (o : Option (ℕ × Bytes))
      → Leaves 4 bs o
      → length bs ≤ n
      → ((cs : Bytes) → length cs ≤ n → Ends (rest cs))
      → Ends (compressed_behind decompress rest raw_size o)
  compressed_behind-Ends rest n raw_size bs none l h k = refl
  compressed_behind-Ends rest n raw_size bs (some (size, cs)) l h k =
      elim (Bool-cases (leb size (length cs))) [
        | inl e ↦ rw e (
            block_records-Ends raw_size (decompress raw_size (take size cs)) (rest (drop size cs))
              (k (drop size cs) (omega (arith, length-drop size cs, l, h))))
        | inr e ↦ rw e refl
      ]

  block_behind-Ends :
      (rest : Bytes → Delivered) (n : ℕ) (bs : Bytes) (o : Option (ℕ × Bytes))
      → Leaves 4 bs o
      → length bs ≤ suc n
      → ((cs : Bytes) → length cs ≤ n → Ends (rest cs))
      → Ends (block_behind decompress rest o)
  block_behind-Ends rest n bs none l h k = refl
  block_behind-Ends rest n bs (some (raw_size, cs)) l h k =
      compressed_behind-Ends rest n raw_size cs (read_le 4 cs) (read_le-Leaves 4 cs)
        (omega (arith, l, h)) k

  read_blocks-Ends :
      (fuel : ℕ) (bs : Bytes) → length bs ≤ fuel → Ends (read_blocks decompress fuel bs)
  unfolding read_blocks
  read_blocks-Ends zero [] h = refl
  read_blocks-Ends (suc fuel) [] h = refl
  read_blocks-Ends zero (b ∷ bs) h = absurd (omega (arith, h))
  read_blocks-Ends (suc fuel) (b ∷ bs) h =
      block_behind-Ends (read_blocks decompress fuel) fuel (b ∷ bs) (read_le 4 (b ∷ bs))
        (read_le-Leaves 4 (b ∷ bs)) h (read_blocks-Ends fuel)

  version_behind-Ends : (o : Option (ℕ × Bytes)) → Ends (version_behind decompress o)
  version_behind-Ends none = refl
  version_behind-Ends (some (version, bs)) = elim (Bool-cases (version == 1)) [
    | inl e ↦ rw e (read_blocks-Ends (length bs) bs (omega arith))
    | inr e ↦ rw e refl
  ]

  -- For every file, also one cut off or damaged, and whatever the decompression returns, the
  -- reading comes to an end: it never runs out of the fuel that its loops have, the number of the
  -- bytes that they read.
  pub read_file-total : (bs : Bytes) → ends (read_file decompress bs).1 ≡ true
  unfolding read_file
  read_file-total bs = elim (Bool-cases (equal_bytes (take 8 bs) magic)) [
    | inl e ↦ rw e (version_behind-Ends (read_le 4 (drop 8 bs)))
    | inr e ↦ rw e refl
  ]
