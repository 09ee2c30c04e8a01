-- ===== src/RawFormat/Files/RoundTrip.antt =====
-- The records that a framed block holds, and how its reader goes through them.
use crypto_microstructure_ma.Prelude.{
  ℕ, zero, suc, ◌≤◌, ◌≡◌, refl, sym, subst, true, Option, none, some, List, [], ◌∷◌, ◌++◌, arith,
  leb, length, length-append, append_assoc, append-nil, take-length-append, drop-length-append,
}
use crypto_microstructure_ma.RawFormat.{
  Bytes, RawRecord, bind, pack_unsigned, encode_record, read_le, decode_record,
}
use crypto_microstructure_ma.RawFormat.RoundTrip.{Reads, pack_unsigned-Reads, decode-encode}
use crypto_microstructure_ma.RawFormat.Files.{frame_record, Delivered, record_behind, read_records}
use crypto_microstructure_ma.RawFormat.Files.Total.{Leaves, read_le-Leaves}

-- What holds of the value of an option, if it has one.
abbrev pub Given {ℓ} : {A : Type ℓ} → (A → Type 0) → Option A → Type 0
Given P none = Unit
Given P (some a) = P a

pub bind-Given {ℓ κ} :
    {A : Type ℓ} {B : Type κ} (P : A → Type 0) (Q : B → Type 0) (f : A → Option B) (o : Option A)
    → Given P o
    → ((a : A) → P a → Given Q (f a))
    → Given Q (bind o f)
bind-Given P Q f none h k = tt
bind-Given P Q f (some a) h k = k a h

pub map-Given {ℓ} :
    {A : Type ℓ} (P Q : A → Type 0) (o : Option A) → ((a : A) → P a → Q a) → Given P o → Given Q o
map-Given P Q none f h = tt
map-Given P Q (some a) f h = f a h

-- Reading the bytes delivers this, given enough fuel.
abbrev Yields : (ℕ → Bytes → Delivered) → Bytes → Delivered → Type 0
Yields read bs d = (fuel : ℕ) → length bs ≤ fuel → read fuel bs ≡ d

-- Reading the bytes delivers these records and goes on behind them.
abbrev pub Frames : (ℕ → Bytes → Delivered) → List RawRecord → Bytes → Type 0
Frames read rs bs =
    (tail : Bytes) (d : Delivered) → Yields read tail d → Yields read (bs ++ tail) (rs ++ d.0, d.1)

pub no-Frames : (read : ℕ → Bytes → Delivered) → Frames read [] []
no-Frames read tail d h fuel enough = h fuel enough

pub append-Frames :
    (read : ℕ → Bytes → Delivered) (rs ss : List RawRecord) (xs bs : Bytes)
    → Frames read rs xs
    → Frames read ss bs
    → Frames read (rs ++ ss) (xs ++ bs)
append-Frames read rs ss xs bs h k tail d y =
    subst (λ cs. Yields read cs ((rs ++ ss) ++ d.0, d.1)) (sym (append_assoc xs bs tail))
      (subst (λ ts. Yields read (xs ++ (bs ++ tail)) (ts, d.1)) (sym (append_assoc rs ss d.0))
        (h (bs ++ tail) (ss ++ d.0, d.1) (k tail d y)))

-- Reading such bytes to their end delivers the records.
pub all_read :
    (read : ℕ → Bytes → Delivered) (rs : List RawRecord) (bs : Bytes)
    → ((fuel : ℕ) → read fuel [] ≡ ([], none))
    → Frames read rs bs
    → (fuel : ℕ) → length bs ≤ fuel
    → read fuel bs ≡ (rs, none)
all_read read rs bs empty h =
    subst (λ ss. Yields read bs (ss, none)) (append-nil rs)
      (subst (λ cs. Yields read cs (rs ++ [], none)) (append-nil bs)
        (h [] ([], none) (λ fuel enough. empty fuel)))

pub no_records : (fuel : ℕ) → read_records fuel [] ≡ ([], none)
unfolding read_records
no_records zero = refl
no_records (suc fuel) = refl

record_step :
    (fuel : ℕ) (bs : Bytes) (r : ℕ × Bytes) (d : Delivered)
    → read_le 4 bs ≡ some r
    → Leaves 4 bs (some r)
    → length bs ≤ fuel
    → ((m : ℕ) → length r.1 ≤ m → record_behind (read_records m) (some r) ≡ d)
    → read_records fuel bs ≡ d
unfolding read_records read_le
record_step fuel [] r d e l h k = absurd (cc e)
record_step zero (b ∷ bs) r d e l h k = absurd (omega (arith, h))
record_step (suc m) (b ∷ bs) r d e l h k = rw e (k m (omega (arith, h, l)))

pub leaves : (bs : Bytes) (r : ℕ × Bytes) → read_le 4 bs ≡ some r → Leaves 4 bs (some r)
leaves bs r e = subst (Leaves 4 bs) e (read_le-Leaves 4 bs)

-- What a packed size reads, before any bytes.
pub size_behind :
    (n : ℕ) (size bs tail : Bytes)
    → Reads (read_le 4) n (some size)
    → read_le 4 ((size ++ bs) ++ tail) ≡ some (n, bs ++ tail)
size_behind n size bs tail h =
    subst (λ cs. read_le 4 cs ≡ some (n, bs ++ tail)) (sym (append_assoc size bs tail))
      (h (bs ++ tail))

pub leb_append : (xs ys : Bytes) → leb (length xs) (length (xs ++ ys)) ≡ true
leb_append xs ys = ground (arith, length-append xs ys)

-- A record that is framed, if it is.
abbrev RecordFrames : RawRecord → Option Bytes → Type 0
RecordFrames r o = Given (Frames read_records (r ∷ [])) o

sized-RecordFrames :
    (r : RawRecord) (encoded : Bytes) (o : Option Bytes)
    → decode_record encoded ≡ some r
    → Reads (read_le 4) (length encoded) o
    → RecordFrames r (bind o (λ size. some (size ++ encoded)))
sized-RecordFrames r encoded none e h = tt
sized-RecordFrames r encoded (some size) e h = λ tail d y fuel enough.
    let bs : Bytes = (size ++ encoded) ++ tail in
    let behind : ℕ × Bytes = (length encoded, encoded ++ tail) in
    let got : read_le 4 bs ≡ some behind = size_behind (length encoded) size encoded tail h in
    record_step fuel bs behind (r ∷ d.0, d.1) got (leaves bs behind got) enough
      (λ m le.
        let next : read_records m tail ≡ d = y m (omega (arith, le, length-append encoded tail)) in
        rw
          (
            leb_append encoded tail,
            take-length-append encoded tail,
            drop-length-append encoded tail,
            e,
            next,
          )
          refl)

framed-RecordFrames :
    (r : RawRecord) (o : Option Bytes)
    → encode_record r ≡ o
    → RecordFrames r (
        bind o
          (λ encoded. bind (pack_unsigned 4 (length encoded)) (λ size. some (size ++ encoded))))
framed-RecordFrames r none e = tt
framed-RecordFrames r (some encoded) e =
    sized-RecordFrames r encoded (pack_unsigned 4 (length encoded)) (decode-encode r encoded e)
      (pack_unsigned-Reads 4 (length encoded))

pub frame_record-RecordFrames : (r : RawRecord) → RecordFrames r (frame_record r)
unfolding frame_record
frame_record-RecordFrames r = framed-RecordFrames r (encode_record r) refl
