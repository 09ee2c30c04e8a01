-- ===== src/RawFormat/RoundTrip.antt =====
-- What the writer encodes the reader decodes.
use crypto_microstructure_ma.Prelude.{
  ℕ, zero, suc, ◌+◌, ◌-◌, ◌/◌, ◌<◌, ◌≡◌, refl, ap, subst, true, false, inl, inr, Option, none, some,
  [], ◌++◌, arith, Bool-cases, ltb, leb, length, length-append, append_assoc, append-nil,
  take-length-append, drop-length-append,
}
use crypto_microstructure_ma.Prelude.Int.{ℤ, pos, negsuc}
use crypto_microstructure_ma.RawFormat.{
  Bytes, RawRecord, bind, pow256, le_bytes, pack_unsigned, half, pack_signed, pack_string,
  encode_record, read_le, read_signed, read_string, decode_record,
}

read_le-le_bytes :
    (w n : ℕ) (rest : Bytes) → n < pow256 w → read_le w (le_bytes w n ++ rest) ≡ some (n, rest)
unfolding read_le le_bytes
read_le-le_bytes zero n rest h = ap (λ k. some (k, rest)) (omega arith)
read_le-le_bytes (suc w) n rest h =
    let inner = read_le-le_bytes w (n / 256) rest (omega (arith, h)) in
    rw inner (ap (λ k. some (k, rest)) (omega arith))

-- What packs reads back, with any bytes behind it.
abbrev pub Reads {ℓ} : {A : Type ℓ} → (Bytes → Option (A × Bytes)) → A → Option Bytes → Type ℓ
Reads read a none = Unit
Reads read a (some bs) = (rest : Bytes) → read (bs ++ rest) ≡ some (a, rest)

pub pack_unsigned-Reads : (w n : ℕ) → Reads (read_le w) n (pack_unsigned w n)
unfolding pack_unsigned
pack_unsigned-Reads w n = elim (Bool-cases (ltb n (pow256 w))) [
  | inl e ↦ rw e (λ rest. read_le-le_bytes w n rest (ground (arith, e)))
  | inr e ↦ rw e tt
]

pack_signed-Reads : (v : ℤ) → Reads read_signed v (pack_signed v)
unfolding pack_signed read_signed
pack_signed-Reads (pos n) = elim (Bool-cases (ltb n half)) [
  | inl e ↦ rw e (λ rest.
      let inner = read_le-le_bytes 8 n rest (ground (arith, e)) in
      let small : ltb n half ≡ true = e in rw (inner, small) refl)
  | inr e ↦ rw e tt
]
pack_signed-Reads (negsuc n) = elim (Bool-cases (ltb n half)) [
  | inl e ↦
      let m : ℕ = half + half - 1 - n in
      rw e (λ rest.
        let inner = read_le-le_bytes 8 m rest (ground (arith, e)) in
        let large : ltb m half ≡ false = ground (arith, e) in
        let back : half + half - 1 - m ≡ n = ground (arith, e) in rw (inner, large, back) refl)
  | inr e ↦ rw e tt
]

pack_string-Reads : (s : Bytes) → Reads read_string s (pack_string s)
unfolding pack_string read_string
pack_string-Reads s = go (pack_unsigned 4 (length s)) (pack_unsigned-Reads 4 (length s))
  where
    go :
        (o : Option Bytes)
        → Reads (read_le 4) (length s) o
        → Reads read_string s (bind o (λ size. some (size ++ s)))
    go none h = tt
    go (some size) h = λ rest.
        let split : size ++ s ++ rest ≡ size ++ (s ++ rest) = append_assoc size s rest in
        let fits : leb (length s) (length (s ++ rest)) ≡ true =
          ground (arith, length-append s rest) in
        rw (split, h (s ++ rest), fits, take-length-append s rest, drop-length-append s rest) refl

-- The parts of a record, joined if each of them packs.
abbrev joined :
    Option Bytes
    → Option Bytes
    → Option Bytes
    → Option Bytes
    → Option Bytes
    → Option Bytes
    → Option Bytes
    → Option Bytes
joined a b c d e f g = bind a (λ a. bind b (λ b. bind c (λ c. bind d (λ d.
    bind e (λ e. bind f (λ f. bind g (λ g. some (a ++ (b ++ (c ++ (d ++ (e ++ (f ++ g)))))))))))))

abbrev DecodesTo : RawRecord → Option Bytes → Type 0
DecodesTo r none = Unit
DecodesTo r (some bs) = decode_record bs ≡ some r

joined-DecodesTo :
    (r : RawRecord) (a b c d e f g : Option Bytes)
    → Reads (read_le 8) r.local_system_ns a
    → Reads (read_le 8) r.local_steady_ns b
    → Reads read_signed r.exchange_time_ms c
    → Reads (read_le 1) r.event_type d
    → Reads read_string r.session_id e
    → Reads read_string r.stream f
    → Reads read_string r.payload g
    → DecodesTo r (joined a b c d e f g)
unfolding decode_record
joined-DecodesTo r none b c d e f g ha hb hc hd he hf hg = tt
joined-DecodesTo r (some a) none c d e f g ha hb hc hd he hf hg = tt
joined-DecodesTo r (some a) (some b) none d e f g ha hb hc hd he hf hg = tt
joined-DecodesTo r (some a) (some b) (some c) none e f g ha hb hc hd he hf hg = tt
joined-DecodesTo r (some a) (some b) (some c) (some d) none f g ha hb hc hd he hf hg = tt
joined-DecodesTo r (some a) (some b) (some c) (some d) (some e) none g ha hb hc hd he hf hg = tt
joined-DecodesTo r (some a) (some b) (some c) (some d) (some e) (some f) none ha hb hc hd he hf hg =
    tt
joined-DecodesTo r (some a) (some b) (some c) (some d) (some e) (some f) (some g) ha hb hc hd he hf
      hg =
    let last : read_string g ≡ some (r.payload, []) =
      subst (λ bs. read_string bs ≡ some (r.payload, [])) (append-nil g) (hg []) in
    rw (ha _, hb _, hc _, hd _, he _, hf _, last) refl

-- A record that the writer can encode, with each number in its field's range and each string under
-- 2^32 bytes, is decoded to itself by the reader.
pub decode-encode :
    (r : RawRecord) (bs : Bytes) → encode_record r ≡ some bs → decode_record bs ≡ some r
unfolding encode_record
decode-encode r bs e = subst (DecodesTo r) e (
    joined-DecodesTo r _ _ _ _ _ _ _ (pack_unsigned-Reads 8 r.local_system_ns)
      (pack_unsigned-Reads 8 r.local_steady_ns) (pack_signed-Reads r.exchange_time_ms)
      (pack_unsigned-Reads 1 r.event_type) (pack_string-Reads r.session_id)
      (pack_string-Reads r.stream) (pack_string-Reads r.payload))
