-- ===== src/Splits/Once.antt =====
-- Each row is validated once, and no fold trains on a row whose target is validated.
use crypto_microstructure_ma.Prelude.{
  ℕ, ◌+◌, ◌≤◌, ◌<◌, ◌≡◌, refl, sym, ◌∙◌, inl, inr, Bool, true, false, ◌&&◌, List, [], ◌∷◌, drop,
  arith, Bool-cases, All, ltb, leb,
}
use crypto_microstructure_ma.Prelude.Search.{IsAscending}
use crypto_microstructure_ma.Splits.{
  Fold, folds_from, is_training, is_validation, count_if, fold_rows, fold_table, block_edges,
  build_folds,
}

abbrev pub count_of : Bool → ℕ
count_of true = 1
count_of false = 0

-- In how many folds a row is validated.
abbrev pub times_validated : ℕ → List Fold → ℕ
times_validated t [] = 0
times_validated t (f ∷ fs) = count_of (is_validation f t) + times_validated t fs

-- The last edge, from an edge on.
abbrev pub last_edge : ℕ → List ℕ → ℕ
last_edge a [] = a
last_edge a (b ∷ es) = last_edge b es

last_edge-le :
    (a : ℕ) (es : List ℕ) → All (λ e. a ≤ e) es → IsAscending (λ e. e) es → a ≤ last_edge a es
last_edge-le a [] l h = omega arith
last_edge-le a (b ∷ es) (l, ls) (m, h) = omega (arith, l, last_edge-le b es m h)

-- A row before the folds' first edge is in none of them.
before-first :
    (purge i block t a : ℕ) (es : List ℕ)
    → t < a
    → IsAscending (λ e. e) (a ∷ es)
    → times_validated t (folds_from purge i block (a ∷ es)) ≡ 0
unfolding folds_from
before-first purge i block t a [] l h = refl
before-first purge i block t a (b ∷ es) l (m, h) =
    let out : (leb a t && ltb t b) ≡ false = ground (arith, l) in
    rw out (omega (arith, before-first purge (i + 1) (block + 1) t b es (omega (arith, l, m.0)) h))

-- Whether a row is in the folds' range.
abbrev pub in_range : ℕ → List ℕ → ℕ → Bool
in_range a es t = leb a t && ltb t (last_edge a es)

folds_from-once :
    (purge i block t a : ℕ) (es : List ℕ)
    → IsAscending (λ e. e) (a ∷ es)
    → times_validated t (folds_from purge i block (a ∷ es)) ≡ count_of (in_range a es t)
unfolding folds_from
folds_from-once purge i block t a [] h = ground arith
folds_from-once purge i block t a (b ∷ es) (m, h) =
    let last = last_edge-le b es h.0 h.1 in
    elim (Bool-cases (ltb t b)) [
      | inl e ↦
          let rest = before-first purge (i + 1) (block + 1) t b es (ground (arith, e)) h in
          let within : (leb a t && ltb t b) ≡ in_range a (b ∷ es) t = ground (arith, e, last) in
          rw (rest, within) (omega arith)
      | inr e ↦
          let rest = folds_from-once purge (i + 1) (block + 1) t b es h in
          let out : (leb a t && ltb t b) ≡ false = ground (arith, e) in
          let same : in_range b es t ≡ in_range a (b ∷ es) t = ground (arith, e, m.0) in
          rw (out, rest, same) (omega arith)
    ]

abbrev pub total_validation : List (ℕ × ℕ) → ℕ
total_validation [] = 0
total_validation ((train, validation) ∷ rows) = validation + total_validation rows

-- The same sum, row by row.
abbrev total_times : List Fold → List ℕ → ℕ
total_times fs [] = 0
total_times fs (t ∷ ts) = times_validated t fs + total_times fs ts

count_if-cons :
    (test : ℕ → Bool) (t : ℕ) (ts : List ℕ)
    → count_if test (t ∷ ts) ≡ count_of (test t) + count_if test ts
unfolding count_if
count_if-cons test t ts = elim (Bool-cases (test t)) [
  | inl e ↦ rw e (omega arith)
  | inr e ↦ rw e (omega arith)
]

count_if_nil : (test : ℕ → Bool) → count_if test [] ≡ 0
unfolding count_if
count_if_nil test = refl

table_nil : (fs : List Fold) → total_validation (fold_table [] fs) ≡ 0
unfolding fold_table fold_rows count_if
table_nil [] = refl
table_nil (f ∷ fs) = omega (arith, table_nil fs)

table_cons :
    (t : ℕ) (ts : List ℕ) (fs : List Fold)
    → total_validation (fold_table (t ∷ ts) fs)
      ≡ times_validated t fs + total_validation (fold_table ts fs)
unfolding fold_table fold_rows
table_cons t ts [] = refl
table_cons t ts (f ∷ fs) = omega (arith, count_if-cons (is_validation f) t ts, table_cons t ts fs)

table-once :
    (purge i block a : ℕ) (es ts : List ℕ)
    → IsAscending (λ e. e) (a ∷ es)
    → total_validation (fold_table ts (folds_from purge i block (a ∷ es)))
      ≡ count_if (in_range a es) ts
table-once purge i block a es [] h = table_nil _ ∙ sym (count_if_nil (in_range a es))
table-once purge i block a es (t ∷ ts) h = omega (
  arith,
  table_cons t ts (folds_from purge i block (a ∷ es)),
  folds_from-once purge i block t a es h,
  count_if-cons (in_range a es) t ts,
  table-once purge i block a es ts h,
)

-- No row that a fold trains on comes within the purge of its validation.
abbrev pub IsPurged : ℕ → Fold → Type 0
IsPurged purge f = (t : ℕ) → is_training f t ≡ true → t + purge ≤ f.validation_start_ns

folds_from-IsPurged :
    (purge i block : ℕ) (es : List ℕ) → All (IsPurged purge) (folds_from purge i block es)
unfolding folds_from
folds_from-IsPurged purge i block [] = tt
folds_from-IsPurged purge i block (a ∷ []) = tt
folds_from-IsPurged purge i block (a ∷ b ∷ es) =
    (λ t h. ground (arith, h), folds_from-IsPurged purge (i + 1) (block + 1) (b ∷ es))

-- Where the edges from the first validated block on do not decrease, the validation rows of all
-- folds are together as many as the rows from the first of these edges to the last, so that each of
-- these rows is validated once; and no fold trains on a row that comes within the purge of its
-- validation.
pub build_folds-once :
    (linspace : ℕ → ℕ → ℕ → List ℕ) (blocks first_block purge t a : ℕ) (ts es rows : List ℕ)
    → drop first_block (block_edges linspace blocks t ts) ≡ a ∷ es
    → IsAscending (λ e. e) (a ∷ es)
    → let folds = build_folds linspace blocks first_block purge t ts in
      (total_validation (fold_table rows folds) ≡ count_if (in_range a es) rows)
      × All (IsPurged purge) folds
      × ((u : ℕ) → times_validated u folds ≡ count_of (in_range a es u))
unfolding build_folds
build_folds-once linspace blocks first_block purge t a ts es rows e h = rw e (
  table-once purge 0 first_block a es rows h,
  folds_from-IsPurged purge 0 first_block (a ∷ es),
  λ u. folds_from-once purge 0 first_block u a es h,
)
