-- ===== src/PassiveEntry/NextUnsafe.antt =====
-- From a row to its next unsafe row an order is safe, and in one segment.
use crypto_microstructure_ma.Prelude.Arrays.{equal_finite, flag_at, value_at}
use crypto_microstructure_ma.Prelude.{
  ℕ, zero, suc, ◌+◌, ◌-◌, ◌≤◌, ◌<◌, ◌≡◌, ◌⊎◌, refl, inl, inr, Bool, true, false, ◌||◌, not, Option,
  none, some, List, [], ◌∷◌, arith, Bool-cases, leb, length, subst, sym,
}
use crypto_microstructure_ma.StateExit.{first_hit, is_finite}
use crypto_microstructure_ma.PassiveEntry.{bad_from, flatnonzero, or_rows, next_unsafe}

-- No flag from the start on and before a row, for rows that are counted from `i`.
abbrev NoFlag : ℕ → ℕ → List Bool → ℕ → Type 0
NoFlag start i bs j = (k : ℕ) → start ≤ i + k → k < j → flag_at bs k ≡ false

abbrev IsFirstFlag : ℕ → ℕ → List Bool → Option ℕ → Type 0
IsFirstFlag start i bs none = (k : ℕ) → start ≤ i + k → flag_at bs k ≡ false
IsFirstFlag start i bs (some h) =
    (j : ℕ) × (h ≡ i + j) × (flag_at bs j ≡ true) × (start ≤ h) × NoFlag start i bs j

later-IsFirstFlag :
    (start i : ℕ) (b : Bool) (bs : List Bool) (o : Option ℕ)
    → (start ≤ i → b ≡ false)
    → IsFirstFlag start (i + 1) bs o
    → IsFirstFlag start i (b ∷ bs) o
later-IsFirstFlag start i b bs none f h = go
  where
    go : (k : ℕ) → start ≤ i + k → flag_at (b ∷ bs) k ≡ false
    go zero l = f (omega arith)
    go (suc k) l = h k (omega arith)
later-IsFirstFlag start i b bs (some x) f (j, e, t, l, n) = (suc j, omega (arith, e), t, l, go)
  where
    go : (k : ℕ) → start ≤ i + k → k < suc j → flag_at (b ∷ bs) k ≡ false
    go zero p q = f (omega arith)
    go (suc k) p q = n k (omega arith) (omega arith)

first_hit-IsFirstFlag :
    (start i : ℕ) (bs : List Bool) → IsFirstFlag start i bs (first_hit start (flatnonzero i bs))
unfolding first_hit flatnonzero
first_hit-IsFirstFlag start i [] = λ k l. refl
first_hit-IsFirstFlag start i (false ∷ bs) =
    later-IsFirstFlag start i false bs _ (λ l. refl) (first_hit-IsFirstFlag start (i + 1) bs)
first_hit-IsFirstFlag start i (true ∷ bs) = elim (Bool-cases (leb start i)) [
  | inl q ↦ rw q (zero, omega arith, refl, ground (arith, q), λ k a b. absurd (omega (arith, b)))
  | inr q ↦ rw q (
      later-IsFirstFlag start i true bs _ (λ l. absurd (ground (arith, q, l)))
        (first_hit-IsFirstFlag start (i + 1) bs))
]

-- A row that is not bad is safe, and of the segment of the row before it.
bad_from-false :
    (previous : Option (Option ℕ)) (ss : List Bool) (gs : List (Option ℕ)) (k : ℕ)
    → length ss ≡ length gs
    → suc k < length ss
    → flag_at (bad_from previous ss gs) (suc k) ≡ false
    → (flag_at ss (suc k) ≡ true) × (equal_finite (value_at gs k) (value_at gs (suc k)) ≡ true)
unfolding bad_from
bad_from-false previous [] gs k e l h = absurd (omega (arith, l))
bad_from-false previous (s ∷ ss) [] k e l h = absurd (omega (arith, e))
bad_from-false previous (s ∷ []) (g ∷ gs) k e l h = absurd (omega (arith, l))
bad_from-false previous (s ∷ t ∷ ss) (g ∷ []) k e l h = absurd (omega (arith, e))
bad_from-false previous (s ∷ t ∷ ss) (g ∷ d ∷ gs) zero e l h =
    (ground (arith, h), ground (arith, h))
bad_from-false previous (s ∷ t ∷ ss) (g ∷ d ∷ gs) (suc k) e l h =
    bad_from-false (some g) (t ∷ ss) (d ∷ gs) k (omega (arith, e)) (omega (arith, l)) h

some_finite : (a b : Option ℕ) → is_finite b ≡ false → equal_finite a b ≡ false
some_finite none b e = refl
some_finite (some a) none e = refl
some_finite (some a) (some b) e = absurd (ground (arith, e))

unsafe_of :
    (s : Bool) (p g : Option ℕ)
    → (not s || not (is_finite g) || not (equal_finite p g)) ≡ true
    → (s ≡ false) ⊎ (equal_finite p g ≡ false)
unsafe_of false p g e = inl refl
unsafe_of true p g e = elim (Bool-cases (is_finite g)) [
  | inl f ↦ inr (ground (arith, e, f))
  | inr f ↦ inr (some_finite p g f)
]

-- A row that is bad is unsafe, or of another segment than the row before it.
bad_from-true :
    (previous : Option (Option ℕ)) (ss : List Bool) (gs : List (Option ℕ)) (k : ℕ)
    → flag_at (bad_from previous ss gs) (suc k) ≡ true
    → (flag_at ss (suc k) ≡ false) ⊎ (equal_finite (value_at gs k) (value_at gs (suc k)) ≡ false)
unfolding bad_from
bad_from-true previous [] gs k h = inl refl
bad_from-true previous (s ∷ ss) [] k h = absurd (ground (arith, h))
bad_from-true previous (s ∷ []) (g ∷ gs) k h = inl refl
bad_from-true previous (s ∷ t ∷ ss) (g ∷ []) k h = inr (no_segment g k)
  where
    no_segment : (g : Option ℕ) (k : ℕ) → equal_finite (value_at (g ∷ []) k) none ≡ false
    no_segment none zero = refl
    no_segment (some a) zero = refl
    no_segment g (suc k) = refl
bad_from-true previous (s ∷ t ∷ ss) (g ∷ d ∷ gs) zero h = unsafe_of t g d h
bad_from-true previous (s ∷ t ∷ ss) (g ∷ d ∷ gs) (suc k) h =
    bad_from-true (some g) (t ∷ ss) (d ∷ gs) k h

equal_finite_trans :
    (a b c : Option ℕ) → equal_finite a b ≡ true → equal_finite b c ≡ true → equal_finite a c ≡ true
equal_finite_trans (some a) (some b) (some c) e f = ground (arith, e, f)
equal_finite_trans none b c e f = e
equal_finite_trans (some a) none c e f = absurd (ground (arith, e))
equal_finite_trans (some a) (some b) none e f = f

-- Safe, and of the row's segment.
abbrev pub IsSafeFrom : List Bool → List (Option ℕ) → ℕ → ℕ → Type 0
IsSafeFrom safety segments i k =
    (flag_at safety k ≡ true) × (equal_finite (value_at segments i) (value_at segments k) ≡ true)

abbrev Unflagged : List Bool → List (Option ℕ) → ℕ → ℕ → Type 0
Unflagged safety segments i n =
    (k : ℕ) → i < k → k < n → flag_at (bad_from none safety segments) k ≡ false

row_after :
    (safety : List Bool) (segments : List (Option ℕ)) (i n d : ℕ)
    → length safety ≡ length segments
    → n ≤ length safety
    → Unflagged safety segments i n
    → i + 1 + d < n
    → IsSafeFrom safety segments i (i + 1 + d)
row_after safety segments i n zero e m u l =
    let here : suc i < n = omega (arith, l) in
    subst (IsSafeFrom safety segments i) (omega arith) (
      bad_from-false none safety segments i e (omega (arith, m, here))
        (u (suc i) (omega arith) here))
row_after safety segments i n (suc d) e m u l =
    let k = i + 1 + d in
    let before = row_after safety segments i n d e m u (omega (arith, l)) in
    let here : suc k < n = omega (arith, l) in
    let (safe, same) =
      bad_from-false none safety segments k e (omega (arith, m, here))
        (u (suc k) (omega arith) here) in
    subst (IsSafeFrom safety segments i) (omega arith) (
      safe,
      equal_finite_trans (value_at segments i) (value_at segments k) (value_at segments (suc k))
          before.1 same,
    )

-- What the next unsafe row is: later, or past the last row; every row between is safe and of the
-- row's segment; and it is unsafe itself, or of another segment than the row before it.
pub record IsNextUnsafe (safety : List Bool) (segments : List (Option ℕ)) (i r : ℕ) : Type 0 where
  pub is_later : i < r
  pub safe_between : (k : ℕ) → i < k → k < r → k < length safety → IsSafeFrom safety segments i k
  pub is_unsafe :
      (r ≡ length safety)
      ⊎ ((flag_at safety r ≡ false)
          ⊎ (equal_finite (value_at segments (r - 1)) (value_at segments r) ≡ false))

row_between :
    (safety : List Bool) (segments : List (Option ℕ)) (i n k : ℕ)
    → length safety ≡ length segments
    → n ≤ length safety
    → Unflagged safety segments i n
    → i < k
    → k < n
    → IsSafeFrom safety segments i k
row_between safety segments i n k e m u a b =
    let same : i + 1 + (k - i - 1) ≡ k = omega (arith, a) in
    subst (IsSafeFrom safety segments i) same
      (row_after safety segments i n (k - i - 1) e m u (omega (arith, same, b)))

found-IsNextUnsafe :
    (safety : List Bool) (segments : List (Option ℕ)) (i : ℕ) (o : Option ℕ)
    → length safety ≡ length segments
    → i < length safety
    → IsFirstFlag (i + 1) 0 (bad_from none safety segments) o
    → IsNextUnsafe safety segments i (or_rows (length safety) o)
found-IsNextUnsafe safety segments i none e l h = record {
  is_later = l;
  safe_between = λ k a b c.
      row_between safety segments i (length safety) k e (omega arith)
        (λ j p q. h j (omega (arith, p))) a c;
  is_unsafe = inl refl;
}
found-IsNextUnsafe safety segments i (some r) e l (j, same, flag, later, n) =
    let here : flag_at (bad_from none safety segments) r ≡ true =
      subst (λ x. flag_at (bad_from none safety segments) x ≡ true) (omega (arith, same)) flag in
    let back : suc (r - 1) ≡ r = omega (arith, later) in
    let bad =
      bad_from-true none safety segments (r - 1)
        (subst (λ x. flag_at (bad_from none safety segments) x ≡ true) (sym back) here) in
    record {
      is_later = omega (arith, later);
      safe_between = λ k a b c.
          row_between safety segments i (suc k) k e (omega (arith, c))
            (λ x p q. n x (omega (arith, p)) (omega (arith, q, b, same))) a (omega arith);
      is_unsafe = inr (
          subst
            (λ x.
              (flag_at safety x ≡ false)
              ⊎ (equal_finite (value_at segments (r - 1)) (value_at segments x) ≡ false))
            back bad);
    }

-- For arrays of one length and a row of them, the next unsafe row is later or past the last row;
-- every row between is safe and of the row's segment; and it is itself unsafe, or of another
-- segment than the row before it.
pub next_unsafe-IsNextUnsafe :
    (safety : List Bool) (segments : List (Option ℕ)) (i : ℕ)
    → length safety ≡ length segments
    → i < length safety
    → IsNextUnsafe safety segments i (next_unsafe safety segments i)
unfolding next_unsafe
next_unsafe-IsNextUnsafe safety segments i e l =
    found-IsNextUnsafe safety segments i _ e l
      (first_hit-IsFirstFlag (i + 1) 0 (bad_from none safety segments))
