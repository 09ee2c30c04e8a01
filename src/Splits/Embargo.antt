-- ===== src/Splits/Embargo.antt =====
-- What the embargo's check promises.
use crypto_microstructure_ma.Prelude.{
  ℕ, ◌+◌, ◌*◌, ◌/◌, ◌≤◌, ◌<◌, ◌≡◌, refl, ◌⊎◌, inl, inr, ◌↔◌, true, false, List, [], ◌∷◌, map, arith,
  Bool-cases, All,
}
use crypto_microstructure_ma.Prelude.Results.{Fallible, ok, err, Checked}
use crypto_microstructure_ma.Splits.{
  LabelRow, SplitError, embargo_violated, day_start, violates, count_violations, any_positive,
  assert_split_embargo,
}

-- The day in which a time lies, counted from the epoch in whole days.
abbrev pub IsDayOf : ℕ → ℕ → Type 0
IsDayOf day time = (day * 86400000000 ≤ time) × (time < (day + 1) * 86400000000)

-- A label that is there looks at a time before the next day, whichever day the row lies in.
abbrev pub IsWithinDay : ℕ → LabelRow → Type 0
IsWithinDay horizon_ms row =
    row.has_label horizon_ms ≡ true
    → (day : ℕ) → IsDayOf day row.sample_time_us
    → row.sample_time_us + horizon_ms * 1000 < (day + 1) * 86400000000

day_start-IsDayOf : (day time : ℕ) → IsDayOf day time → day_start time ≡ day * 86400000000
unfolding day_start
day_start-IsDayOf day time d = omega arith

div-IsDayOf : (time : ℕ) → IsDayOf (time / 86400000000) time
div-IsDayOf time = omega arith

violates-false :
    (horizon_ms : ℕ) (row : LabelRow) → violates horizon_ms row ≡ false → IsWithinDay horizon_ms row
unfolding violates
violates-false horizon_ms row e =
    λ h day d. ground (arith, e, h, day_start-IsDayOf day row.sample_time_us d)

IsWithinDay-violates :
    (horizon_ms : ℕ) (row : LabelRow) → IsWithinDay horizon_ms row → violates horizon_ms row ≡ false
unfolding violates
IsWithinDay-violates horizon_ms row w = elim (Bool-cases (row.has_label horizon_ms)) [
  | inr h ↦ rw h refl
  | inl h ↦
      let day : IsDayOf (row.sample_time_us / 86400000000) row.sample_time_us =
        div-IsDayOf row.sample_time_us in
      let within : row.sample_time_us + horizon_ms * 1000
          < (row.sample_time_us / 86400000000 + 1) * 86400000000 =
        w h (row.sample_time_us / 86400000000) day in
      ground (
        arith,
        h,
        within,
        day_start-IsDayOf (row.sample_time_us / 86400000000) row.sample_time_us day,
      )
]

none-violates :
    (horizon_ms : ℕ) (rows : List LabelRow)
    → count_violations horizon_ms rows ≡ 0
    → All (IsWithinDay horizon_ms) rows
unfolding count_violations
none-violates horizon_ms [] e = tt
none-violates horizon_ms (row ∷ rows) e = elim (Bool-cases (violates horizon_ms row)) [
  | inl f ↦ absurd (ground (arith, e, f))
  | inr f ↦ (violates-false horizon_ms row f, none-violates horizon_ms rows (ground (arith, e, f)))
]

All-count_violations :
    (horizon_ms : ℕ) (rows : List LabelRow)
    → All (IsWithinDay horizon_ms) rows
    → count_violations horizon_ms rows ≡ 0
unfolding count_violations
All-count_violations horizon_ms [] w = refl
All-count_violations horizon_ms (row ∷ rows) w =
    rw (IsWithinDay-violates horizon_ms row w.0) (All-count_violations horizon_ms rows w.1)

-- No label of any row looks past its day.
abbrev pub AllWithinDay : List ℕ → List LabelRow → Type 0
AllWithinDay horizons rows = All (λ h. All (IsWithinDay h) rows) horizons

abbrev zero_of : ℕ → ℕ
zero_of h = 0

none_positive :
    (horizons : List ℕ) (rows : List LabelRow)
    → any_positive (map (λ h. count_violations h rows) horizons) ≡ false
    → AllWithinDay horizons rows
unfolding any_positive
none_positive [] rows e = tt
none_positive (h ∷ horizons) rows e =
    (none-violates h rows (ground (arith, e)), none_positive horizons rows (ground (arith, e)))

AllWithinDay-counts :
    (horizons : List ℕ) (rows : List LabelRow)
    → AllWithinDay horizons rows
    → map (λ h. count_violations h rows) horizons ≡ map zero_of horizons
AllWithinDay-counts [] rows w = refl
AllWithinDay-counts (h ∷ horizons) rows w =
    rw (All-count_violations h rows w.0, AllWithinDay-counts horizons rows w.1) refl

zeros-any_positive : (horizons : List ℕ) → any_positive (map zero_of horizons) ≡ false
unfolding any_positive
zeros-any_positive [] = refl
zeros-any_positive (h ∷ horizons) = zeros-any_positive horizons

-- The check passes, with a list of counts.
abbrev pub Passes : Fallible SplitError (List ℕ) → Type 0
Passes r = (counts : List ℕ) × (r ≡ ok counts)

zeros : (horizons : List ℕ) → All (λ n. n ≡ 0) (map zero_of horizons)
zeros [] = tt
zeros (h ∷ horizons) = (refl, zeros horizons)

passing :
    (horizons : List ℕ) (rows : List LabelRow)
    → AllWithinDay horizons rows
    → assert_split_embargo horizons rows ≡ ok (map zero_of horizons)
unfolding assert_split_embargo
passing horizons rows w = rw (AllWithinDay-counts horizons rows w, zeros-any_positive horizons) refl

passed :
    (horizons : List ℕ) (rows : List LabelRow)
    → (AllWithinDay horizons rows
        × (assert_split_embargo horizons rows ≡ ok (map zero_of horizons)))
      ⊎ (assert_split_embargo horizons rows ≡ err embargo_violated)
unfolding assert_split_embargo
passed horizons rows =
    elim (Bool-cases (any_positive (map (λ h. count_violations h rows) horizons))) [
      | inl f ↦ inr (rw f refl)
      | inr f ↦
          let within : AllWithinDay horizons rows = none_positive horizons rows f in
          inl (within, passing horizons rows within)
    ]

Passes-AllWithinDay :
    (horizons : List ℕ) (rows : List LabelRow)
    → Passes (assert_split_embargo horizons rows)
    → AllWithinDay horizons rows
Passes-AllWithinDay horizons rows (counts, e) = elim (passed horizons rows) [
  | inl (within, _) ↦ within
  | inr f ↦ absurd (ground (arith, e, f))
]

counts-zeros :
    (horizons : List ℕ) (rows : List LabelRow)
    → Checked (All (λ n. n ≡ 0)) (assert_split_embargo horizons rows)
counts-zeros horizons rows = elim (passed horizons rows) [
  | inl (_, e) ↦ rw e (zeros horizons)
  | inr f ↦ rw f tt
]

-- The check of the embargo passes just where each label that a row has at a horizon looks at a time
-- before the end of the day, counted from the epoch, in which the row lies; and where it passes, it
-- counts no violation at any horizon.
pub assert_split_embargo-IsWithinDay :
    (horizons : List ℕ) (rows : List LabelRow)
    → (AllWithinDay horizons rows ↔ Passes (assert_split_embargo horizons rows))
      × Checked (All (λ n. n ≡ 0)) (assert_split_embargo horizons rows)
assert_split_embargo-IsWithinDay horizons rows = (
  (λ w. (map zero_of horizons, passing horizons rows w), Passes-AllWithinDay horizons rows),
  counts-zeros horizons rows,
)
