-- ===== src/Passive/Labels/Causality.antt =====
-- A mark is taken after its fill: at the first sample from the fill on and at a later one of its
-- segment.
use crypto_microstructure_ma.Prelude.Arrays.{equal_finite, flag_at, value_at}
use crypto_microstructure_ma.Prelude.{
  ℕ, ◌+◌, ◌-◌, ◌*◌, ◌/◌, ◌≤◌, ◌<◌, ◌≡◌, refl, true, false, Option, none, some, List, [], ◌∷◌, map,
  arith, inl, inr, Bool-cases, leb, length, subst, if◌then◌else◌,
}
use crypto_microstructure_ma.Prelude.Int.{ℤ, pos, negsuc, sub_ℕ, floor_div}
use crypto_microstructure_ma.Passive.Replay.{QuoteSide}
use crypto_microstructure_ma.Passive.Labels.{
  Floats, Samples, FilledOrder, Markout, fill_grid, fill_row, mark, label_valid, markout_at,
  labels_at, fill_time, labels_from, label_order, row_of,
}

abbrev sample_time : Samples → ℕ → ℕ
sample_time g row = g.day_start + row * 100000

-- The first sample from a time on.
abbrev pub IsFirstSample : Samples → ℕ → ℕ → Type 0
IsFirstSample g time row =
    (time ≤ sample_time g row) × (sample_time g row < time + 100000) × (row < length g.mids)

row_of-some : (rows : ℕ) (z : ℤ) (row : ℕ) → row_of rows z ≡ some row → (z ≡ pos row) × (row < rows)
row_of-some rows (pos i) row e = ground (arith, e)
row_of-some rows (negsuc n) row e = ground (arith, e)

floor_div-pos :
    (a b row : ℕ) → floor_div (sub_ℕ a b) 100000 ≡ pos row → (b ≤ a) × ((a - b) / 100000 ≡ row)
floor_div-pos a b row e = elim (Bool-cases (leb b a)) [
  | inl f ↦
      let same : floor_div (if true then pos (a - b) else negsuc (b - a - 1)) 100000 ≡ pos row =
        subst (λ t. floor_div (if t then pos (a - b) else negsuc (b - a - 1)) 100000 ≡ pos row) f
          e in
      (ground (arith, f), ground (arith, same))
  | inr f ↦
      let same : floor_div (if false then pos (a - b) else negsuc (b - a - 1)) 100000 ≡ pos row =
        subst (λ t. floor_div (if t then pos (a - b) else negsuc (b - a - 1)) 100000 ≡ pos row) f
          e in
      absurd (ground (arith, same))
]

-- The first multiple from a time on.
round_up :
    (time day row : ℕ)
    → day * 100000 ≤ (time + 99999) / 100000 * 100000
    → ((time + 99999) / 100000 * 100000 - day * 100000) / 100000 ≡ row
    → (time ≤ day * 100000 + row * 100000) × (day * 100000 + row * 100000 < time + 100000)
round_up time day row l e = (omega (arith, l, e), omega (arith, l, e))

fill_row-IsFirstSample :
    (g : Samples) (time row day : ℕ)
    → g.day_start ≡ day * 100000
    → fill_row g time ≡ some row
    → IsFirstSample g time row
unfolding fill_row fill_grid
fill_row-IsFirstSample g time row day d e =
    let (z, l) = row_of-some (length g.mids) _ row e in
    let (m, f) = floor_div-pos (fill_grid time) g.day_start row z in
    let (a, b) =
      round_up time day row (omega (arith, m, d))
        (subst (λ x. (fill_grid time - x) / 100000 ≡ row) d f) in
    (omega (arith, a, d), omega (arith, b, d), l)

-- What makes a mark at a horizon one that the fill's time allows: it goes from the first sample
-- from the fill on, which is a valid row, to a valid row of its segment that is the horizon later.
pub record IsCausal (floats : Floats) (g : Samples) (side : QuoteSide) (quote : Option ℕ)
    (time horizon_ms : ℕ) (m : Markout) : Type 0 where
  pub row : ℕ
  pub is_first : IsFirstSample g time row
  pub within_day : row + horizon_ms / 100 < length g.mids
  pub fill_row_valid : flag_at g.valid row ≡ true
  pub later_row_valid : flag_at g.valid (row + horizon_ms / 100) ≡ true
  pub same_segment :
      equal_finite (value_at g.segments (row + horizon_ms / 100)) (value_at g.segments row) ≡ true
  pub maker_mark : m.maker ≡ mark floats side (value_at g.mids (row + horizon_ms / 100)) quote
  pub move :
      m.post_move
      ≡ mark floats side (value_at g.mids (row + horizon_ms / 100)) (value_at g.mids row)

markout_at-IsCausal :
    (floats : Floats) (g : Samples) (side : QuoteSide) (quote : Option ℕ) (time row horizon_ms : ℕ)
    → IsFirstSample g time row
    → let m = markout_at floats g side quote (flag_at g.valid row) row horizon_ms in
      m.is_valid ≡ true → IsCausal floats g side quote time horizon_ms m
unfolding markout_at label_valid
markout_at-IsCausal floats g side quote time row horizon_ms first e =
    let target = row + horizon_ms / 100 in
    record {
      row = row;
      is_first = first;
      within_day = ground (arith, e);
      fill_row_valid = ground (arith, e);
      later_row_valid = ground (arith, e);
      same_segment = ground (arith, e);
      maker_mark = rw e refl;
      move = rw e refl;
    }

-- A property of each horizon with its mark.
abbrev pub EachMark : (ℕ → Markout → Type 0) → List ℕ → List Markout → Type 0
EachMark P [] [] = Unit
EachMark P (h ∷ hs) (m ∷ ms) = P h m × EachMark P hs ms
EachMark P [] (m ∷ ms) = ⊥
EachMark P (h ∷ hs) [] = ⊥

abbrev pub ValidIsCausal : Floats → Samples → QuoteSide → Option ℕ → ℕ → ℕ → Markout → Type 0
ValidIsCausal floats g side quote time horizon_ms m =
    m.is_valid ≡ true → IsCausal floats g side quote time horizon_ms m

map-EachMark :
    (P : ℕ → Markout → Type 0) (f : ℕ → Markout) (hs : List ℕ)
    → ((h : ℕ) → P h (f h))
    → EachMark P hs (map f hs)
map-EachMark P f [] k = tt
map-EachMark P f (h ∷ hs) k = (k h, map-EachMark P f hs k)

labels_at-EachMark :
    (floats : Floats) (g : Samples) (horizons : List ℕ) (side : QuoteSide) (quote : Option ℕ)
    (time day : ℕ) (row : Option ℕ)
    → g.day_start ≡ day * 100000
    → fill_row g time ≡ row
    → EachMark
        (ValidIsCausal floats g side quote time)
        horizons
        (labels_at floats g horizons side quote time row).markouts
unfolding labels_at
labels_at-EachMark floats g horizons side quote time day none d e =
    map-EachMark _ _ horizons (λ h q. absurd (ground (arith, q)))
labels_at-EachMark floats g horizons side quote time day (some row) d e =
    map-EachMark _ _ horizons (λ h.
      markout_at-IsCausal floats g side quote time row h
        (fill_row-IsFirstSample g time row day d e))

-- Where the samples start at a whole tenth of a second, each valid mark of an order with a fill
-- goes from the first sample from the fill on, which is a valid row, to a valid row of its segment
-- that is the horizon later: no mark looks at a price before the fill or past the day.
pub label_order-EachMark :
    (floats : Floats) (g : Samples) (horizons : List ℕ) (order : FilledOrder) (time day : ℕ)
    → g.day_start ≡ day * 100000
    → fill_time order ≡ some time
    → EachMark
        (ValidIsCausal floats g order.side order.quote_price time)
        horizons
        (label_order floats g horizons order).markouts
unfolding label_order labels_from
label_order-EachMark floats g horizons order time day d e = rw e (
    labels_at-EachMark floats g horizons order.side order.quote_price time day (fill_row g time) d
      refl)
