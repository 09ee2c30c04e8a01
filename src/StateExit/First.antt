-- ===== src/StateExit/First.antt =====
-- The row that the search finds is the first hit from the start on, if it is in its segment.
use crypto_microstructure_ma.Prelude.{
  ℕ, zero, suc, ◌+◌, ◌≤◌, ◌<◌, ◌≡◌, ◌⊎◌, refl, subst, Bool, true, false, ◌&&◌, inl, inr, Option,
  none, some, List, [], ◌∷◌, arith, Bool-cases, ltb, leb, length,
}
use crypto_microstructure_ma.Prelude.Int.{pos}
use crypto_microstructure_ma.StateExit.{
  is_finite, hits_from, first_hit, same_segment_at, target_of, first_true,
}

-- Whether the condition holds on a row with a segment.
abbrev pub hit_at : List Bool → List (Option ℕ) → ℕ → Bool
hit_at [] gs j = false
hit_at (c ∷ cs) [] j = false
hit_at (c ∷ cs) (g ∷ gs) zero = c && is_finite g
hit_at (c ∷ cs) (g ∷ gs) (suc j) = hit_at cs gs j

-- No hit from the start on and before a row, for rows that are counted from `i`.
abbrev NoHit : ℕ → ℕ → List Bool → List (Option ℕ) → ℕ → Type 0
NoHit start i cs gs j = (k : ℕ) → start ≤ i + k → k < j → hit_at cs gs k ≡ false

abbrev IsFirstHit : ℕ → ℕ → List Bool → List (Option ℕ) → Option ℕ → Type 0
IsFirstHit start i cs gs none = (k : ℕ) → start ≤ i + k → hit_at cs gs k ≡ false
IsFirstHit start i cs gs (some h) =
    (j : ℕ) × (h ≡ i + j) × (hit_at cs gs j ≡ true) × (start ≤ h) × NoHit start i cs gs j

later-IsFirstHit :
    (start i : ℕ) (c : Bool) (g : Option ℕ) (cs : List Bool) (gs : List (Option ℕ)) (o : Option ℕ)
    → (start ≤ i → (c && is_finite g) ≡ false)
    → IsFirstHit start (i + 1) cs gs o
    → IsFirstHit start i (c ∷ cs) (g ∷ gs) o
later-IsFirstHit start i c g cs gs none f h = go
  where
    go : (k : ℕ) → start ≤ i + k → hit_at (c ∷ cs) (g ∷ gs) k ≡ false
    go zero l = f (omega arith)
    go (suc k) l = h k (omega arith)
later-IsFirstHit start i c g cs gs (some x) f (j, e, t, l, n) = (suc j, omega (arith, e), t, l, go)
  where
    go : (k : ℕ) → start ≤ i + k → k < suc j → hit_at (c ∷ cs) (g ∷ gs) k ≡ false
    go zero a b = f (omega arith)
    go (suc k) a b = n k (omega arith) (omega arith)

first_hit-IsFirstHit :
    (start i : ℕ) (cs : List Bool) (gs : List (Option ℕ))
    → IsFirstHit start i cs gs (first_hit start (hits_from i cs gs))
unfolding first_hit hits_from
first_hit-IsFirstHit start i [] gs = λ k l. refl
first_hit-IsFirstHit start i (c ∷ cs) [] = λ k l. refl
first_hit-IsFirstHit start i (c ∷ cs) (g ∷ gs) =
    let rest = first_hit-IsFirstHit start (i + 1) cs gs in
    elim (Bool-cases (c && is_finite g)) [
      | inr e ↦ rw e (later-IsFirstHit start i c g cs gs _ (λ l. e) rest)
      | inl e ↦ elim (Bool-cases (leb start i)) [
        | inl q ↦
            rw (e, q) (zero, omega arith, e, ground (arith, q), λ k a b. absurd (omega (arith, b)))
        | inr q ↦
            rw (e, q)
              (later-IsFirstHit start i c g cs gs _ (λ l. absurd (ground (arith, q, l))) rest)
      ]
    ]

-- Where a search ends: at the first hit from the start on, if that is in the start's segment; and
-- else at the number of rows, where no first hit is in the segment.
abbrev pub IsTarget : List Bool → List (Option ℕ) → ℕ → ℕ → Type 0
IsTarget cs gs start r =
    ((start ≤ r)
      × (hit_at cs gs r ≡ true)
      × (same_segment_at gs start r ≡ true)
      × NoHit start 0 cs gs r)
    ⊎ ((r ≡ length cs)
        × ((j : ℕ)
            → start ≤ j
            → hit_at cs gs j ≡ true
            → NoHit start 0 cs gs j
            → same_segment_at gs start j ≡ false))

-- Two first hits are one.
first_unique :
    (start i j : ℕ) (cs : List Bool) (gs : List (Option ℕ))
    → start ≤ i
    → start ≤ j
    → hit_at cs gs i ≡ true
    → hit_at cs gs j ≡ true
    → NoHit start 0 cs gs i
    → NoHit start 0 cs gs j
    → i ≡ j
first_unique start i j cs gs a b s t n m = elim (Bool-cases (ltb i j)) [
  | inl e ↦ let no : hit_at cs gs i ≡ false = m i (omega (arith, a)) (ground (arith, e)) in cc
  | inr e ↦ elim (Bool-cases (ltb j i)) [
    | inl f ↦ let no : hit_at cs gs j ≡ false = n j (omega (arith, b)) (ground (arith, f)) in cc
    | inr f ↦ ground (arith, e, f)
  ]
]

target_of-IsTarget :
    (start : ℕ) (cs : List Bool) (gs : List (Option ℕ)) (o : Option ℕ)
    → IsFirstHit start 0 cs gs o
    → IsTarget cs gs start (target_of cs gs start o)
unfolding target_of
target_of-IsTarget start cs gs none h =
    inr (refl, λ j a t n. let no : hit_at cs gs j ≡ false = h j (omega (arith, a)) in cc)
target_of-IsTarget start cs gs (some x) (i, e, t, a, n) =
    let same : x ≡ i = omega (arith, e) in
    let hit : hit_at cs gs x ≡ true = rw same t in
    let none_before : NoHit start 0 cs gs x = rw same n in
    elim (Bool-cases (same_segment_at gs start x)) [
      | inl q ↦ rw q (inl (a, hit, q, none_before))
      | inr q ↦ rw q (
          inr (
            refl,
            λ j b u m.
                let one = first_unique start x j cs gs a b hit u none_before m in
                subst (λ k. same_segment_at gs start k ≡ false) one q,
          ))
    ]

-- From a start that is a row the search ends at the first row from there on at which the condition
-- holds and that has a segment, if its segment is the start's; it ends at the number of rows if
-- there is no such first row or its segment is another.
pub first_true-IsTarget :
    (cs : List Bool) (gs : List (Option ℕ)) (start : ℕ)
    → start < length cs
    → IsTarget cs gs start (first_true cs gs (pos start))
unfolding first_true
first_true-IsTarget cs gs start l =
    let inside : ltb start (length cs) ≡ true = ground (arith, l) in
    rw inside (
      target_of-IsTarget start cs gs (first_hit start (hits_from 0 cs gs))
        (first_hit-IsFirstHit start 0 cs gs))
