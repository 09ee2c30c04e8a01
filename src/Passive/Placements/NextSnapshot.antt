-- ===== src/Passive/Placements/NextSnapshot.antt =====
-- The next snapshot of a placement is the first after it, so that the replay of a probe that is
-- placed there contains none.
use crypto_microstructure_ma.Prelude.{
  ℕ, ◌+◌, ◌≤◌, ◌<◌, ◌≡◌, ◌⊎◌, refl, subst, inl, inr, true, false, some, List, [], ◌∷◌, map, arith,
  Bool-cases, All, leb, ◌==◌, length,
}
use crypto_microstructure_ma.Prelude.Results.{Checked}
use crypto_microstructure_ma.Prelude.Search.{search_right, IsAscending}
use crypto_microstructure_ma.Passive.Replay.{replay_end}
use crypto_microstructure_ma.Passive.Placements.{
  SampleRow, Placement, placement_local_of, is_on_grid, any_leakage, regresses, next_snapshot,
  placement_of, build_placements,
}

-- The first snapshot after a time, or zero if there is none.
abbrev IsNext : ℕ → List ℕ → ℕ → Type 0
IsNext time snapshots r =
    ((r ≡ 0) × All (λ s. s ≤ time) snapshots)
    ⊎ ((time < r) × All (λ s. (s ≤ time) ⊎ (r ≤ s)) snapshots)

All-weaken : (P Q : ℕ → Type 0) (xs : List ℕ) → ((x : ℕ) → P x → Q x) → All P xs → All Q xs
All-weaken P Q [] f h = tt
All-weaken P Q (x ∷ xs) f (p, h) = (f x p, All-weaken P Q xs f h)

earlier-IsNext : (time s r : ℕ) (ss : List ℕ) → s ≤ time → IsNext time ss r → IsNext time (s ∷ ss) r
earlier-IsNext time s r ss l (inl (e, h)) = inl (e, (l, h))
earlier-IsNext time s r ss l (inr (m, h)) = inr (m, (inl l, h))

next_snapshot_passed :
    (time s : ℕ) (ss : List ℕ)
    → leb s time ≡ true
    → next_snapshot ss time ≡ next_snapshot (s ∷ ss) time
unfolding next_snapshot search_right
next_snapshot_passed time s ss e = rw e refl

next_snapshot_found :
    (time s : ℕ) (ss : List ℕ) → leb s time ≡ false → s ≡ next_snapshot (s ∷ ss) time
unfolding next_snapshot search_right
next_snapshot_found time s ss e = rw e refl

next_snapshot_none : (time : ℕ) → 0 ≡ next_snapshot [] time
unfolding next_snapshot search_right
next_snapshot_none time = refl

next_snapshot-IsNext :
    (time : ℕ) (snapshots : List ℕ)
    → IsAscending (λ s. s) snapshots
    → IsNext time snapshots (next_snapshot snapshots time)
next_snapshot-IsNext time [] h = subst (IsNext time []) (next_snapshot_none time) (inl (refl, tt))
next_snapshot-IsNext time (s ∷ ss) (l, h) = elim (Bool-cases (leb s time)) [
  | inl e ↦
      subst (IsNext time (s ∷ ss)) (next_snapshot_passed time s ss e)
        (earlier-IsNext time s _ ss (ground (arith, e)) (next_snapshot-IsNext time ss h))
  | inr e ↦ subst (IsNext time (s ∷ ss)) (next_snapshot_found time s ss e) (
      inr (
        ground (arith, e),
        (
          inr (omega arith),
          All-weaken (λ x. s ≤ x) (λ x. (x ≤ time) ⊎ (s ≤ x)) ss (λ x k. inr k) l,
        ),
      ))
]

-- No snapshot lies strictly between the placement and the end of its replay.
abbrev pub NoneInside : ℕ → ℕ → List ℕ → Type 0
NoneInside start end snapshots = All (λ s. (s ≤ start) ⊎ (end ≤ s)) snapshots

replay_end-none :
    (start expiry r : ℕ) (snapshots : List ℕ)
    → IsNext start snapshots r
    → NoneInside start (replay_end start expiry (some r)) snapshots
unfolding replay_end
replay_end-none start expiry r snapshots (inl (e, h)) =
    All-weaken (λ s. s ≤ start) _ snapshots (λ s k. inl k) h
replay_end-none start expiry r snapshots (inr (l, h)) =
    All-weaken (λ s. (s ≤ start) ⊎ (r ≤ s)) _ snapshots
      (λ s k. elim k [ inl a ↦ inl a | inr b ↦ inr (ground (arith, l, b)) ]) h

-- For snapshots in order, a replay of a probe that is placed when a placement says, and ends no
-- later than the next snapshot that the placement gives, has no snapshot of the book inside it.
pub placement_of-NoneInside :
    (snapshots : List ℕ) (row : SampleRow) (expiry : ℕ)
    → IsAscending (λ s. s) snapshots
    → let p = placement_of snapshots row in
      NoneInside p.placement_local
        (replay_end p.placement_local expiry (some p.next_snapshot_local))
        snapshots
unfolding placement_of
placement_of-NoneInside snapshots row expiry h =
    replay_end-none (placement_local_of row) expiry _ snapshots
      (next_snapshot-IsNext (placement_local_of row) snapshots h)

-- In order of their placement, each no earlier than its decision, which comes a tenth of a second
-- after the one before.
abbrev pub AreOrdered : List Placement → Type 0
AreOrdered [] = Unit
AreOrdered (p ∷ []) = p.decision_time ≤ p.placement_local
AreOrdered (p ∷ q ∷ ps) =
    (p.decision_time ≤ p.placement_local)
    × (p.placement_local ≤ q.placement_local)
    × (q.decision_time ≡ p.decision_time + 100000)
    × AreOrdered (q ∷ ps)

rows-AreOrdered :
    (snapshots : List ℕ) (rows : List SampleRow)
    → is_on_grid rows ≡ true
    → regresses rows ≡ false
    → AreOrdered (map (placement_of snapshots) rows)
unfolding is_on_grid regresses placement_of placement_local_of
rows-AreOrdered snapshots [] e f = tt
rows-AreOrdered snapshots (a ∷ []) e f = omega arith
rows-AreOrdered snapshots (a ∷ b ∷ rows) e f = (
  omega arith,
  ground (arith, f),
  ground (arith, e),
  rows-AreOrdered snapshots (b ∷ rows) (ground (arith, e)) (ground (arith, f)),
)

-- If the placements are built, they are in order, each is no earlier than its decision, and the
-- decisions are a tenth of a second apart.
pub build_placements-AreOrdered :
    (day_rows : ℕ) (snapshots : List ℕ) (rows : List SampleRow)
    → Checked AreOrdered (build_placements day_rows snapshots rows)
unfolding build_placements
build_placements-AreOrdered day_rows snapshots rows = elim (Bool-cases (length rows == day_rows)) [
  | inr a ↦ rw a tt
  | inl a ↦ elim (Bool-cases (is_on_grid rows)) [
    | inr b ↦ rw (a, b) tt
    | inl b ↦ elim (Bool-cases (any_leakage rows)) [
      | inl c ↦ rw (a, b, c) tt
      | inr c ↦ elim (Bool-cases (regresses rows)) [
        | inl d ↦ rw (a, b, c, d) tt
        | inr d ↦ rw (a, b, c, d) (rows-AreOrdered snapshots rows b d)
      ]
    ]
  ]
]
