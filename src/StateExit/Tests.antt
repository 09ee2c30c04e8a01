-- ===== src/StateExit/Tests.antt =====
-- Tests of the search for an exit: the condition holds on the first and on the last two rows, and
-- the last row is in another segment.
use crypto_microstructure_ma.Prelude.{
  ◌≡◌, refl, ℕ, Bool, true, false, Option, some, List, [], ◌∷◌, arith,
}
use crypto_microstructure_ma.Prelude.Int.{pos, negsuc, ◌-ℤ◌}
use crypto_microstructure_ma.Prelude.Results.{ok}
use crypto_microstructure_ma.StateExit.{
  hits_from, first_hit, same_segment_at, target_of, first_true, first_true_for_starts,
  maker_contrarian, entry_tail_exit, oriented, condition_of, cap_triggers, state_exit_targets,
}
use crypto_microstructure_ma.StateExit.First.{IsTarget, first_true-IsTarget}

abbrev conditions : List Bool
conditions = true ∷ false ∷ false ∷ true ∷ true ∷ []

abbrev segments : List (Option ℕ)
segments = some 1 ∷ some 1 ∷ some 1 ∷ some 1 ∷ some 2 ∷ []

first_true-IsTarget_example : IsTarget conditions segments 1 3
unfolding hits_from first_hit same_segment_at target_of first_true
first_true-IsTarget_example = first_true-IsTarget conditions segments 1 (omega arith)

-- A bid entry at the first row leaves where the negated value falls under the threshold, and an
-- ask entry at its cap.
small_targets :
    state_exit_targets
      (some (negsuc 7) ∷ some (negsuc 7) ∷ some (pos 9) ∷ [])
      (some 1 ∷ some 1 ∷ some 1 ∷ [])
      (true ∷ false ∷ [])
      (pos 0 ∷ pos 2 ∷ [])
      (5 ∷ 1 ∷ [])
      4
      maker_contrarian
      entry_tail_exit
    ≡ ok (2 ∷ 1 ∷ [])
unfolding hits_from first_hit same_segment_at target_of first_true first_true_for_starts oriented
    condition_of cap_triggers state_exit_targets ◌-ℤ◌
small_targets = refl
