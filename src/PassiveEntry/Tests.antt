-- ===== src/PassiveEntry/Tests.antt =====
-- Five rows of which the last is of another segment and the fourth is not safe.
use crypto_microstructure_ma.Prelude.{
  ℕ, ◌≡◌, refl, Bool, true, false, Option, some, List, [], ◌∷◌, arith,
}
use crypto_microstructure_ma.Prelude.Int.{negsuc, ◌-ℤ◌}
use crypto_microstructure_ma.Prelude.Results.{ok}
use crypto_microstructure_ma.StateExit.{first_hit}
use crypto_microstructure_ma.PassiveEntry.{
  bad_from, flatnonzero, next_unsafe, next_unsafe_indices, maker_contrarian, cancel_on_tail_exit,
  oriented, mode_test, side_safety,
}
use crypto_microstructure_ma.PassiveEntry.NextUnsafe.{IsNextUnsafe, next_unsafe-IsNextUnsafe}

abbrev small_safety : List Bool
small_safety = true ∷ true ∷ true ∷ false ∷ true ∷ []

abbrev small_segments : List (Option ℕ)
small_segments = some 1 ∷ some 1 ∷ some 1 ∷ some 1 ∷ some 2 ∷ []

next_unsafe-IsNextUnsafe_example : IsNextUnsafe small_safety small_segments 0 3
unfolding first_hit bad_from flatnonzero next_unsafe
next_unsafe-IsNextUnsafe_example =
    next_unsafe-IsNextUnsafe small_safety small_segments 0 refl (omega arith)

small_indices : next_unsafe_indices small_safety small_segments ≡ ok (3 ∷ 3 ∷ 3 ∷ 4 ∷ 5 ∷ [])
unfolding first_hit bad_from flatnonzero next_unsafe next_unsafe_indices
small_indices = refl

-- A contrarian bid is safe while the signal is far enough below zero.
small_side : side_safety 5 maker_contrarian cancel_on_tail_exit true (some (negsuc 6)) ≡ ok true
unfolding oriented mode_test side_safety ◌-ℤ◌
small_side = refl
