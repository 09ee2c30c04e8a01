-- ===== src/StateExit.antt =====
-- The exits of pyresearch/obi/state_exit_search.py: the first row at which a condition holds, and
-- the target of an exit. Feature values are scaled integers; one that is not finite is `none`.
use crypto_microstructure_ma.Prelude.{
  ℕ, zero, suc, ◌+◌, min, Bool, true, false, ◌&&◌, not, Option, none, some, List, [], ◌∷◌, map, leb,
  ltb, ◌==◌, if◌then◌else◌, length, get_elem?,
}
use crypto_microstructure_ma.Prelude.Int.{ℤ, pos, negsuc, sub_ℕ, ◌-ℤ◌, ltb_ℤ, leb_ℤ}
use crypto_microstructure_ma.Prelude.Results.{Fallible, ok, err, ◌>>=◌}
pub mod First
mod Tests

pub data ExitError : Type 0 where
  length_mismatch unknown_direction unknown_condition : ExitError

abbrev pub is_finite : Option ℕ → Bool
is_finite none = false
is_finite (some g) = true

-- `np.flatnonzero(condition & np.isfinite(segments))`, from a row on.
unfoldable pub hits_from : ℕ → List Bool → List (Option ℕ) → List ℕ
hits_from i [] gs = []
hits_from i (c ∷ cs) [] = []
hits_from i (c ∷ cs) (g ∷ gs) =
    let rest = hits_from (i + 1) cs gs in if c && is_finite g then i ∷ rest else rest

-- `hits[np.searchsorted(hits, start)]`, where it is available.
unfoldable pub first_hit : ℕ → List ℕ → Option ℕ
first_hit start [] = none
first_hit start (h ∷ hs) = if leb start h then some h else first_hit start hs

abbrev equal_finite : Option (Option ℕ) → Option (Option ℕ) → Bool
equal_finite (some (some a)) (some (some b)) = a == b
equal_finite _ _ = false

-- Whether two rows lie in one segment.
unfoldable pub same_segment_at : List (Option ℕ) → ℕ → ℕ → Bool
same_segment_at gs i j = equal_finite (get_elem? gs i) (get_elem? gs j)

unfoldable pub target_of : List Bool → List (Option ℕ) → ℕ → Option ℕ → ℕ
target_of cs gs start none = length cs
target_of cs gs start (some h) = if same_segment_at gs start h then h else length cs

-- A start is valid if it is a row.
unfoldable pub first_true : List Bool → List (Option ℕ) → ℤ → ℕ
first_true cs gs (negsuc n) = length cs
first_true cs gs (pos start) =
    if ltb start (length cs)
    then target_of cs gs start (first_hit start (hits_from 0 cs gs))
    else length cs

unfoldable pub first_true_for_starts :
    List Bool → List (Option ℕ) → List ℤ → Fallible ExitError (List ℕ)
first_true_for_starts cs gs starts =
    if length cs == length gs then ok (map (first_true cs gs) starts) else err length_mismatch

pub data Direction : Type 0 where
  maker_contrarian maker_trend other_direction : Direction

pub data Condition : Type 0 where
  entry_tail_exit entry_sign_exit entry_opposite_tail other_condition : Condition

abbrev negated : Option ℤ → Option ℤ
negated none = none
negated (some v) = some (pos 0 -ℤ v)

-- The values as they look from a bid entry, and from an ask entry.
unfoldable pub oriented :
    Direction → List (Option ℤ) → Fallible ExitError (List (Option ℤ) × List (Option ℤ))
oriented maker_contrarian vs = ok (map negated vs, vs)
oriented maker_trend vs = ok (vs, map negated vs)
oriented other_direction vs = err unknown_direction

abbrev finite_and : (ℤ → Bool) → Option ℤ → Bool
finite_and test none = false
finite_and test (some v) = test v

unfoldable pub condition_of : Condition → ℕ → List (Option ℤ) → Fallible ExitError (List Bool)
condition_of entry_tail_exit threshold vs = ok (map (finite_and (λ v. ltb_ℤ v (pos threshold))) vs)
condition_of entry_sign_exit threshold vs = ok (map (finite_and (λ v. leb_ℤ v (pos 0))) vs)
condition_of entry_opposite_tail threshold vs =
    ok (map (finite_and (λ v. leb_ℤ v (sub_ℕ 0 threshold))) vs)
condition_of other_condition threshold vs = err unknown_condition

-- An entry's trigger by its side, and no later than its cap. The arrays have one length.
unfoldable pub cap_triggers : List Bool → List ℕ → List ℕ → List ℕ → List ℕ
cap_triggers (b ∷ bs) (x ∷ xs) (y ∷ ys) (c ∷ cs) =
    min (if b then x else y) c ∷ cap_triggers bs xs ys cs
cap_triggers _ _ _ _ = []

unfoldable pub state_exit_targets :
    List (Option ℤ)
    → List (Option ℕ)
    → List Bool
    → List ℤ
    → List ℕ
    → ℕ
    → Direction
    → Condition
    → Fallible ExitError (List ℕ)
state_exit_targets values gs is_bid starts caps threshold direction condition =
    oriented direction values >>= (λ o. condition_of condition threshold o.0 >>= (λ bid_condition.
      first_true_for_starts bid_condition gs starts >>= (λ bids.
        condition_of condition threshold o.1 >>= (λ ask_condition.
          first_true_for_starts ask_condition gs starts
          >>= (λ asks. ok (cap_triggers is_bid bids asks caps))))))
