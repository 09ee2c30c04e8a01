-- ===== src/Historical/Continuity/Classes.antt =====
-- The classes that `audit_continuity` of pyresearch/historical/l2.py gives to the updates of a
-- stream, in the order in which they come.
use crypto_microstructure_ma.Prelude.{
  ℕ, ◌≡◌, refl, ◌⊎◌, inl, inr, Bool, true, false, Option, none, some, List, [], ◌∷◌, ◌++◌, All,
  Bool-cases, if◌then◌else◌,
}
use crypto_microstructure_ma.Historical.Message.{DepthMessage}
use crypto_microstructure_ma.Historical.Continuity.{
  Status, snapshot_invalid, snapshot_duplicate, snapshot_overlap_or_stale, snapshot_ahead_candidate,
  duplicate_stale_before_snapshot, snapshot_bridge, snapshot_bridge_gap, initial_delta_only,
  duplicate_stale, contiguous, pu_break,
}

abbrev pub is_of_update : Status → Bool
is_of_update snapshot_invalid = false
is_of_update snapshot_duplicate = false
is_of_update snapshot_overlap_or_stale = false
is_of_update snapshot_ahead_candidate = false
is_of_update _ = true

-- The classes of the updates among the records.
abbrev pub classes : List (DepthMessage × Status) → List Status
classes [] = []
classes ((m, status) ∷ rs) = if is_of_update status then status ∷ classes rs else classes rs

-- An update behind another one: contiguous, stale or a break.
abbrev pub IsChained : Status → Type 0
IsChained duplicate_stale = Unit
IsChained contiguous = Unit
IsChained pu_break = Unit
IsChained _ = ⊥

-- Updates older than the initial snapshot, then the bridge or the gap behind the snapshot, then
-- updates that are chained.
abbrev pub IsBridged : List Status → Type 0
IsBridged [] = ⊥
IsBridged (status ∷ ss) = elim status [
  | duplicate_stale_before_snapshot ↦ IsBridged ss
  | snapshot_bridge ↦ All IsChained ss
  | snapshot_bridge_gap ↦ All IsChained ss
  | _ ↦ ⊥
]

abbrev pub IsOlder : Status → Type 0
IsOlder status = status ≡ duplicate_stale_before_snapshot

-- The first update of a stream with no initial snapshot, then updates that are chained.
abbrev pub IsOpened : List Status → Type 0
IsOpened [] = ⊥
IsOpened (status ∷ ss) = (status ≡ initial_delta_only) × All IsChained ss

-- The order of the classes, by whether the initial snapshot has an id.
abbrev pub IsInOrder : Option ℕ → List Status → Type 0
IsInOrder none ss = (ss ≡ []) ⊎ IsOpened ss
IsInOrder (some id) ss = All IsOlder ss ⊎ IsBridged ss

-- The same with the variables of the loop: whether the bridge is awaited, and the last id.
abbrev pub Stage : Option ℕ → Bool → Option ℕ → List Status → Type 0
Stage none waits none ss = ss ≡ []
Stage none waits (some v) ss = IsOpened ss
Stage (some id) true previous ss = All IsOlder ss
Stage (some id) false none ss = ⊥
Stage (some id) false (some v) ss = IsBridged ss

pub Stage-IsInOrder :
    (i : Option ℕ) (waits : Bool) (previous : Option ℕ) (ss : List Status)
    → Stage i waits previous ss
    → IsInOrder i ss
Stage-IsInOrder none waits none ss h = inl h
Stage-IsInOrder none waits (some v) ss h = inr h
Stage-IsInOrder (some id) true previous ss h = inl h
Stage-IsInOrder (some id) false none ss h = elim h [ ]
Stage-IsInOrder (some id) false (some v) ss h = inr h

pub All-snoc :
    (P : Status → Type 0) (ss : List Status) (s : Status) → All P ss → P s → All P (ss ++ s ∷ [])
All-snoc P [] s h k = (k, tt)
All-snoc P (t ∷ ss) s h k = (h.0, All-snoc P ss s h.1 k)

pub IsOpened-snoc :
    (ss : List Status) (s : Status) → IsOpened ss → IsChained s → IsOpened (ss ++ s ∷ [])
IsOpened-snoc [] s h k = elim h [ ]
IsOpened-snoc (t ∷ ss) s h k = (h.0, All-snoc IsChained ss s h.1 k)

pub IsBridged-snoc :
    (ss : List Status) (s : Status) → IsBridged ss → IsChained s → IsBridged (ss ++ s ∷ [])
IsBridged-snoc [] s h k = elim h [ ]
IsBridged-snoc (duplicate_stale_before_snapshot ∷ ss) s h k = IsBridged-snoc ss s h k
IsBridged-snoc (snapshot_bridge ∷ ss) s h k = All-snoc IsChained ss s h k
IsBridged-snoc (snapshot_bridge_gap ∷ ss) s h k = All-snoc IsChained ss s h k
IsBridged-snoc (snapshot_invalid ∷ ss) s h k = elim h [ ]
IsBridged-snoc (snapshot_duplicate ∷ ss) s h k = elim h [ ]
IsBridged-snoc (snapshot_overlap_or_stale ∷ ss) s h k = elim h [ ]
IsBridged-snoc (snapshot_ahead_candidate ∷ ss) s h k = elim h [ ]
IsBridged-snoc (initial_delta_only ∷ ss) s h k = elim h [ ]
IsBridged-snoc (duplicate_stale ∷ ss) s h k = elim h [ ]
IsBridged-snoc (contiguous ∷ ss) s h k = elim h [ ]
IsBridged-snoc (pu_break ∷ ss) s h k = elim h [ ]

-- What ends the updates that are older than the snapshot.
pub older-IsBridged :
    (ss : List Status) (s : Status) → All IsOlder ss → IsBridged (s ∷ []) → IsBridged (ss ++ s ∷ [])
older-IsBridged [] s h k = k
older-IsBridged (t ∷ ss) s h k = rw h.0 (older-IsBridged ss s h.1 k)

pub classes-snoc_update :
    (rs : List (DepthMessage × Status)) (m : DepthMessage) (s : Status)
    → is_of_update s ≡ true
    → classes (rs ++ (m, s) ∷ []) ≡ classes rs ++ s ∷ []
classes-snoc_update [] m s e = rw e refl
classes-snoc_update ((n, t) ∷ rs) m s e = elim (Bool-cases (is_of_update t)) [
  | inl f ↦ rw (f, classes-snoc_update rs m s e) refl
  | inr f ↦ rw f (classes-snoc_update rs m s e)
]

pub classes-snoc_snapshot :
    (rs : List (DepthMessage × Status)) (m : DepthMessage) (s : Status)
    → is_of_update s ≡ false
    → classes (rs ++ (m, s) ∷ []) ≡ classes rs
classes-snoc_snapshot [] m s e = rw e refl
classes-snoc_snapshot ((n, t) ∷ rs) m s e = elim (Bool-cases (is_of_update t)) [
  | inl f ↦ rw (f, classes-snoc_snapshot rs m s e) refl
  | inr f ↦ rw f (classes-snoc_snapshot rs m s e)
]
