-- ===== src/Historical/Discovery/Found.antt =====
-- What a search for a snapshot finds.
use crypto_microstructure_ma.Prelude.{
  ℕ, ◌+◌, ◌≤◌, ◌<◌, ◌≡◌, ◌⊎◌, Bool, true, Option, none, some, length,
}
use crypto_microstructure_ma.Historical.Message.{DepthMessage}
use crypto_microstructure_ma.Historical.Snapshot.{snapshot_is_usable}
use crypto_microstructure_ma.Historical.Discovery.{SnapshotSearch, hour_ns}

-- A snapshot inside the bounds that a replay can start from.
record IsCandidate (lower upper : ℕ) (m : DepthMessage) : Type 0 where
  usable : snapshot_is_usable m ≡ some true
  after : lower ≤ m.received_time_ns
  before : m.received_time_ns < upper

-- A snapshot received up to the start, or in the start's hour where that is allowed.
abbrev IsInTime : ℕ → Bool → DepthMessage → Type 0
IsInTime start_ns allow m =
    (m.received_time_ns ≤ start_ns)
    ⊎ ((allow ≡ true) × (start_ns ≤ m.received_time_ns) × (m.received_time_ns < start_ns + hour_ns))

abbrev IsSelected : ℕ → Bool → Option DepthMessage → Type 0
IsSelected start_ns allow none = Unit
IsSelected start_ns allow (some m) = (snapshot_is_usable m ≡ some true) × IsInTime start_ns allow m

-- The result of a search of some hours: a snapshot that is usable and in time, or every hour
-- checked.
abbrev IsOutcome : ℕ → Bool → ℕ → Option DepthMessage → ℕ → Type 0
IsOutcome start_ns allow hours none checked = checked ≡ hours
IsOutcome start_ns allow hours (some m) checked =
    (snapshot_is_usable m ≡ some true) × IsInTime start_ns allow m × (checked ≤ hours)

abbrev pub IsFound : ℕ → Bool → ℕ → SnapshotSearch → Type 0
IsFound start_ns allow hours s = IsOutcome start_ns allow hours s.snapshot (length s.checked)
