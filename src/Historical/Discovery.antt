-- ===== src/Historical/Discovery.antt =====
-- `discover_snapshot` of pyresearch/historical/l2.py: the hours are searched backwards from the
-- start for a snapshot that a replay can begin with. What the cache holds for an hour is a
-- parameter, by the number of hours that it lies back.
use crypto_microstructure_ma.Prelude.{
  ℕ, zero, suc, ◌+◌, ◌-◌, Bool, true, false, ◌&&◌, Option, none, some, List, [], ◌∷◌, ◌++◌, ltb,
  leb, ◌==◌, if◌then◌else◌,
}
use crypto_microstructure_ma.Prelude.Int.{ℤ}
use crypto_microstructure_ma.Prelude.Results.{Fallible, ok, err, ◌>>=◌}
use crypto_microstructure_ma.Historical.Message.{EventType, DepthMessage, ordering_key, key_leb}
use crypto_microstructure_ma.Historical.Snapshot.{snapshot_is_usable}
pub mod Found

-- The messages of an hour's file in order, and its count of snapshot rows.
pub record CachedHour : Type 0 where
  pub snapshot_rows : ℕ
  pub messages : List DepthMessage

pub data DiscoveryError : Type 0 where
  invalid_decimal : DiscoveryError

-- The snapshot, and the count of each hour that was checked.
pub record SnapshotSearch : Type 0 where
  pub snapshot : Option DepthMessage
  pub checked : List (ℕ × ℕ)

abbrev pub is_snapshot : EventType → Bool
is_snapshot EventType.snapshot = true
is_snapshot _ = false

abbrev pub is_within : ℕ → ℕ → DepthMessage → Bool
is_within lower upper m =
    is_snapshot m.event_type && leb lower m.received_time_ns && ltb m.received_time_ns upper

unfoldable pub keep_usable :
    Option Bool → DepthMessage → List DepthMessage → Fallible DiscoveryError (List DepthMessage)
keep_usable none m ms = err invalid_decimal
keep_usable (some true) m ms = ok (m ∷ ms)
keep_usable (some false) m ms = ok ms

-- A message in front of the candidates behind it.
unfoldable pub keep_candidate :
    ℕ → ℕ → DepthMessage → List DepthMessage → Fallible DiscoveryError (List DepthMessage)
keep_candidate lower upper m ms =
    if is_within lower upper m then keep_usable (snapshot_is_usable m) m ms else ok ms

unfoldable pub candidates : ℕ → ℕ → List DepthMessage → Fallible DiscoveryError (List DepthMessage)
candidates lower upper [] = ok []
candidates lower upper (m ∷ ms) = candidates lower upper ms >>= keep_candidate lower upper m

-- `min(candidates, key=ordering_key)`: the first of the least.
unfoldable pub least_message : DepthMessage → List DepthMessage → DepthMessage
least_message m [] = m
least_message m (n ∷ ns) =
    least_message (if key_leb (ordering_key m) (ordering_key n) then m else n) ns

-- `max(candidates, key=ordering_key)`: the first of the greatest.
unfoldable pub greatest_message : DepthMessage → List DepthMessage → DepthMessage
greatest_message m [] = m
greatest_message m (n ∷ ns) =
    greatest_message (if key_leb (ordering_key n) (ordering_key m) then m else n) ns

unfoldable pub select : Bool → List DepthMessage → Option DepthMessage
select first [] = none
select true (m ∷ ms) = some (least_message m ms)
select false (m ∷ ms) = some (greatest_message m ms)

-- An hour in nanoseconds.
abbrev pub hour_ns : ℕ
hour_ns = 3_600_000_000_000

abbrev pub lower_bound : Bool → ℕ → ℕ
lower_bound true start_ns = start_ns
lower_bound false start_ns = 0

abbrev pub upper_bound : Bool → ℕ → ℕ
upper_bound true start_ns = start_ns + hour_ns
upper_bound false start_ns = start_ns + 1

-- An hour's selected snapshot; `in_start_hour` where the hour of the start is allowed.
unfoldable pub search_hour : Bool → ℕ → CachedHour → Fallible DiscoveryError (Option DepthMessage)
search_hour in_start_hour start_ns h =
    if h.snapshot_rows == 0
    then ok none
    else candidates (lower_bound in_start_hour start_ns) (upper_bound in_start_hour start_ns)
        h.messages
      >>= (λ ms. ok (select in_start_hour ms))

abbrev pub add_checked : ℕ × ℕ → SnapshotSearch → SnapshotSearch
add_checked c s = record s { checked = c ∷ s.checked }

-- An hour that selects a snapshot ends the search.
unfoldable pub or_search :
    Option DepthMessage
    → Fallible DiscoveryError SnapshotSearch
    → Fallible DiscoveryError SnapshotSearch
or_search (some m) later = ok (record { snapshot = some m; checked = [] })
or_search none later = later

module _ (cached : ℕ → CachedHour) (start_ns : ℕ) (allow_start_hour_snapshot : Bool) where
  -- The hours from `lookback` on, `hours` of them.
  unfoldable pub search_from : ℕ → ℕ → Fallible DiscoveryError SnapshotSearch
  search_from zero lookback = ok (record { snapshot = none; checked = [] })
  search_from (suc hours) lookback =
      let later = search_from hours (lookback + 1) in
      search_hour (lookback == 0 && allow_start_hour_snapshot) start_ns (cached lookback) >>= (λ o.
        or_search o later >>= (λ s. ok (add_checked (lookback, (cached lookback).snapshot_rows) s)))

  unfoldable pub discover_snapshot : ℕ → Fallible DiscoveryError SnapshotSearch
  discover_snapshot max_lookback_hours = search_from (max_lookback_hours + 1) 0
