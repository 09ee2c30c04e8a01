-- ===== src/Historical/Continuity.antt =====
-- `audit_continuity` of pyresearch/historical/l2.py: every message counted and classified by its
-- update ids. The compressed audit file is the list of its records; its hash is left out.
pub mod Loop
pub mod Classes
pub mod Stages
pub mod Counts
use crypto_microstructure_ma.Prelude.{
  ℕ, ◌+◌, ◌-◌, min, max, Bool, true, false, ◌&&◌, Option, none, some, List, [], ◌∷◌, ◌++◌, ltb, leb,
  ◌==◌, if◌then◌else◌, or_else,
}
use crypto_microstructure_ma.Prelude.Int.{ℤ, pos, sub_ℕ}
use crypto_microstructure_ma.Historical.Message.{Text, text_eq, EventType, DepthMessage}
use crypto_microstructure_ma.Historical.Snapshot.{snapshot_is_usable}
use crypto_microstructure_ma.Historical.Emission.{DepthUpdate, as_update}

pub data Status : Type 0 where
  snapshot_invalid snapshot_duplicate snapshot_overlap_or_stale : Status
  snapshot_ahead_candidate duplicate_stale_before_snapshot snapshot_bridge : Status
  snapshot_bridge_gap initial_delta_only duplicate_stale contiguous pu_break : Status

pub record MissingRange : Type 0 where
  pub after_u : ℕ
  pub next_first : ℕ
  pub next_final : ℕ
  pub next_prev : ℕ
  pub previous_received_time_ns : ℕ
  pub next_received_time_ns : ℕ
  pub receive_gap_ns : ℤ
  pub missing_update_id_count : ℕ

pub record Boundary : Type 0 where
  pub object_path : Text
  pub first_first : ℕ
  pub first_final : ℕ
  pub first_prev : ℕ
  pub expected_previous_u : Option ℕ
  pub status : Status

pub record ObjectCounts : Type 0 where
  pub messages : ℕ
  pub snapshots : ℕ
  pub updates : ℕ
  pub first_received_time_ns : ℕ
  pub last_received_time_ns : ℕ
  pub first_id : Option ℕ
  pub last_id : Option ℕ

pub record Summary : Type 0 where
  pub unique_depth_messages : ℕ
  pub update_messages : ℕ
  pub snapshot_messages : ℕ
  pub contiguous_updates : ℕ
  pub duplicate_stale_messages : ℕ
  pub pu_breaks : ℕ
  pub missing_ranges : List MissingRange
  pub first_update_id : Option ℕ
  pub last_update_id : Option ℕ
  pub first_received_time_ns : Option ℕ
  pub last_received_time_ns : Option ℕ
  pub hourly_boundaries : List Boundary
  pub per_object : List (Text × ObjectCounts)

-- The local variables of the loop, with the summary and the records so far.
pub record Audit : Type 0 where
  pub summary : Summary
  pub previous_update_u : Option ℕ
  pub awaiting_initial_bridge : Bool
  pub previous_update_received_ns : Option ℕ
  pub previous_source : Option Text
  pub first_in_source : Bool
  pub records : List (DepthMessage × Status)

pub data AuditError : Type 0 where
  missing_ids inverted_ids invalid_levels : AuditError

pub data Result {ℓ} (A : Type ℓ) : Type ℓ where
  ok : A → Result A
  err : AuditError → Result A

infixl 5 ◌>>=◌
abbrev pub ◌>>=◌ {ℓ κ} : {A : Type ℓ} {B : Type κ} → Result A → (A → Result B) → Result B
ok a >>= f = f a
err e >>= f = err e

abbrev pub new_counts : ℕ → ObjectCounts
new_counts received = record {
  messages = 0;
  snapshots = 0;
  updates = 0;
  first_received_time_ns = received;
  last_received_time_ns = received;
  first_id = none;
  last_id = none;
}

-- `setdefault`, and a change of the entry.
unfoldable pub change_object :
    Text
    → ℕ
    → (ObjectCounts → ObjectCounts)
    → List (Text × ObjectCounts)
    → List (Text × ObjectCounts)
change_object k received f [] = (k, f (new_counts received)) ∷ []
change_object k received f ((j, c) ∷ d) =
    if text_eq k j then (j, f c) ∷ d else (j, c) ∷ change_object k received f d

abbrev pub first_of : Option ℕ → ℕ → Option ℕ
first_of none v = some v
first_of (some w) v = some w

unfoldable pub seen_in_object : ℕ → ObjectCounts → ObjectCounts
seen_in_object received c = record c { messages = c.messages + 1; last_received_time_ns = received }

unfoldable pub snapshot_in_object : ObjectCounts → ObjectCounts
snapshot_in_object c = record c { snapshots = c.snapshots + 1 }

unfoldable pub update_in_object : DepthUpdate → ObjectCounts → ObjectCounts
update_in_object u c = record c {
  updates = c.updates + 1;
  first_id = first_of c.first_id u.first_update_id;
  last_id = some u.final_update_id;
}

abbrev pub least_received : Option ℕ → ℕ → ℕ
least_received none received = received
least_received (some first) received = min first received

abbrev pub is_source : Option Text → Text → Bool
is_source none t = false
is_source (some s) t = text_eq t s

-- What is counted of every message, before its type is looked at.
unfoldable pub count_message : DepthMessage → Audit → Audit
unfolding change_object
count_message m a =
    let s = a.summary in
    record a {
      summary = record s {
        unique_depth_messages = s.unique_depth_messages + 1;
        first_received_time_ns = some (least_received s.first_received_time_ns m.received_time_ns);
        last_received_time_ns = some m.received_time_ns;
        per_object =
            change_object m.source_object m.received_time_ns (seen_in_object m.received_time_ns)
              s.per_object;
      };
      previous_source = some m.source_object;
      first_in_source =
          if is_source a.previous_source m.source_object then a.first_in_source else true;
    }

unfoldable pub add_record : DepthMessage → Status → Audit → Audit
add_record m status a = record a { records = a.records ++ (m, status) ∷ [] }

abbrev pub opt_eq : Option ℕ → ℕ → Bool
opt_eq none v = false
opt_eq (some w) v = v == w

abbrev pub opt_leb : ℕ → Option ℕ → Bool
opt_leb v none = false
opt_leb v (some w) = leb v w

-- A snapshot by its usability and id.
unfoldable pub snapshot_status : Option ℕ → Bool → Option ℕ → Audit → Status
snapshot_status initial_id usable none a = snapshot_invalid
snapshot_status initial_id false (some id) a = snapshot_invalid
snapshot_status initial_id true (some id) a =
    if a.awaiting_initial_bridge && opt_eq initial_id id
    then snapshot_duplicate
    else if opt_leb id a.previous_update_u
    then snapshot_overlap_or_stale
    else snapshot_ahead_candidate

unfoldable pub audit_snapshot : Option ℕ → Bool → DepthMessage → Audit → Audit
unfolding add_record change_object
audit_snapshot initial_id usable m a =
    let s = a.summary in
    add_record m (snapshot_status initial_id usable m.last_update_id a) (record a {
      summary = record s {
        snapshot_messages = s.snapshot_messages + 1;
        per_object =
            change_object m.source_object m.received_time_ns snapshot_in_object s.per_object;
      };
    })

-- The class of an update while the bridge of the initial snapshot is awaited.
unfoldable pub bridge_status : ℕ → DepthUpdate → Status
bridge_status initial_id u =
    if ltb u.final_update_id initial_id
    then duplicate_stale_before_snapshot
    else if leb u.first_update_id initial_id && leb initial_id u.final_update_id
    then snapshot_bridge
    else snapshot_bridge_gap

-- The class of an update behind the last one.
unfoldable pub chain_status : Option ℕ → DepthUpdate → Status
chain_status none u = initial_delta_only
chain_status (some previous) u =
    if leb u.final_update_id previous
    then duplicate_stale
    else if u.prev_final_update_id == previous
    then contiguous
    else pu_break

-- The range that a break leaves open, from an update id on.
unfoldable pub missing_range : ℕ → ℕ → DepthUpdate → Audit → MissingRange
missing_range after missing u a =
    let received = u.message.received_time_ns in
    record {
      after_u = after;
      next_first = u.first_update_id;
      next_final = u.final_update_id;
      next_prev = u.prev_final_update_id;
      previous_received_time_ns = or_else a.previous_update_received_ns 0;
      next_received_time_ns = received;
      receive_gap_ns = elim a.previous_update_received_ns [
        | none ↦ pos 0
        | some previous ↦ sub_ℕ received previous
      ];
      missing_update_id_count = missing;
    }

unfoldable pub advance : DepthUpdate → Audit → Audit
advance u a = record a { previous_update_u = some u.final_update_id }

unfoldable pub stale_seen : Audit → Audit
stale_seen a =
    let s = a.summary in
    record a { summary = record s { duplicate_stale_messages = s.duplicate_stale_messages + 1 } }

unfoldable pub contiguous_seen : Audit → Audit
contiguous_seen a =
    let s = a.summary in
    record a { summary = record s { contiguous_updates = s.contiguous_updates + 1 } }

unfoldable pub break_seen : MissingRange → Audit → Audit
break_seen r a =
    let s = a.summary in
    record a {
      summary = record s {
        pu_breaks = s.pu_breaks + 1;
        missing_ranges = s.missing_ranges ++ r ∷ [];
      };
    }

unfoldable pub bridged : Audit → Audit
bridged a = record a { awaiting_initial_bridge = false }

-- The effects of each class of update. `after` is the id that the class was decided against.
unfoldable pub apply_status : Status → ℕ → DepthUpdate → Audit → Audit
unfolding advance stale_seen contiguous_seen break_seen bridged missing_range
apply_status duplicate_stale_before_snapshot after u a = stale_seen a
apply_status duplicate_stale after u a = stale_seen a
apply_status snapshot_bridge after u a = bridged (advance u (contiguous_seen a))
apply_status contiguous after u a = advance u (contiguous_seen a)
apply_status initial_delta_only after u a = advance u a
apply_status snapshot_bridge_gap after u a =
    bridged (advance u (break_seen (missing_range after (u.first_update_id - after - 1) u a) a))
apply_status pu_break after u a =
    advance u (break_seen (missing_range after (u.prev_final_update_id - after) u a) a)
apply_status _ after u a = a

abbrev pub awaited : Bool → Option ℕ → Option ℕ
awaited true initial_id = initial_id
awaited false initial_id = none

-- The class, and the previous id that is expected, while a bridge is awaited or not.
unfoldable pub update_status : Option ℕ → Option ℕ → DepthUpdate → Status × Option ℕ
update_status (some initial_id) previous u = (bridge_status initial_id u, some initial_id)
update_status none previous u = (chain_status previous u, previous)

-- The parts of an update's treatment before its class is looked at.
unfoldable pub count_update : DepthUpdate → Audit → Audit
unfolding change_object
count_update u a =
    let s = a.summary in
    record a {
      summary = record s {
        update_messages = s.update_messages + 1;
        first_update_id = first_of s.first_update_id u.first_update_id;
        per_object =
            change_object u.message.source_object u.message.received_time_ns (update_in_object u)
              s.per_object;
      };
    }

-- The parts behind it: the last id, the hour's boundary and the receive time.
unfoldable pub close_update : Status → Option ℕ → DepthUpdate → Audit → Audit
close_update status expected u a =
    let s = a.summary in
    record a {
      summary = record s {
        last_update_id = some (max (or_else s.last_update_id u.final_update_id) u.final_update_id);
        hourly_boundaries =
            if a.first_in_source
            then s.hourly_boundaries
              ++ record {
                object_path = u.message.source_object;
                first_first = u.first_update_id;
                first_final = u.final_update_id;
                first_prev = u.prev_final_update_id;
                expected_previous_u = expected;
                status = status;
              }
                ∷ []
            else s.hourly_boundaries;
      };
      first_in_source = false;
      previous_update_received_ns = some u.message.received_time_ns;
    }

unfoldable pub audit_update : Option ℕ → DepthUpdate → Audit → Audit
unfolding count_update close_update add_record
audit_update initial_id u a =
    let (status, expected) =
      update_status (awaited a.awaiting_initial_bridge initial_id) a.previous_update_u u in
    add_record u.message status (
      close_update status expected u
        (apply_status status (or_else expected 0) u (count_update u a)))

-- The checks of an update's ids.
unfoldable pub audit_ids : Option ℕ → Option DepthUpdate → Audit → Result Audit
audit_ids initial_id none a = err missing_ids
audit_ids initial_id (some u) a =
    if ltb u.final_update_id u.first_update_id
    then err inverted_ids
    else ok (audit_update initial_id u a)

unfoldable pub audit_usable : Option ℕ → Option Bool → DepthMessage → Audit → Result Audit
audit_usable initial_id none m a = err invalid_levels
audit_usable initial_id (some usable) m a = ok (audit_snapshot initial_id usable m a)

-- Every message that is no snapshot is taken for an update.
unfoldable pub audit_by_type : EventType → Option ℕ → DepthMessage → Audit → Result Audit
audit_by_type EventType.snapshot initial_id m a = audit_usable initial_id (snapshot_is_usable m) m a
audit_by_type _ initial_id m a = audit_ids initial_id (as_update m) a

unfoldable pub audit_message : Option ℕ → DepthMessage → Audit → Result Audit
audit_message initial_id m a = audit_by_type m.event_type initial_id m (count_message m a)

unfoldable pub audit_all : Option ℕ → List DepthMessage → Audit → Result Audit
audit_all initial_id [] a = ok a
audit_all initial_id (m ∷ ms) a = audit_message initial_id m a >>= audit_all initial_id ms

abbrev pub empty_summary : Summary
empty_summary = record {
  unique_depth_messages = 0;
  update_messages = 0;
  snapshot_messages = 0;
  contiguous_updates = 0;
  duplicate_stale_messages = 0;
  pu_breaks = 0;
  missing_ranges = [];
  first_update_id = none;
  last_update_id = none;
  first_received_time_ns = none;
  last_received_time_ns = none;
  hourly_boundaries = [];
  per_object = [];
}

abbrev pub is_given : Option ℕ → Bool
is_given none = false
is_given (some v) = true

abbrev pub initial_id_of : Option DepthMessage → Option ℕ
initial_id_of none = none
initial_id_of (some m) = m.last_update_id

unfoldable pub begin_audit : Option ℕ → Audit
begin_audit initial_id = record {
  summary = empty_summary;
  previous_update_u = none;
  awaiting_initial_bridge = is_given initial_id;
  previous_update_received_ns = none;
  previous_source = none;
  first_in_source = true;
  records = [];
}

unfoldable pub audit_continuity : List DepthMessage → Option DepthMessage → Result Audit
unfolding begin_audit
audit_continuity ms initial_snapshot =
    audit_all (initial_id_of initial_snapshot) ms (begin_audit (initial_id_of initial_snapshot))
