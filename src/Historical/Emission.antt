-- ===== src/Historical/Emission.antt =====
-- What `pack_for_existing_cpp_pipeline` (pyresearch/historical/l2.py) hands to the raw writer: the
-- update messages and snapshots with their ids read off, and the events written for them.
use crypto_microstructure_ma.Prelude.{ℕ, Option, none, some}
use crypto_microstructure_ma.Historical.Message.{DepthMessage}

-- A message whose three sequence ids are present: what the code works on after its test for None.
pub record DepthUpdate : Type 0 where
  pub message : DepthMessage
  pub first_update_id : ℕ
  pub final_update_id : ℕ
  pub prev_final_update_id : ℕ

-- A snapshot whose id is present.
pub record DepthSnapshot : Type 0 where
  pub message : DepthMessage
  pub last_update_id : ℕ

-- None where an id is missing.
unfoldable pub as_update : DepthMessage → Option DepthUpdate
as_update m = elim m.first_update_id [
  | none ↦ none
  | some first ↦ elim m.final_update_id [
    | none ↦ none
    | some final ↦ elim m.prev_final_update_id [
      | none ↦ none
      | some prev ↦ some (record {
        message = m;
        first_update_id = first;
        final_update_id = final;
        prev_final_update_id = prev;
      })
    ]
  ]
]

unfoldable pub as_snapshot : DepthMessage → Option DepthSnapshot
as_snapshot m = elim m.last_update_id [
  | none ↦ none
  | some last ↦ some (record { message = m; last_update_id = last })
]

-- The calls of `writer.write`, by the event type that they write.
pub data Emission : Type 0 where
  connection_open : ℕ → Emission
  connection_close : ℕ → Emission
  instrument_info : ℕ → Emission
  depth_snapshot : ℕ → DepthSnapshot → Emission
  depth_update : DepthUpdate → Emission

-- The time stamp that the event is written with.
unfoldable pub stamp : Emission → ℕ
stamp (connection_open t) = t
stamp (connection_close t) = t
stamp (instrument_info t) = t
stamp (depth_snapshot t s) = t
stamp (depth_update u) = u.message.received_time_ns
