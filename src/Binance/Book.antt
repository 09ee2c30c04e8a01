-- ===== src/Binance/Book.antt =====
-- What the depth synchronizer asks of `OrderBook` (cpp/book/order_book.hpp): its operations, and
-- the update id that a successful one leaves.
use crypto_microstructure_ma.Prelude.{ℕ, ◌≡◌, Bool, true}
use crypto_microstructure_ma.Historical.Emission.{DepthUpdate, DepthSnapshot}

pub record BookOps : Type 1 where
  pub Book : Type 0
  pub empty_book : Book
  pub clear : Book → Book
  pub invalidate : Book → Book
  pub load_snapshot : DepthSnapshot → Book → Book × Bool
  pub apply_depth_event : DepthUpdate → Book → Book × Bool
  pub last_update_id : Book → ℕ
  pub load_snapshot_id :
      (m : DepthSnapshot) (b : Book)
      → (load_snapshot m b).1 ≡ true
      → last_update_id (load_snapshot m b).0 ≡ m.last_update_id
  pub apply_depth_event_id :
      (u : DepthUpdate) (b : Book)
      → (apply_depth_event u b).1 ≡ true
      → last_update_id (apply_depth_event u b).0 ≡ u.final_update_id
