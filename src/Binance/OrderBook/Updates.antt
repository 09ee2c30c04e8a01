-- ===== src/Binance/OrderBook/Updates.antt =====
-- What a snapshot and a depth event make of the order book (cpp/book/order_book.cpp).
use crypto_microstructure_ma.Prelude.{
  ◌≡◌, refl, ◌∙◌, inl, inr, Bool, true, false, [], List, arith, Bool-cases,
}
use crypto_microstructure_ma.Prelude.Int.{ℤ, pos, negsuc}
use crypto_microstructure_ma.Historical.Message.{Text}
use crypto_microstructure_ma.Historical.Emission.{DepthUpdate, DepthSnapshot}
use crypto_microstructure_ma.Binance.OrderBook.{
  Levels, OrderBook, clear, invalidate, int_eq, tops_apart, apply_levels, is_uncrossed, bid_before,
  ask_before, load_snapshot, apply_depth_event,
}
use crypto_microstructure_ma.Binance.OrderBook.Sides.{
  qty_at, left_at, IsSide, IsStrict, apply_levels_lem,
}

ask_before-total : (a b : ℤ) → int_eq a b ≡ false → ask_before a b ≡ false → ask_before b a ≡ true
unfolding int_eq
ask_before-total (pos a) (pos b) e h = ground (arith, e, h)
ask_before-total (pos a) (negsuc b) e h = ground (arith, e, h)
ask_before-total (negsuc a) (pos b) e h = ground (arith, e, h)
ask_before-total (negsuc a) (negsuc b) e h = ground (arith, e, h)

int_eq_comm : (a b : ℤ) → int_eq a b ≡ int_eq b a
unfolding int_eq
int_eq_comm (pos a) (pos b) = ground arith
int_eq_comm (pos a) (negsuc b) = refl
int_eq_comm (negsuc a) (pos b) = refl
int_eq_comm (negsuc a) (negsuc b) = ground arith

asks-IsStrict : IsStrict ask_before
asks-IsStrict = record {
  before_irrefl = λ a. ground arith;
  before_trans = λ a b c h k. ground (arith, h, k);
  before_total = ask_before-total;
}

bids-IsStrict : IsStrict bid_before
bids-IsStrict = record {
  before_irrefl = λ a. ground arith;
  before_trans = λ a b c h k. ground (arith, h, k);
  before_total = λ a b e h. ask_before-total b a (int_eq_comm b a ∙ e) h;
}

abbrev pub UncrossedIf : Bool → Levels → Levels → Type 0
UncrossedIf true bids asks = tops_apart bids asks ≡ true
UncrossedIf false bids asks = Unit

-- Both sides in order, with prices that are not negative and quantities that are positive; and the
-- best bid under the best ask where the book is valid.
abbrev pub IsBook : OrderBook → Type 0
IsBook b = IsSide bid_before b.bids × (IsSide ask_before b.asks × UncrossedIf b.valid b.bids b.asks)

-- The quantity that levels leave at each price of a side.
abbrev pub Replaces : Levels → Levels → Levels → Type 0
Replaces levels side result =
    (price : ℤ) → qty_at price result ≡ left_at price levels (qty_at price side)

module _ (levels_of : List (Text × Text) → Levels) where
  -- What loading a snapshot leaves, where it succeeds and where it does not.
  abbrev pub LoadedTo : DepthSnapshot → OrderBook → Bool → Type 0
  LoadedTo m b true =
      b.valid ≡ true
      × (b.last_update_id ≡ m.last_update_id
          × (Replaces (levels_of m.message.bids) [] b.bids
              × Replaces (levels_of m.message.asks) [] b.asks))
  LoadedTo m b false = b.valid ≡ false

  abbrev pub Loads : DepthSnapshot → OrderBook × Bool → Type 0
  Loads m (b, done) = IsBook b × LoadedTo m b done

  -- What applying an event to a book leaves, where it succeeds and where it does not.
  abbrev pub AppliedTo : DepthUpdate → OrderBook → OrderBook → Bool → Type 0
  AppliedTo u before b true =
      before.valid ≡ true
      × (b.valid ≡ true
          × (b.last_update_id ≡ u.final_update_id
              × (Replaces (levels_of u.message.bids) before.bids b.bids
                  × Replaces (levels_of u.message.asks) before.asks b.asks)))
  AppliedTo u before b false = b.valid ≡ false

  abbrev pub Applies : DepthUpdate → OrderBook → OrderBook × Bool → Type 0
  Applies u before (b, done) = IsBook b × AppliedTo u before b done

  load_snapshot-Loads : (m : DepthSnapshot) (b : OrderBook) → Loads m (load_snapshot levels_of m b)
  unfolding load_snapshot clear is_uncrossed
  load_snapshot-Loads m b =
      let bids = apply_levels_lem bid_before bids-IsStrict (levels_of m.message.bids) [] (tt, tt) in
      let asks = apply_levels_lem ask_before asks-IsStrict (levels_of m.message.asks) [] (tt, tt) in
      let new_bids : Levels = (apply_levels bid_before (levels_of m.message.bids) []).0 in
      let new_asks : Levels = (apply_levels ask_before (levels_of m.message.asks) []).0 in
      elim (Bool-cases (apply_levels bid_before (levels_of m.message.bids) []).1) [
        | inl e ↦
            rw e (elim (Bool-cases (apply_levels ask_before (levels_of m.message.asks) []).1) [
              | inl f ↦ rw f (elim (Bool-cases (tops_apart new_bids new_asks)) [
                | inl t ↦ rw t ((bids.0, (asks.0, t)), (refl, (refl, (bids.1 e, asks.1 f))))
                | inr t ↦ rw t ((bids.0, (asks.0, tt)), refl)
              ])
              | inr f ↦ rw f (((tt, tt), ((tt, tt), tt)), refl)
            ])
        | inr e ↦ rw e (((tt, tt), ((tt, tt), tt)), refl)
      ]

  apply_depth_event-Applies :
      (u : DepthUpdate) (b : OrderBook) → IsBook b → Applies u b (apply_depth_event levels_of u b)
  unfolding apply_depth_event invalidate is_uncrossed
  apply_depth_event-Applies u b h =
      let bids = apply_levels_lem bid_before bids-IsStrict (levels_of u.message.bids) b.bids h.0 in
      let asks =
        apply_levels_lem ask_before asks-IsStrict (levels_of u.message.asks) b.asks h.1.0 in
      let new_bids : Levels = (apply_levels bid_before (levels_of u.message.bids) b.bids).0 in
      let new_asks : Levels = (apply_levels ask_before (levels_of u.message.asks) b.asks).0 in
      elim (Bool-cases b.valid) [
        | inr e ↦ rw e ((h.0, (h.1.0, tt)), refl)
        | inl e ↦
            rw e (elim (Bool-cases (apply_levels bid_before (levels_of u.message.bids) b.bids).1) [
              | inr f ↦ rw f ((bids.0, (h.1.0, tt)), refl)
              | inl f ↦
                  rw f
                    (elim (Bool-cases
                      (apply_levels ask_before (levels_of u.message.asks) b.asks).1) [
                        | inr g ↦ rw g ((bids.0, (asks.0, tt)), refl)
                        | inl g ↦ rw g (elim (Bool-cases (tops_apart new_bids new_asks)) [
                          | inr t ↦ rw t ((bids.0, (asks.0, tt)), refl)
                          | inl t ↦
                              rw t (
                                (bids.0, (asks.0, t)),
                                (refl, (refl, (refl, (bids.1 f, asks.1 g)))),
                              )
                        ])
                      ])
            ])
      ]

  -- A snapshot loaded into any book, and an event applied to a book that is well formed, leave one
  -- that is: sides in order without negative prices or empty levels, and uncrossed where valid. The
  -- book is valid just where they succeed. The sides of a loaded snapshot have, at each price, what
  -- its levels leave there, the last of a price counting and zero for no level; an event is applied
  -- to valid books only, and it replaces the quantities at its prices and no others.
  pub updates-Refine :
      (m : DepthSnapshot) (u : DepthUpdate) (b : OrderBook)
      → IsBook b
      → Loads m (load_snapshot levels_of m b) × Applies u b (apply_depth_event levels_of u b)
  updates-Refine m u b h = (load_snapshot-Loads m b, apply_depth_event-Applies u b h)
