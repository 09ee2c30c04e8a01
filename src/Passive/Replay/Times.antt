-- ===== src/Passive/Replay/Times.antt =====
-- When the replay of a probe finds its fills, and why.
use crypto_microstructure_ma.Prelude.Arrays.{when}
use crypto_microstructure_ma.Prelude.{
  ℕ, ◌+◌, ◌≤◌, ◌<◌, ◌≡◌, refl, sym, subst, Bool, true, false, Option, none, some, List, [], ◌∷◌,
  arith, inl, inr, Bool-cases, ltb, leb, All,
}
use crypto_microstructure_ma.Prelude.Search.{
  IsAscending, slice-search, is_between, keep_if, keep_if-All, keep_if-IsAscending,
}
use crypto_microstructure_ma.Passive.Replay.{
  Trade, FillReason, trade_through, same_price_aggressor_trade, Probe, ReplayState, first_of,
  qualifies, replay_end, replay_window, initial_replay, fill_through, fill_at_price, record_trade,
  fill_by, on_trade, is_done, replay_trades,
}

-- What a quantity filled says of the first fill, the full one and the reason: nothing is filled, or
-- a part, or the whole within the tolerance, no earlier than the first part.
abbrev pub AreFills : ℕ → ℕ → ℕ → Option Trade → Option Trade → Option FillReason → Type 0
AreFills tolerance order_qty filled none none none = filled ≡ 0
AreFills tolerance order_qty filled (some a) none (some r) =
    (0 < filled) × (filled + tolerance < order_qty)
AreFills tolerance order_qty filled (some a) (some b) (some r) =
    (0 < filled) × (order_qty ≤ filled + tolerance) × (a.local_timestamp ≤ b.local_timestamp)
AreFills _ _ _ _ _ _ = ⊥

-- What holds of an optional trade, if there is one.
abbrev pub Holds : (Trade → Type 0) → Option Trade → Type 0
Holds P none = Unit
Holds P (some t) = P t

abbrev NoLater : Trade → Trade → Type 0
NoLater t a = a.local_timestamp ≤ t.local_timestamp

record-AreFills :
    (tolerance order_qty : ℕ) (first : Option Trade) (reason : Option FillReason) (t : Trade)
    (new : FillReason) (before after : ℕ)
    → before ≤ after
    → tolerance < order_qty
    → AreFills tolerance order_qty before first none reason
    → Holds (NoLater t) first
    → AreFills tolerance order_qty after
        (first_of first (when (ltb before after) t))
        (when (leb order_qty (after + tolerance)) t)
        (first_of reason (when (ltb before after) new))
record-AreFills tolerance order_qty none (some r) t new before after l k h o = elim h [ ]
record-AreFills tolerance order_qty (some a) none t new before after l k h o = elim h [ ]
record-AreFills tolerance order_qty none none t new before after l k h o =
    elim (Bool-cases (ltb before after)) [
      | inr e ↦
          let part : leb order_qty (after + tolerance) ≡ false = ground (arith, k, h, e) in
          rw (e, part) (ground (arith, l, h, e))
      | inl e ↦ elim (Bool-cases (leb order_qty (after + tolerance))) [
        | inl f ↦ rw (e, f) (ground (arith, e), ground (arith, f), omega arith)
        | inr f ↦ rw (e, f) (ground (arith, e), ground (arith, f))
      ]
    ]
record-AreFills tolerance order_qty (some a) (some r) t new before after l k (m, n) o =
    elim (Bool-cases (leb order_qty (after + tolerance))) [
      | inl f ↦ rw f (omega (arith, m, l), ground (arith, f), o)
      | inr f ↦ rw f (omega (arith, m, l), ground (arith, f))
    ]

-- A fill may have another reason.
replace-AreFills :
    (tolerance order_qty filled : ℕ) (first full : Option Trade) (reason : Option FillReason)
    (new : FillReason)
    → 0 < filled
    → AreFills tolerance order_qty filled first full reason
    → AreFills tolerance order_qty filled first full (some new)
replace-AreFills tolerance order_qty filled none none none new l h = absurd (omega (arith, l, h))
replace-AreFills tolerance order_qty filled none none (some r) new l h = h
replace-AreFills tolerance order_qty filled none (some b) none new l h = h
replace-AreFills tolerance order_qty filled none (some b) (some r) new l h = h
replace-AreFills tolerance order_qty filled (some a) none none new l h = elim h [ ]
replace-AreFills tolerance order_qty filled (some a) none (some r) new l h = h
replace-AreFills tolerance order_qty filled (some a) (some b) none new l h = elim h [ ]
replace-AreFills tolerance order_qty filled (some a) (some b) (some r) new l h = h

open-lt :
    (tolerance order_qty filled : ℕ) (first : Option Trade) (reason : Option FillReason)
    → tolerance < order_qty
    → AreFills tolerance order_qty filled first none reason
    → filled + tolerance < order_qty
open-lt tolerance order_qty filled none none k h = omega (arith, k, h)
open-lt tolerance order_qty filled none (some r) k h = elim h [ ]
open-lt tolerance order_qty filled (some a) none k h = elim h [ ]
open-lt tolerance order_qty filled (some a) (some r) k h = h.1

abbrev pub AreFillsOf : ℕ → ℕ → ReplayState → Type 0
AreFillsOf tolerance order_qty s =
    AreFills tolerance order_qty s.filled s.first_fill s.full_fill s.fill_reason

-- The order is not filled yet.
abbrev IsOpen : ℕ → ℕ → ReplayState → Type 0
IsOpen tolerance order_qty s =
    (s.full_fill ≡ none) × AreFills tolerance order_qty s.filled s.first_fill none s.fill_reason

completed-AreFills :
    (tolerance order_qty filled : ℕ) (first full : Option Trade) (reason : Option FillReason)
    (t : Trade) (is_full : Bool)
    → full ≡ none
    → AreFills tolerance order_qty filled first (when is_full t) reason
    → AreFills tolerance order_qty filled first (first_of full (when is_full t)) reason
      × (is_full ≡ false
          → (first_of full (when is_full t) ≡ none)
            × AreFills tolerance order_qty filled first none reason)
completed-AreFills tolerance order_qty filled first full reason t true e h =
    rw e (h, λ q. absurd (ground (arith, q)))
completed-AreFills tolerance order_qty filled first full reason t false e h =
    rw e (h, λ q. (refl, h))

through-AreFills :
    (tolerance order_qty : ℕ) (t : Trade) (s : ReplayState)
    → tolerance < order_qty
    → IsOpen tolerance order_qty s
    → Holds (NoLater t) s.first_fill
    → let first = first_of s.first_fill (when (ltb s.filled order_qty) t) in
      let is_full = leb order_qty (order_qty + tolerance) in
      let full = first_of s.full_fill (when is_full t) in
      AreFills tolerance order_qty order_qty first full (some trade_through)
      × (is_full ≡ false
          → (full ≡ none) × AreFills tolerance order_qty order_qty first none (some trade_through))
through-AreFills tolerance order_qty t s k (e, h) o =
    let l = open-lt tolerance order_qty s.filled s.first_fill s.fill_reason k h in
    completed-AreFills tolerance order_qty order_qty _ s.full_fill _ t _ e (
      replace-AreFills tolerance order_qty order_qty _ _ _ trade_through (omega (arith, k)) (
        record-AreFills tolerance order_qty s.first_fill s.fill_reason t trade_through s.filled
          order_qty (omega (arith, l)) k h o))

on_trade-AreFills :
    (tolerance order_qty : ℕ) (same through : Bool) (t : Trade) (s : ReplayState)
    → tolerance < order_qty
    → IsOpen tolerance order_qty s
    → Holds (NoLater t) s.first_fill
    → let next = on_trade tolerance order_qty (same, through) t s in
      AreFillsOf tolerance order_qty next
      × (is_done tolerance order_qty (same, through) next ≡ false → IsOpen tolerance order_qty next)
unfolding on_trade record_trade fill_by fill_through fill_at_price is_done
on_trade-AreFills tolerance order_qty true true t s k h o =
    through-AreFills tolerance order_qty t s k h o
on_trade-AreFills tolerance order_qty false true t s k h o =
    through-AreFills tolerance order_qty t s k h o
on_trade-AreFills tolerance order_qty true false t s k (e, h) o =
    completed-AreFills tolerance order_qty _ _ s.full_fill _ t _ e (
      record-AreFills tolerance order_qty s.first_fill s.fill_reason t same_price_aggressor_trade
        s.filled _ (omega arith) k h o)
on_trade-AreFills tolerance order_qty false false t s k (e, h) o = (
  subst (λ f. AreFills tolerance order_qty s.filled s.first_fill f s.fill_reason) (sym e) h,
  λ q. (e, h),
)

first_of-Holds :
    (P : Trade → Type 0) (o : Option Trade) (is_new : Bool) (t : Trade)
    → Holds P o
    → P t
    → Holds P (first_of o (when is_new t))
first_of-Holds P none true t h k = k
first_of-Holds P none false t h k = tt
first_of-Holds P (some a) is_new t h k = h

on_trade-first :
    (P : Trade → Type 0) (tolerance order_qty : ℕ) (same through : Bool) (t : Trade)
    (s : ReplayState)
    → P t
    → Holds P s.first_fill
    → Holds P (on_trade tolerance order_qty (same, through) t s).first_fill
unfolding on_trade record_trade fill_by fill_through fill_at_price
on_trade-first P tolerance order_qty true true t s k h = first_of-Holds P s.first_fill _ t h k
on_trade-first P tolerance order_qty true false t s k h = first_of-Holds P s.first_fill _ t h k
on_trade-first P tolerance order_qty false true t s k h = first_of-Holds P s.first_fill _ t h k
on_trade-first P tolerance order_qty false false t s k h = h

on_trade-full :
    (P : Trade → Type 0) (tolerance order_qty : ℕ) (same through : Bool) (t : Trade)
    (s : ReplayState)
    → P t
    → Holds P s.full_fill
    → Holds P (on_trade tolerance order_qty (same, through) t s).full_fill
unfolding on_trade record_trade fill_by fill_through fill_at_price
on_trade-full P tolerance order_qty true true t s k h = first_of-Holds P s.full_fill _ t h k
on_trade-full P tolerance order_qty true false t s k h = first_of-Holds P s.full_fill _ t h k
on_trade-full P tolerance order_qty false true t s k h = first_of-Holds P s.full_fill _ t h k
on_trade-full P tolerance order_qty false false t s k h = h

Holds-map :
    (P Q : Trade → Type 0) (o : Option Trade) → ((t : Trade) → P t → Q t) → Holds P o → Holds Q o
Holds-map P Q none f h = tt
Holds-map P Q (some t) f h = f t h

replay_trades-AreFills :
    (P : Trade → Type 0) (tolerance : ℕ) (p : Probe) (ts : List Trade) (s : ReplayState)
    → tolerance < p.quote_qty
    → IsAscending Trade.local_timestamp ts
    → All P ts
    → Holds (λ a. All (λ t. NoLater t a) ts) s.first_fill
    → IsOpen tolerance p.quote_qty s
    → Holds P s.first_fill × Holds P s.full_fill
    → let r = replay_trades tolerance p ts s in
      AreFillsOf tolerance p.quote_qty r × Holds P r.first_fill × Holds P r.full_fill
unfolding replay_trades
replay_trades-AreFills P tolerance p [] s k g h o (e, f) m = (
  subst (λ f. AreFills tolerance p.quote_qty s.filled s.first_fill f s.fill_reason) (sym e) f,
  m.0,
  m.1,
)
replay_trades-AreFills P tolerance p (t ∷ ts) s k (g, gs) (h, hs) o f m =
    let kind = qualifies p t in
    let next = on_trade tolerance p.quote_qty kind t s in
    let (fills, still_open) =
      on_trade-AreFills tolerance p.quote_qty kind.0 kind.1 t s k f (
        Holds-map (λ a. All (λ u. NoLater u a) (t ∷ ts)) (NoLater t) s.first_fill (λ a q. q.0) o) in
    let first = on_trade-first P tolerance p.quote_qty kind.0 kind.1 t s h m.0 in
    let full = on_trade-full P tolerance p.quote_qty kind.0 kind.1 t s h m.1 in
    elim (Bool-cases (is_done tolerance p.quote_qty kind next)) [
      | inl e ↦ rw e (fills, first, full)
      | inr e ↦ rw e (
          replay_trades-AreFills P tolerance p ts next k gs hs
            (on_trade-first (λ a. All (λ u. NoLater u a) ts) tolerance p.quote_qty kind.0 kind.1 t s
              g (Holds-map (λ a. All (λ u. NoLater u a) (t ∷ ts)) _ s.first_fill (λ a q. q.1) o))
            (still_open e) (first, full))
    ]

-- Received after the placement and before the end of the replay.
abbrev pub IsInside : Probe → Trade → Type 0
IsInside p t =
    is_between Trade.local_timestamp p.placement_local
      (replay_end p.placement_local p.expiry_local p.next_snapshot_local) t
    ≡ true

-- In the replay of trades in the order of their receipt, for an order larger than the tolerance,
-- there is a first fill and a reason just where something is filled, and a full fill just where the
-- whole order is but for the tolerance; the fills are trades received after the placement and
-- before the end, and the full fill is received no earlier than the first.
pub replay_trades-AreTimed :
    (tolerance : ℕ) (p : Probe) (trades : List Trade)
    → tolerance < p.quote_qty
    → IsAscending Trade.local_timestamp trades
    → let s = replay_trades tolerance p (replay_window p trades) (initial_replay p) in
      AreFillsOf tolerance p.quote_qty s
      × Holds (IsInside p) s.first_fill
      × Holds (IsInside p) s.full_fill
unfolding initial_replay replay_window
replay_trades-AreTimed tolerance p trades k h =
    let end = replay_end p.placement_local p.expiry_local p.next_snapshot_local in
    let test = is_between Trade.local_timestamp p.placement_local end in
    rw (slice-search Trade.local_timestamp p.placement_local end trades h) (
      replay_trades-AreFills (IsInside p) tolerance p (keep_if test trades) (initial_replay p) k
        (keep_if-IsAscending Trade.local_timestamp test trades h) (keep_if-All test trades) tt
        (refl, refl) (tt, tt))
