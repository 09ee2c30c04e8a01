-- ===== src/MarketMaking/Limits/Orders.antt =====
-- What an order's placement needs and what it leaves: the sides are free of pending fills when a
-- quote is placed on them.
use crypto_microstructure_ma.Prelude.{
  ℕ, ◌+◌, ◌≤◌, ◌<◌, ◌≡◌, refl, false, ◌||◌, inl, inr, Option, none, some, List, [], ◌∷◌, arith,
  Bool-cases, ltb, All,
}
use crypto_microstructure_ma.Prelude.Int.{ℤ, pos_part, neg_part}
use crypto_microstructure_ma.MarketMaking.Permission.{Side, bid, ask, other_side, Spec, Checked}
use crypto_microstructure_ma.MarketMaking.Fills.{FillEvent, MmState, push_fill}
use crypto_microstructure_ma.MarketMaking.Schedule.{
  Row, Sim, Outcome, set_available, is_occupied, queue_fill,
}
use crypto_microstructure_ma.MarketMaking.Limits.Rooms.{
  qty_at, on_side, HasRoom, limit_of, same-HasRoom,
}
use crypto_microstructure_ma.MarketMaking.Limits.Queue.{
  push-on_side, push-All, IsOrdered, push-IsOrdered, IsLater,
}

-- A time within what is left of an order.
abbrev pub Until : Option ℕ → ℕ → Type 0
Until none t = ⊥
Until (some end) t = t ≤ end

abbrev pub UntilOn : Side → Option ℕ → Option ℕ → ℕ → Type 0
UntilOn bid on_bid on_ask t = Until on_bid t
UntilOn ask on_bid on_ask t = Until on_ask t
UntilOn other_side on_bid on_ask t = ⊥

-- A pending fill lies within the last order on its side.
abbrev pub IsTimely : Option ℕ → Option ℕ → FillEvent → Type 0
IsTimely on_bid on_ask e = UntilOn e.side on_bid on_ask e.event_time

pub record IsWithin (spec : Spec) (m : Sim) : Type 0 where
  pub room : HasRoom (limit_of spec) m.state (on_side bid m.pending) (on_side ask m.pending)
  pub ordered : IsOrdered m.pending
  pub timely : All (IsTimely m.available_bid m.available_ask) m.pending

-- A free bid side: the last bid order's end is not behind the placement.
over :
    (placement t : ℕ) (o : Option ℕ)
    → Until o t
    → is_occupied placement o ≡ false
    → placement < t
    → ⊥
over placement t none u f l = u
over placement t (some end) u f l = ground arith

free-bid :
    (side : Side) (placement t q : ℕ) (b a end : Option ℕ)
    → UntilOn side b a t
    → is_occupied placement b ≡ false
    → placement < t
    → (UntilOn side end a t) × (qty_at bid side q ≡ 0)
free-bid bid placement t q b a end u f l = absurd (over placement t b u f l)
free-bid ask placement t q b a end u f l = (u, refl)
free-bid other_side placement t q b a end u f l = absurd u

free-ask :
    (side : Side) (placement t q : ℕ) (b a end : Option ℕ)
    → UntilOn side b a t
    → is_occupied placement a ≡ false
    → placement < t
    → (UntilOn side b end t) × (qty_at ask side q ≡ 0)
free-ask ask placement t q b a end u f l = absurd (over placement t a u f l)
free-ask bid placement t q b a end u f l = (u, refl)
free-ask other_side placement t q b a end u f l = absurd u

-- With a free side nothing is pending there.
none-on-bid :
    (placement : ℕ) (b a end : Option ℕ) (es : List FillEvent)
    → All (IsTimely b a) es
    → is_occupied placement b ≡ false
    → All (IsLater placement) es
    → All (IsTimely end a) es × (on_side bid es ≡ 0)
none-on-bid placement b a end [] u f l = (tt, refl)
none-on-bid placement b a end (e ∷ es) u f l =
    let (w, z) = free-bid e.side placement e.event_time e.qty b a end u.0 f l.0 in
    let (ws, zs) = none-on-bid placement b a end es u.1 f l.1 in ((w, ws), omega (arith, z, zs))

none-on-ask :
    (placement : ℕ) (b a end : Option ℕ) (es : List FillEvent)
    → All (IsTimely b a) es
    → is_occupied placement a ≡ false
    → All (IsLater placement) es
    → All (IsTimely b end) es × (on_side ask es ≡ 0)
none-on-ask placement b a end [] u f l = (tt, refl)
none-on-ask placement b a end (e ∷ es) u f l =
    let (w, z) = free-ask e.side placement e.event_time e.qty b a end u.0 f l.0 in
    let (ws, zs) = none-on-ask placement b a end es u.1 f l.1 in ((w, ws), omega (arith, z, zs))

-- A simulation at a row, with the fills that are due applied.
pub record IsAtRow (spec : Spec) (placement : ℕ) (m : Sim) : Type 0 where
  pub room : HasRoom (limit_of spec) m.state (on_side bid m.pending) (on_side ask m.pending)
  pub ordered : IsOrdered m.pending
  pub timely : All (IsTimely m.available_bid m.available_ask) m.pending
  pub later : All (IsLater placement) m.pending

-- A change of the counters alone.
pub count-IsAtRow :
    (spec : Spec) (placement : ℕ) (m : Sim) (t : MmState)
    → t.inventory ≡ m.state.inventory
    → t.maximum_absolute_inventory ≡ m.state.maximum_absolute_inventory
    → t.inventory_limit_violations ≡ m.state.inventory_limit_violations
    → IsAtRow spec placement m
    → IsAtRow spec placement (record m { state = t })
count-IsAtRow spec placement m t i x v h = record {
  room =
      same-HasRoom (limit_of spec) (on_side bid m.pending) (on_side ask m.pending)
        (on_side bid m.pending) (on_side ask m.pending) m.state t i x v (omega arith) (omega arith)
        h.room;
  ordered = h.ordered;
  timely = h.timely;
  later = h.later;
}

pub at_row-IsWithin :
    (spec : Spec) (placement : ℕ) (m : Sim) → IsAtRow spec placement m → IsWithin spec m
at_row-IsWithin spec placement m h = record {
  room = h.room;
  ordered = h.ordered;
  timely = h.timely;
}

-- The side of a quote has taken its order, whose fill is not queued yet.
pub record IsReady (spec : Spec) (side : Side) (end : ℕ) (m : Sim) : Type 0 where
  pub room :
      HasRoom
        (limit_of spec)
        m.state
        (qty_at bid side spec.quote_qty + on_side bid m.pending)
        (qty_at ask side spec.quote_qty + on_side ask m.pending)
  pub ordered : IsOrdered m.pending
  pub timely : All (IsTimely m.available_bid m.available_ask) m.pending
  pub fresh : (t : ℕ) → t ≤ end → UntilOn side m.available_bid m.available_ask t

abbrev pub IsFree : Side → ℕ → Sim → Type 0
IsFree bid placement m = is_occupied placement m.available_bid ≡ false
IsFree ask placement m = is_occupied placement m.available_ask ≡ false
IsFree other_side placement m = ⊥

-- A whole fill fits under the hard limit.
abbrev pub Fits : Side → ℤ → Spec → Type 0
Fits bid held spec = pos_part held + spec.quote_qty ≤ limit_of spec + neg_part held
Fits ask held spec = neg_part held + spec.quote_qty ≤ limit_of spec + pos_part held
Fits other_side held spec = ⊥

pub set_available-IsReady :
    (spec : Spec) (side : Side) (placement end : ℕ) (m : Sim)
    → IsAtRow spec placement m
    → IsFree side placement m
    → Fits side m.state.inventory spec
    → IsReady spec side end (set_available side end m)
unfolding set_available
set_available-IsReady spec bid placement end m h free fits =
    let (timely, nothing) =
      none-on-bid placement m.available_bid m.available_ask (some end) m.pending h.timely free
        h.later in
    record {
      room = record {
        to_buy = omega (arith, nothing, fits);
        to_sell = omega (arith, h.room.to_sell);
        maximum = h.room.maximum;
        violations = h.room.violations;
      };
      ordered = h.ordered;
      timely = timely;
      fresh = λ t k. k;
    }
set_available-IsReady spec ask placement end m h free fits =
    let (timely, nothing) =
      none-on-ask placement m.available_bid m.available_ask (some end) m.pending h.timely free
        h.later in
    record {
      room = record {
        to_buy = omega (arith, h.room.to_buy);
        to_sell = omega (arith, nothing, fits);
        maximum = h.room.maximum;
        violations = h.room.violations;
      };
      ordered = h.ordered;
      timely = timely;
      fresh = λ t k. k;
    }
set_available-IsReady spec other_side placement end m h free fits = absurd free

qty_at-le : (σ τ : Side) (q r : ℕ) → q ≤ r → qty_at σ τ q ≤ qty_at σ τ r
qty_at-le bid bid q r h = h
qty_at-le ask ask q r h = h
qty_at-le bid ask q r h = omega arith
qty_at-le bid other_side q r h = omega arith
qty_at-le ask bid q r h = omega arith
qty_at-le ask other_side q r h = omega arith
qty_at-le other_side bid q r h = omega arith
qty_at-le other_side ask q r h = omega arith
qty_at-le other_side other_side q r h = omega arith

pub ready-IsWithin :
    (spec : Spec) (side : Side) (end : ℕ) (m : Sim) → IsReady spec side end m → IsWithin spec m
ready-IsWithin spec side end m h = record {
  room =
      same-HasRoom (limit_of spec) _ _ (on_side bid m.pending) (on_side ask m.pending) m.state
        m.state refl refl refl (omega arith) (omega arith) h.room;
  ordered = h.ordered;
  timely = h.timely;
}

push-IsWithin :
    (spec : Spec) (end : ℕ) (m : Sim) (e : FillEvent) (n : ℕ)
    → IsReady spec e.side end m
    → e.event_time ≤ end
    → e.qty ≤ spec.quote_qty
    → IsWithin spec (record m { sequence = n; pending = push_fill e m.pending })
push-IsWithin spec end m e n h k q = record {
  room =
      same-HasRoom (limit_of spec) _ _ (on_side bid (push_fill e m.pending))
        (on_side ask (push_fill e m.pending)) m.state m.state refl refl refl
        (omega (arith, push-on_side bid e m.pending, qty_at-le bid e.side _ _ q))
        (omega (arith, push-on_side ask e m.pending, qty_at-le ask e.side _ _ q)) h.room;
  ordered = push-IsOrdered e m.pending h.ordered;
  timely =
      push-All (IsTimely m.available_bid m.available_ask) e m.pending (h.fresh e.event_time k)
        h.timely;
}

pub queue_fill-IsWithin :
    (spec : Spec) (row : Row) (time : Option ℕ) (o : Outcome) (m : Sim)
    → IsReady spec row.side o.order_end m
    → o.fill_qty ≤ spec.quote_qty
    → Checked (IsWithin spec) (queue_fill row time o m)
unfolding queue_fill
queue_fill-IsWithin spec row none o m h q = tt
queue_fill-IsWithin spec row (some t) o m h q =
    elim (Bool-cases (ltb t row.placement || ltb o.order_end t)) [
      | inl e ↦ rw e tt
      | inr e ↦ rw e (push-IsWithin spec o.order_end m _ _ h (ground arith) q)
    ]
