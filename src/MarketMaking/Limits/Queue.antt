-- ===== src/MarketMaking/Limits/Queue.antt =====
-- The queue of pending fills: its order, what it holds for a side, and what is left of it once
-- the fills that are due have been applied.
use crypto_microstructure_ma.Prelude.{
  ℕ, ◌+◌, ◌≤◌, ◌<◌, ◌≡◌, inl, inr, List, [], ◌∷◌, arith, Bool-cases, leb, All,
}
use crypto_microstructure_ma.MarketMaking.Permission.{Side, bid, ask, Spec, Checked, bind-Checked}
use crypto_microstructure_ma.MarketMaking.Fills.{
  FillEvent, MmState, is_before, push_fill, apply_fill, apply_due, drain,
}
use crypto_microstructure_ma.MarketMaking.Limits.Rooms.{
  qty_at, on_side, HasRoom, limit_of, apply_fill-HasRoom,
}

pub push-on_side :
    (side : Side) (e : FillEvent) (es : List FillEvent)
    → on_side side (push_fill e es) ≡ qty_at side e.side e.qty + on_side side es
unfolding push_fill
push-on_side side e [] = omega arith
push-on_side side e (f ∷ fs) = elim (Bool-cases (is_before e f)) [
  | inl q ↦ rw q (omega arith)
  | inr q ↦ rw q (omega (arith, push-on_side side e fs))
]

pub push-All {κ} :
    (P : FillEvent → Type κ) (e : FillEvent) (es : List FillEvent)
    → P e
    → All P es
    → All P (push_fill e es)
unfolding push_fill
push-All P e [] h k = (h, tt)
push-All P e (f ∷ fs) h k = elim (Bool-cases (is_before e f)) [
  | inl q ↦ rw q (h, k)
  | inr q ↦ rw q (k.0, push-All P e fs h k.1)
]

abbrev IsNotBefore : ℕ → FillEvent → Type 0
IsNotBefore t e = t ≤ e.event_time

-- The order of the heap, as far as times go.
abbrev pub IsOrdered : List FillEvent → Type 0
IsOrdered [] = Unit
IsOrdered (e ∷ es) = All (IsNotBefore e.event_time) es × IsOrdered es

All-weaken {κ μ} :
    {A : Type 0} (P : A → Type κ) (Q : A → Type μ) (es : List A)
    → ((e : A) → P e → Q e)
    → All P es
    → All Q es
All-weaken P Q [] f h = tt
All-weaken P Q (e ∷ es) f h = (f e h.0, All-weaken P Q es f h.1)

pub push-IsOrdered :
    (e : FillEvent) (es : List FillEvent) → IsOrdered es → IsOrdered (push_fill e es)
unfolding push_fill
push-IsOrdered e [] h = (tt, tt)
push-IsOrdered e (f ∷ fs) h = elim (Bool-cases (is_before e f)) [
  | inl q ↦
      let first : e.event_time ≤ f.event_time = ground (arith, q) in
      rw q (
        (
          first,
          All-weaken (IsNotBefore f.event_time) (IsNotBefore e.event_time) fs
              (λ g k. omega (arith, first, k)) h.0,
        ),
        h,
      )
  | inr q ↦
      let second : f.event_time ≤ e.event_time = ground (arith, q) in
      rw q (push-All (IsNotBefore f.event_time) e fs second h.0, push-IsOrdered e fs h.1)
]

abbrev pub IsLater : ℕ → FillEvent → Type 0
IsLater t e = t < e.event_time

-- What is left of the queue: in order, later than the placement, and as it was before.
pub record IsLeft {κ} (spec : Spec) (P : FillEvent → Type κ) (placement : ℕ)
    (r : MmState × List FillEvent) : Type κ where
  pub room : HasRoom (limit_of spec) r.0 (on_side bid r.1) (on_side ask r.1)
  pub ordered : IsOrdered r.1
  pub kept : All P r.1
  pub later : All (IsLater placement) r.1

module _ {κ} (spec : Spec) (P : FillEvent → Type κ) (placement : ℕ) where
  pub apply_due-IsLeft :
      (es : List FillEvent) (s : MmState)
      → HasRoom (limit_of spec) s (on_side bid es) (on_side ask es)
      → IsOrdered es
      → All P es
      → Checked (IsLeft spec P placement) (apply_due spec placement es s)
  unfolding apply_due
  apply_due-IsLeft [] s h o k = record { room = h; ordered = tt; kept = tt; later = tt }
  apply_due-IsLeft (e ∷ es) s h o k = elim (Bool-cases (leb e.event_time placement)) [
    | inl q ↦ rw q (
        bind-Checked (λ t. HasRoom (limit_of spec) t (on_side bid es) (on_side ask es))
          (IsLeft spec P placement) (apply_due spec placement es) (apply_fill spec e s)
          (apply_fill-HasRoom spec e (on_side bid es) (on_side ask es) s h)
          (λ t w. apply_due-IsLeft es t w o.1 k.1))
    | inr q ↦
        let later : placement < e.event_time = ground (arith, q) in
        rw q (record {
          room = h;
          ordered = o;
          kept = k;
          later = (
            later,
            All-weaken (IsNotBefore e.event_time) (IsLater placement) es
                (λ g w. omega (arith, later, w)) o.0,
          );
        })
  ]

pub drain-HasRoom :
    (spec : Spec) (es : List FillEvent) (s : MmState)
    → HasRoom (limit_of spec) s (on_side bid es) (on_side ask es)
    → Checked (λ t. HasRoom (limit_of spec) t 0 0) (drain spec es s)
unfolding drain
drain-HasRoom spec [] s h = h
drain-HasRoom spec (e ∷ es) s h =
    bind-Checked (λ t. HasRoom (limit_of spec) t (on_side bid es) (on_side ask es))
      (λ t. HasRoom (limit_of spec) t 0 0) (drain spec es) (apply_fill spec e s)
      (apply_fill-HasRoom spec e (on_side bid es) (on_side ask es) s h) (drain-HasRoom spec es)
