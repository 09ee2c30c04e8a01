-- ===== src/MarketMaking/Limits/Rooms.antt =====
-- The room that is left to each side of the book, through a fill.
use crypto_microstructure_ma.Prelude.{ℕ, ◌+◌, ◌*◌, ◌≤◌, ◌≡◌, ◌∙◌, List, [], ◌∷◌, arith}
use crypto_microstructure_ma.Prelude.Int.{pos_part, neg_part, abs, int_laws}
use crypto_microstructure_ma.MarketMaking.Permission.{
  Side, bid, ask, other_side, Spec, ok, Checked, bind-Checked,
}
use crypto_microstructure_ma.MarketMaking.Fills.{
  FillStatus, full, partial, unfilled, other_status, FillEvent, MmState, trade, tally_turnover,
  count_status, watch_limit, apply_fill,
}

-- A quantity as it counts for one side.
abbrev pub qty_at : Side → Side → ℕ → ℕ
qty_at bid bid q = q
qty_at ask ask q = q
qty_at _ _ q = 0

abbrev pub on_side : Side → List FillEvent → ℕ
on_side side [] = 0
on_side side (e ∷ es) = qty_at side e.side e.qty + on_side side es

-- With `b` to be bought and `a` to be sold the position stays within the limit, and it has been
-- within it all the time.
pub record HasRoom (limit : ℕ) (s : MmState) (b a : ℕ) : Type 0 where
  pub to_buy : pos_part s.inventory + b ≤ limit + neg_part s.inventory
  pub to_sell : neg_part s.inventory + a ≤ limit + pos_part s.inventory
  pub maximum : s.maximum_absolute_inventory ≤ limit
  pub violations : s.inventory_limit_violations ≡ 0

trade-HasRoom :
    (side : Side) (limit q notional b a : ℕ) (s : MmState)
    → HasRoom limit s (qty_at bid side q + b) (qty_at ask side q + a)
    → Checked (λ t. HasRoom limit t b a) (trade side q notional s)
unfolding trade
trade-HasRoom bid limit q notional b a s h = record {
  to_buy = omega (int_laws, h.to_buy);
  to_sell = omega (int_laws, h.to_sell);
  maximum = h.maximum;
  violations = h.violations;
}
trade-HasRoom ask limit q notional b a s h = record {
  to_buy = omega (int_laws, h.to_buy);
  to_sell = omega (int_laws, h.to_sell);
  maximum = h.maximum;
  violations = h.violations;
}
trade-HasRoom other_side limit q notional b a s h = tt

count_status-HasRoom :
    (status : FillStatus) (spec : Spec) (limit q notional b a : ℕ) (s : MmState)
    → HasRoom limit s b a
    → Checked (λ t. HasRoom limit t b a) (count_status status (tally_turnover spec q notional s))
unfolding count_status tally_turnover
count_status-HasRoom full spec limit q notional b a s h = record {
  to_buy = h.to_buy;
  to_sell = h.to_sell;
  maximum = h.maximum;
  violations = h.violations;
}
count_status-HasRoom partial spec limit q notional b a s h = record {
  to_buy = h.to_buy;
  to_sell = h.to_sell;
  maximum = h.maximum;
  violations = h.violations;
}
count_status-HasRoom unfilled spec limit q notional b a s h = tt
count_status-HasRoom other_status spec limit q notional b a s h = tt

abbrev pub limit_of : Spec → ℕ
limit_of spec = spec.hard_limit + spec.quantity_tolerance

pub abs-within : (limit b a : ℕ) (s : MmState) → HasRoom limit s b a → abs s.inventory ≤ limit
abs-within limit b a s h = ground (arith, h.to_buy, h.to_sell)

watch_limit-HasRoom :
    (spec : Spec) (b a : ℕ) (s : MmState)
    → HasRoom (limit_of spec) s b a
    → HasRoom (limit_of spec) (watch_limit spec s) b a
unfolding watch_limit
watch_limit-HasRoom spec b a s h =
    let within = abs-within (limit_of spec) b a s h in
    record {
      to_buy = h.to_buy;
      to_sell = h.to_sell;
      maximum = omega (arith, within, h.maximum);
      violations = ground (arith, within, h.violations);
    }

pub apply_fill-HasRoom :
    (spec : Spec) (e : FillEvent) (b a : ℕ) (s : MmState)
    → HasRoom (limit_of spec) s (qty_at bid e.side e.qty + b) (qty_at ask e.side e.qty + a)
    → Checked (λ t. HasRoom (limit_of spec) t b a) (apply_fill spec e s)
unfolding apply_fill
apply_fill-HasRoom spec e b a s h =
    let Room : MmState → Type 0 = λ t. HasRoom (limit_of spec) t b a in
    let n = e.qty * e.price in
    bind-Checked Room Room (λ t. ok (watch_limit spec t)) _
      (bind-Checked Room Room (λ t. count_status e.status (tally_turnover spec e.qty n t))
        (trade e.side e.qty n s) (trade-HasRoom e.side (limit_of spec) e.qty n b a s h)
        (count_status-HasRoom e.status spec (limit_of spec) e.qty n b a))
      (watch_limit-HasRoom spec b a)

-- A state with the same position has the same room, and room for less.
pub same-HasRoom :
    (limit b a c d : ℕ) (s t : MmState)
    → t.inventory ≡ s.inventory
    → t.maximum_absolute_inventory ≡ s.maximum_absolute_inventory
    → t.inventory_limit_violations ≡ s.inventory_limit_violations
    → c ≤ b
    → d ≤ a
    → HasRoom limit s b a
    → HasRoom limit t c d
same-HasRoom limit b a c d s t i m v hb ha h = record {
  to_buy = rw i (omega (arith, h.to_buy));
  to_sell = rw i (omega (arith, h.to_sell));
  maximum = rw m h.maximum;
  violations = v ∙ h.violations;
}
