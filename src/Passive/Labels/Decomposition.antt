-- ===== src/Passive/Labels/Decomposition.antt =====
-- The marks add up: the maker's mark is the fill's advantage and the move after it, but for what
-- floats round, so that the check of the labels (`attach_markouts` of pyresearch/passive/labeling.py)
-- passes where its tolerance covers five roundings.
use crypto_microstructure_ma.Prelude.Arrays.{flag_at, value_at}
use crypto_microstructure_ma.Prelude.{
  ℕ, zero, suc, ◌+◌, ◌*◌, ◌/◌, ◌≤◌, ◌≡◌, refl, Bool, true, false, Option, none, some, List, [], ◌∷◌,
  map, arith, All, ltb,
}
use crypto_microstructure_ma.Prelude.Results.{ok}
use crypto_microstructure_ma.Passive.Replay.{QuoteSide}
use crypto_microstructure_ma.Passive.Labels.{
  Floats, Samples, FilledOrder, fill_row, mark, where_valid, label_valid, markout_at, no_markout,
  labels_at, fill_time, labels_from, label_order, is_over, is_double_counted, any_double_counted,
  check_labels, attach_markouts,
}
use crypto_microstructure_ma.Passive.Labels.Rounding.{IsAccurate, rest-abs}

abbrev pub Fits : ℕ → Option ℕ → Type 0
Fits limit none = Unit
Fits limit (some v) = v ≤ limit

value_at-Fits :
    (limit : ℕ) (vs : List (Option ℕ)) (i : ℕ) → All (Fits limit) vs → Fits limit (value_at vs i)
value_at-Fits limit [] i h = tt
value_at-Fits limit (v ∷ vs) zero h = h.0
value_at-Fits limit (v ∷ vs) (suc i) h = value_at-Fits limit vs i h.1

off_row-adds_up :
    (floats : Floats) (tolerance : ℕ) (horizons : List ℕ)
    → any_double_counted floats tolerance none (map no_markout horizons) ≡ false
unfolding any_double_counted is_double_counted
off_row-adds_up floats tolerance [] = refl
off_row-adds_up floats tolerance (h ∷ horizons) = off_row-adds_up floats tolerance horizons

module _ (floats : Floats) (limit error tolerance : ℕ) (accurate : IsAccurate floats limit error)
    (covers : 5 * error ≤ tolerance) where
  not_over : (n : ℕ) → n ≤ 5 * error → ltb tolerance n ≡ false
  not_over n h = ground (arith, h, covers)

  mark-adds_up :
      (side : QuoteSide) (future quote at_fill : Option ℕ)
      → Fits limit future
      → Fits limit quote
      → Fits limit at_fill
      → is_over floats tolerance
          (mark floats side future quote)
          (mark floats side at_fill quote)
          (mark floats side future at_fill)
        ≡ false
  mark-adds_up side (some a) (some c) (some b) p r q =
      not_over _ (rest-abs floats limit error accurate side a b c p q r)
  mark-adds_up side none quote at_fill p r q = refl
  mark-adds_up side (some a) none at_fill p r q = refl
  mark-adds_up side (some a) (some c) none p r q = refl

  where_valid-adds_up :
      (fill_valid is_valid : Bool) (side : QuoteSide) (future quote at_fill : Option ℕ)
      → (is_valid ≡ true → fill_valid ≡ true)
      → Fits limit future
      → Fits limit quote
      → Fits limit at_fill
      → is_over floats tolerance
          (where_valid is_valid (mark floats side (where_valid is_valid future) quote))
          (where_valid fill_valid (mark floats side at_fill quote))
          (where_valid is_valid (mark floats side (where_valid is_valid future) at_fill))
        ≡ false
  where_valid-adds_up true true side future quote at_fill h p r q =
      mark-adds_up side future quote at_fill p r q
  where_valid-adds_up false true side future quote at_fill h p r q = absurd (ground (arith, h refl))
  where_valid-adds_up fill_valid false side future quote at_fill h p r q = refl

  module _ (g : Samples) (fitting : All (Fits limit) g.mids) (side : QuoteSide) (quote : Option ℕ)
      (quote_fits : Fits limit quote) where
    markout_at-adds_up :
        (row horizon_ms : ℕ)
        → let fill_valid = flag_at g.valid row in
          is_double_counted floats tolerance
            (where_valid fill_valid (mark floats side (value_at g.mids row) quote))
            (markout_at floats g side quote fill_valid row horizon_ms)
          ≡ false
    unfolding is_double_counted markout_at label_valid
    markout_at-adds_up row horizon_ms =
        where_valid-adds_up (flag_at g.valid row) _ side (value_at g.mids (row + horizon_ms / 100))
          quote (value_at g.mids row) (λ e. ground (arith, e))
          (value_at-Fits limit g.mids _ fitting) quote_fits (value_at-Fits limit g.mids row fitting)

    at_row-adds_up :
        (row : ℕ) (horizons : List ℕ)
        → let fill_valid = flag_at g.valid row in
          any_double_counted floats tolerance
            (where_valid fill_valid (mark floats side (value_at g.mids row) quote))
            (map (markout_at floats g side quote fill_valid row) horizons)
          ≡ false
    unfolding any_double_counted
    at_row-adds_up row [] = refl
    at_row-adds_up row (h ∷ horizons) = rw (markout_at-adds_up row h) (at_row-adds_up row horizons)

    labels_at-adds_up :
        (horizons : List ℕ) (time : ℕ) (row : Option ℕ)
        → let l = labels_at floats g horizons side quote time row in
          any_double_counted floats tolerance l.advantage l.markouts ≡ false
    unfolding labels_at
    labels_at-adds_up horizons time none = off_row-adds_up floats tolerance horizons
    labels_at-adds_up horizons time (some row) = at_row-adds_up row horizons

  labels_from-adds_up :
      (g : Samples) (horizons : List ℕ) (order : FilledOrder) (time : Option ℕ)
      → All (Fits limit) g.mids
      → Fits limit order.quote_price
      → let l = labels_from floats g horizons order time in
        any_double_counted floats tolerance l.advantage l.markouts ≡ false
  unfolding labels_from
  labels_from-adds_up g horizons order none p q =
      labels_at-adds_up g p order.side order.quote_price q horizons 0 none
  labels_from-adds_up g horizons order (some time) p q =
      labels_at-adds_up g p order.side order.quote_price q horizons time (fill_row g time)

  -- Where floats are accurate to an error for prices up to a limit, and the tolerance covers five
  -- errors: if no sample's mid and no quote is over the limit, the labels are attached to every order,
  -- each as it is labelled; the check that a mark is not counted twice does not fail.
  pub attach_markouts-Succeeds :
      (g : Samples) (horizons : List ℕ) (orders : List FilledOrder)
      → All (Fits limit) g.mids
      → All (λ order. Fits limit order.quote_price) orders
      → attach_markouts floats tolerance g horizons orders
        ≡ ok (map (label_order floats g horizons) orders)
  unfolding attach_markouts check_labels label_order
  attach_markouts-Succeeds g horizons [] p q = refl
  attach_markouts-Succeeds g horizons (order ∷ orders) p q =
      rw
        (
          labels_from-adds_up g horizons order (fill_time order) p q.0,
          attach_markouts-Succeeds g horizons orders p q.1,
        )
        refl
