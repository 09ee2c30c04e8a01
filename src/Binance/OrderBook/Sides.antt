-- ===== src/Binance/OrderBook/Sides.antt =====
-- A side of the order book (cpp/book/order_book.cpp) as a map from prices to quantities.
use crypto_microstructure_ma.Prelude.{
  ◌≡◌, refl, sym, ap, ◌∙◌, subst, inl, inr, Bool, true, false, Option, none, some, [], ◌∷◌, arith,
  All, Bool-cases, if◌then◌else◌,
}
use crypto_microstructure_ma.Prelude.Int.{ℤ, pos, negsuc}
use crypto_microstructure_ma.Binance.OrderBook.{
  Levels, int_eq, set_level, erase_level, is_negative, apply_level, apply_levels,
}

pub int_eq_sound : (a b : ℤ) → int_eq a b ≡ true → a ≡ b
unfolding int_eq
int_eq_sound (pos a) (pos b) h = ap pos (ground (arith, h))
int_eq_sound (pos a) (negsuc b) h = absurd (cc h)
int_eq_sound (negsuc a) (pos b) h = absurd (cc h)
int_eq_sound (negsuc a) (negsuc b) h = ap negsuc (ground (arith, h))

-- The quantity at a price.
abbrev pub qty_at : ℤ → Levels → Option ℤ
qty_at price [] = none
qty_at price ((p, q) ∷ side) = if int_eq price p then some q else qty_at price side

-- What a list of levels leaves at a price: the quantity of the last level of that price, with zero
-- for none, or what was there.
abbrev pub left_at : ℤ → Levels → Option ℤ → Option ℤ
left_at price [] before = before
left_at price ((p, q) ∷ levels) before =
    left_at price levels
      (if int_eq price p then if int_eq q (pos 0) then none else some q else before)

-- A price that is not negative with a quantity that is positive.
abbrev pub IsLevel : ℤ × ℤ → Type 0
IsLevel (price, qty) =
    is_negative price ≡ false × (is_negative qty ≡ false × int_eq qty (pos 0) ≡ false)

-- Each level is before those that follow.
abbrev pub IsOrdered : (ℤ → ℤ → Bool) → Levels → Type 0
IsOrdered before [] = Unit
IsOrdered before (level ∷ side) =
    All (λ other. before level.0 other.0 ≡ true) side × IsOrdered before side

abbrev pub IsSide : (ℤ → ℤ → Bool) → Levels → Type 0
IsSide before side = IsOrdered before side × All IsLevel side

set_level-All :
    (before : ℤ → ℤ → Bool) (P : ℤ × ℤ → Type 0) (price qty : ℤ) (side : Levels)
    → P (price, qty)
    → All P side
    → All P (set_level before price qty side)
unfolding set_level
set_level-All before P price qty [] h k = (h, tt)
set_level-All before P price qty ((p, q) ∷ side) h k = elim (Bool-cases (int_eq price p)) [
  | inl e ↦ rw e (h, k.1)
  | inr e ↦ rw e (elim (Bool-cases (before price p)) [
    | inl b ↦ rw b (h, k)
    | inr b ↦ rw b (k.0, set_level-All before P price qty side h k.1)
  ])
]

map-All :
    (P Q : ℤ × ℤ → Type 0) (side : Levels)
    → ((level : ℤ × ℤ) → P level → Q level)
    → All P side
    → All Q side
map-All P Q [] f h = tt
map-All P Q (level ∷ side) f h = (f level h.0, map-All P Q side f h.1)

erase_level-All :
    (P : ℤ × ℤ → Type 0) (price : ℤ) (side : Levels) → All P side → All P (erase_level price side)
unfolding erase_level
erase_level-All P price [] k = tt
erase_level-All P price ((p, q) ∷ side) k = elim (Bool-cases (int_eq price p)) [
  | inl e ↦ rw e k.1
  | inr e ↦ rw e (k.0, erase_level-All P price side k.1)
]

int_eq-apart : (a b c : ℤ) → int_eq b c ≡ false → int_eq a c ≡ true → int_eq a b ≡ false
int_eq-apart a b c e h = elim (Bool-cases (int_eq a b)) [
  | inl f ↦ absurd (cc (subst (λ x. int_eq x c ≡ true) (int_eq_sound a b f) h, e))
  | inr f ↦ f
]

set_level-qty_at :
    (before : ℤ → ℤ → Bool) (price qty at : ℤ) (side : Levels)
    → qty_at at (set_level before price qty side)
      ≡ (if int_eq at price then some qty else qty_at at side)
unfolding set_level
set_level-qty_at before price qty at [] = refl
set_level-qty_at before price qty at ((p, q) ∷ side) = elim (Bool-cases (int_eq price p)) [
  | inl e ↦
      rw (e, int_eq_sound price p e)
        (elim (Bool-cases (int_eq at p)) [ inl f ↦ rw f refl | inr f ↦ rw f refl ])
  | inr e ↦ rw e (elim (Bool-cases (before price p)) [
    | inl b ↦ rw b refl
    | inr b ↦
        rw (b, set_level-qty_at before price qty at side)
          (elim (Bool-cases (int_eq at p)) [
            | inl f ↦ rw (f, int_eq-apart at price p e f) refl
            | inr f ↦ rw f refl
          ])
  ])
]

-- A strict order of the prices.
pub record IsStrict (before : ℤ → ℤ → Bool) : Type 0 where
  pub before_irrefl : (a : ℤ) → before a a ≡ false
  pub before_trans : (a b c : ℤ) → before a b ≡ true → before b c ≡ true → before a c ≡ true
  pub before_total : (a b : ℤ) → int_eq a b ≡ false → before a b ≡ false → before b a ≡ true

module _ (before : ℤ → ℤ → Bool) (strict : IsStrict before) where
  qty_at-none :
      (price : ℤ) (side : Levels)
      → All (λ other. before price other.0 ≡ true) side
      → qty_at price side ≡ none
  qty_at-none price [] h = refl
  qty_at-none price ((p, q) ∷ side) h = elim (Bool-cases (int_eq price p)) [
    | inl e ↦
        absurd
          (cc (subst (λ x. before x p ≡ true) (int_eq_sound price p e) h.0, strict.before_irrefl p))
    | inr e ↦ rw e (qty_at-none price side h.1)
  ]

  erase_level-qty_at :
      (price at : ℤ) (side : Levels)
      → IsOrdered before side
      → qty_at at (erase_level price side) ≡ (if int_eq at price then none else qty_at at side)
  unfolding erase_level
  erase_level-qty_at price at [] h = elim (Bool-cases (int_eq at price)) [
    | inl f ↦ rw f refl
    | inr f ↦ rw f refl
  ]
  erase_level-qty_at price at ((p, q) ∷ side) h = elim (Bool-cases (int_eq price p)) [
    | inl e ↦
        rw (e, int_eq_sound price p e)
          (elim (Bool-cases (int_eq at p)) [
            | inl f ↦ rw f (
                subst (λ x. qty_at x side ≡ none) (sym (int_eq_sound at p f))
                  (qty_at-none p side h.0))
            | inr f ↦ rw f refl
          ])
    | inr e ↦
        rw (e, erase_level-qty_at price at side h.1)
          (elim (Bool-cases (int_eq at p)) [
            | inl f ↦ rw (f, int_eq-apart at price p e f) refl
            | inr f ↦ rw f refl
          ])
  ]

  set_level-IsOrdered :
      (price qty : ℤ) (side : Levels)
      → IsOrdered before side
      → IsOrdered before (set_level before price qty side)
  unfolding set_level
  set_level-IsOrdered price qty [] h = (tt, tt)
  set_level-IsOrdered price qty ((p, q) ∷ side) h = elim (Bool-cases (int_eq price p)) [
    | inl e ↦ rw e (
      subst (λ x. All (λ other. before x other.0 ≡ true) side) (sym (int_eq_sound price p e)) h.0,
      h.1,
    )
    | inr e ↦ rw e (elim (Bool-cases (before price p)) [
      | inl b ↦ rw b (
        (
          b,
          map-All (λ other. before p other.0 ≡ true) (λ other. before price other.0 ≡ true) side
              (λ other. strict.before_trans price p other.0 b) h.0,
        ),
        h,
      )
      | inr b ↦ rw b (
        set_level-All before (λ other. before p other.0 ≡ true) price qty side
            (strict.before_total price p e b) h.0,
        set_level-IsOrdered price qty side h.1,
      )
    ])
  ]

  erase_level-IsOrdered :
      (price : ℤ) (side : Levels)
      → IsOrdered before side
      → IsOrdered before (erase_level price side)
  unfolding erase_level
  erase_level-IsOrdered price [] h = tt
  erase_level-IsOrdered price ((p, q) ∷ side) h = elim (Bool-cases (int_eq price p)) [
    | inl e ↦ rw e h.1
    | inr e ↦ rw e (
      erase_level-All (λ other. before p other.0 ≡ true) price side h.0,
      erase_level-IsOrdered price side h.1,
    )
  ]

  -- What one level leaves.
  apply_level_lem :
      (price qty : ℤ) (side : Levels)
      → is_negative price ≡ false
      → is_negative qty ≡ false
      → IsSide before side
      → IsSide before (apply_level before price qty side)
        × ((at : ℤ)
            → qty_at at (apply_level before price qty side) ≡ (
                if int_eq at price
                then if int_eq qty (pos 0) then none else some qty
                else qty_at at side))
  unfolding apply_level
  apply_level_lem price qty side np nq h = elim (Bool-cases (int_eq qty (pos 0))) [
    | inl e ↦ rw e (
      (erase_level-IsOrdered price side h.0, erase_level-All IsLevel price side h.1),
      λ at. erase_level-qty_at price at side h.0,
    )
    | inr e ↦ rw e (
      (
        set_level-IsOrdered price qty side h.0,
        set_level-All before IsLevel price qty side (np, (nq, e)) h.1,
      ),
      λ at. set_level-qty_at before price qty at side,
    )
  ]

  -- What the levels leave: a side, and its quantities where no level is negative.
  abbrev Applied : Levels → Levels → Levels × Bool → Type 0
  Applied levels side r =
      IsSide before r.0
      × (r.1 ≡ true → (at : ℤ) → qty_at at r.0 ≡ left_at at levels (qty_at at side))

  pub apply_levels_lem :
      (levels side : Levels)
      → IsSide before side
      → Applied levels side (apply_levels before levels side)
  unfolding apply_levels
  apply_levels_lem [] side h = (h, λ e at. refl)
  apply_levels_lem ((price, qty) ∷ levels) side h = elim (Bool-cases (is_negative price)) [
    | inl np ↦ rw np (h, λ e. absurd (cc e))
    | inr np ↦ rw np (elim (Bool-cases (is_negative qty)) [
      | inl nq ↦ rw nq (h, λ e. absurd (cc e))
      | inr nq ↦ rw nq (
          let one = apply_level_lem price qty side np nq h in
          let rest = apply_levels_lem levels (apply_level before price qty side) one.0 in
          (rest.0, λ e at. rest.1 e at ∙ ap (left_at at levels) (one.1 at)))
    ])
  ]
