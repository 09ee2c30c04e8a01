-- ===== src/Prelude/Search.antt =====
-- numpy's binary searches of a sorted array, and the window of rows between two of them.
use Prim.Native.Nat.{ℕ, suc, ◌-◌, ◌≤◌, ◌<◌}
use mathlib.Core.Path.{◌≡◌, refl, ap, subst, ◌∙◌}
use mathlib.Core.Logic.{inl, inr}
use mathlib.Core.Bool.{Bool, true, false, ◌&&◌}
use mathlib.Core.List.{List, [], ◌∷◌}
use native.Mathlib.Omega.{arith}
use crypto_microstructure_ma.Prelude.Tests.{ltb, leb, if◌then◌else◌, Bool-cases}
use crypto_microstructure_ma.Prelude.Lists.{take, drop, All}

module _ {ℓ} {A : Type ℓ} where
  -- `np.searchsorted(keys, x, side="right")`: the rows before the first whose key exceeds `x`.
  unfoldable pub search_right : (A → ℕ) → ℕ → List A → ℕ
  search_right key x [] = 0
  search_right key x (a ∷ xs) =
      let rest = search_right key x xs in if leb (key a) x then suc rest else 0

  -- `np.searchsorted(keys, x, side="left")`: the rows before the first whose key is at least `x`.
  unfoldable pub search_left : (A → ℕ) → ℕ → List A → ℕ
  search_left key x [] = 0
  search_left key x (a ∷ xs) =
      let rest = search_left key x xs in if ltb (key a) x then suc rest else 0

  -- `rows[begin:finish]`
  abbrev pub slice : ℕ → ℕ → List A → List A
  slice begin finish xs = take (finish - begin) (drop begin xs)

  unfoldable pub keep_if : (A → Bool) → List A → List A
  keep_if test [] = []
  keep_if test (a ∷ xs) = let rest = keep_if test xs in if test a then a ∷ rest else rest

  -- The keys do not decrease.
  abbrev pub IsAscending : (A → ℕ) → List A → Type 0
  IsAscending key [] = Unit
  IsAscending key (a ∷ xs) = All (λ b. key a ≤ key b) xs × IsAscending key xs

module _ {ℓ} {A : Type ℓ} where
  keep_if-none :
      (test : A → Bool) (xs : List A) → All (λ a. test a ≡ false) xs → keep_if test xs ≡ []
  unfolding keep_if
  keep_if-none test [] h = refl
  keep_if-none test (a ∷ xs) (e, h) = rw e (keep_if-none test xs h)

  All-map {κ κ₂} :
      (P : A → Type κ) (Q : A → Type κ₂) (xs : List A) → ((a : A) → P a → Q a) → All P xs → All Q xs
  All-map P Q [] f h = tt
  All-map P Q (a ∷ xs) f (p, h) = (f a p, All-map P Q xs f h)

  search_right-none :
      (key : A → ℕ) (x : ℕ) (xs : List A) → All (λ a. x < key a) xs → search_right key x xs ≡ 0
  unfolding search_right
  search_right-none key x [] h = refl
  search_right-none key x (a ∷ xs) (l, h) =
      let over : leb (key a) x ≡ false = ground (arith, l) in rw over refl

  take-zero : (xs : List A) (n : ℕ) → take (0 - n) (drop n xs) ≡ []
  take-zero xs n =
      let none_left : 0 ≡ 0 - n = omega arith in subst (λ k. take k (drop n xs) ≡ []) none_left refl

  take-from_first : (a : A) (xs : List A) (n : ℕ) → take (suc n - 0) (a ∷ xs) ≡ a ∷ take (n - 0) xs
  take-from_first a xs n =
      let one_more : suc (n - 0) ≡ suc n - 0 = omega arith in
      subst (λ k. take k (a ∷ xs) ≡ a ∷ take (n - 0) xs) one_more refl

  -- Strictly between two keys.
  abbrev pub is_between : (A → ℕ) → ℕ → ℕ → A → Bool
  is_between key low high a = ltb low (key a) && ltb (key a) high

  -- The rows between the two searches are those whose key lies strictly between.
  pub slice-search :
      (key : A → ℕ) (low high : ℕ) (xs : List A)
      → IsAscending key xs
      → slice (search_right key low xs) (search_left key high xs) xs
        ≡ keep_if (is_between key low high) xs
  unfolding search_right search_left keep_if
  slice-search key low high [] h = ground arith
  slice-search key low high (a ∷ xs) (l, h) =
      let rest = slice-search key low high xs h in
      elim (Bool-cases (ltb (key a) high)) [
        | inr e ↦
            let none_left = keep_if-none (is_between key low high) xs (
              All-map (λ b. key a ≤ key b) (λ b. is_between key low high b ≡ false) xs
                (λ b k. ground (arith, k, e)) l) in
            let out : is_between key low high a ≡ false = ground (arith, e) in
            rw (out, e, none_left) (take-zero (a ∷ xs) _)
        | inl e ↦ elim (Bool-cases (leb (key a) low)) [
          | inl f ↦
              let out : is_between key low high a ≡ false = ground (arith, e, f) in
              rw (out, e, f)
                (subst
                  (λ n.
                    take n (drop (search_right key low xs) xs)
                    ≡ keep_if (is_between key low high) xs)
                  (omega arith) rest)
          | inr f ↦
              let within : is_between key low high a ≡ true = ground (arith, e, f) in
              let zero_left = search_right-none key low xs (
                All-map (λ b. key a ≤ key b) (λ b. low < key b) xs (λ b k. ground (arith, k, f))
                  l) in
              let kept =
                subst
                  (λ n. slice n (search_left key high xs) xs ≡ keep_if (is_between key low high) xs)
                  zero_left rest in
              rw (within, e, f) (take-from_first a xs _ ∙ ap (◌∷◌ a) kept)
        ]
      ]

module _ {ℓ} {A : Type ℓ} where
  pub keep_if-All : (test : A → Bool) (xs : List A) → All (λ a. test a ≡ true) (keep_if test xs)
  unfolding keep_if
  keep_if-All test [] = tt
  keep_if-All test (a ∷ xs) =
      let rest = keep_if-All test xs in
      elim (Bool-cases (test a)) [ inl e ↦ rw e (e, rest) | inr e ↦ rw e rest ]

  All-keep_if {κ} :
      (P : A → Type κ) (test : A → Bool) (xs : List A) → All P xs → All P (keep_if test xs)
  unfolding keep_if
  All-keep_if P test [] h = tt
  All-keep_if P test (a ∷ xs) (p, h) =
      let rest = All-keep_if P test xs h in
      elim (Bool-cases (test a)) [ inl e ↦ rw e (p, rest) | inr e ↦ rw e rest ]

  pub keep_if-IsAscending :
      (key : A → ℕ) (test : A → Bool) (xs : List A)
      → IsAscending key xs
      → IsAscending key (keep_if test xs)
  unfolding keep_if
  keep_if-IsAscending key test [] h = tt
  keep_if-IsAscending key test (a ∷ xs) (l, h) =
      let rest = keep_if-IsAscending key test xs h in
      elim (Bool-cases (test a)) [
        | inl e ↦ rw e (All-keep_if (λ b. key a ≤ key b) test xs l, rest)
        | inr e ↦ rw e rest
      ]
