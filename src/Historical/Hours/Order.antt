-- ===== src/Historical/Hours/Order.antt =====
-- The messages of an hour come in the order of their keys.
use crypto_microstructure_ma.Prelude.{
  ◌≡◌, refl, true, false, inl, inr, List, [], ◌∷◌, arith, Bool-cases,
}
use crypto_microstructure_ma.Prelude.Int.{ℤ, ltb_ℤ}
use crypto_microstructure_ma.Historical.Message.{DepthMessage, ordering_key, key_leb}
use crypto_microstructure_ma.Historical.Hours.{insert_message, sort_messages}

-- Keys are compared one way or the other.
key_leb-total : (a b : List ℤ) → key_leb a b ≡ false → key_leb b a ≡ true
unfolding key_leb
key_leb-total [] bs h = absurd (ground arith)
key_leb-total (x ∷ xs) [] h = refl
key_leb-total (x ∷ xs) (y ∷ ys) h = elim (Bool-cases (ltb_ℤ y x)) [
  | inl e ↦ rw e refl
  | inr e ↦ elim (Bool-cases (ltb_ℤ x y)) [
    | inl f ↦ ground arith
    | inr f ↦ rw (e, f) (key_leb-total xs ys (ground arith))
  ]
]

abbrev IsBefore : DepthMessage → List DepthMessage → Type 0
IsBefore m [] = Unit
IsBefore m (n ∷ ns) = key_leb (ordering_key m) (ordering_key n) ≡ true

abbrev pub IsOrdered : List DepthMessage → Type 0
IsOrdered [] = Unit
IsOrdered (m ∷ ms) = IsBefore m ms × IsOrdered ms

insert-IsBefore :
    (m n : DepthMessage) (ns : List DepthMessage)
    → key_leb (ordering_key n) (ordering_key m) ≡ true
    → IsBefore n ns
    → IsBefore n (insert_message m ns)
unfolding insert_message
insert-IsBefore m n [] l h = l
insert-IsBefore m n (k ∷ ks) l h = elim (Bool-cases (key_leb (ordering_key m) (ordering_key k))) [
  | inl e ↦ rw e l
  | inr e ↦ rw e h
]

insert-IsOrdered :
    (m : DepthMessage) (ns : List DepthMessage) → IsOrdered ns → IsOrdered (insert_message m ns)
unfolding insert_message
insert-IsOrdered m [] h = (tt, tt)
insert-IsOrdered m (n ∷ ns) h = elim (Bool-cases (key_leb (ordering_key m) (ordering_key n))) [
  | inl e ↦ rw e (e, h)
  | inr e ↦ rw e (
    insert-IsBefore m n ns (key_leb-total (ordering_key m) (ordering_key n) e) h.0,
    insert-IsOrdered m ns h.1,
  )
]

pub sort_messages-IsOrdered : (ms : List DepthMessage) → IsOrdered (sort_messages ms)
unfolding sort_messages
sort_messages-IsOrdered [] = tt
sort_messages-IsOrdered (m ∷ ms) =
    insert-IsOrdered m (sort_messages ms) (sort_messages-IsOrdered ms)
