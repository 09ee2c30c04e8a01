-- ===== src/Historical/Hours/Levels.antt =====
-- No level of an hour's file is lost or doubled, and the messages come in order.
use crypto_microstructure_ma.Prelude.{
  ℕ, suc, ◌+◌, ◌≡◌, refl, subst, inl, inr, Option, none, some, List, [], ◌∷◌, ◌++◌, arith,
  Bool-cases, length, length-append,
}
use crypto_microstructure_ma.Prelude.Results.{ok, Checked, bind-Checked}
use crypto_microstructure_ma.Historical.Message.{
  Text, text_eq, DepthMessage, add_level, ordering_key, key_leb,
}
use crypto_microstructure_ma.Historical.Hours.{
  LevelRow, Grouping, same_identity, new_message, spool, set_current, add_row, is_supported,
  begin_message, group_with, group_rows, close_grouping, insert_message, sort_messages,
  hour_messages,
}
use crypto_microstructure_ma.Historical.Hours.Order.{IsOrdered, sort_messages-IsOrdered}

abbrev levels : DepthMessage → ℕ
levels m = length m.bids + length m.asks

abbrev pub total_levels : List DepthMessage → ℕ
total_levels [] = 0
total_levels (m ∷ ms) = levels m + total_levels ms

total_levels-append :
    (ms ns : List DepthMessage) → total_levels (ms ++ ns) ≡ total_levels ms + total_levels ns
total_levels-append [] ns = omega arith
total_levels-append (m ∷ ms) ns = omega (arith, total_levels-append ms ns)

insert-total_levels :
    (m : DepthMessage) (ns : List DepthMessage)
    → total_levels (insert_message m ns) ≡ levels m + total_levels ns
unfolding insert_message
insert-total_levels m [] = refl
insert-total_levels m (n ∷ ns) = elim (Bool-cases (key_leb (ordering_key m) (ordering_key n))) [
  | inl e ↦ rw e refl
  | inr e ↦ rw e (omega (arith, insert-total_levels m ns))
]

sort-total_levels : (ms : List DepthMessage) → total_levels (sort_messages ms) ≡ total_levels ms
unfolding sort_messages
sort-total_levels [] = refl
sort-total_levels (m ∷ ms) =
    omega (arith, insert-total_levels m (sort_messages ms), sort-total_levels ms)

-- The levels of all the messages so far.
abbrev grouped : Grouping → ℕ
grouped g = total_levels (close_grouping g.current g)

-- A level that joins a message.
abbrev HasLevels : ℕ → Option DepthMessage → Type 0
HasLevels n none = Unit
HasLevels n (some m) = levels m ≡ n

add_level-HasLevels :
    (side price quantity : Text) (m : DepthMessage)
    → HasLevels (suc (levels m)) (add_level side price quantity m)
unfolding add_level
add_level-HasLevels side price quantity m =
    elim (Bool-cases (text_eq side (b'b' ∷ b'i' ∷ b'd' ∷ []))) [
      | inl e ↦ rw e (omega (arith, length-append m.bids ((price, quantity) ∷ [])))
      | inr e ↦ elim (Bool-cases (text_eq side (b'a' ∷ b's' ∷ b'k' ∷ []))) [
        | inl f ↦ rw (e, f) (omega (arith, length-append m.asks ((price, quantity) ∷ [])))
        | inr f ↦ rw (e, f) tt
      ]
    ]

abbrev HasGrouped : ℕ → Grouping → Type 0
HasGrouped n g = grouped g ≡ n

set_current-HasGrouped :
    (row : LevelRow) (n : ℕ) (o : Option DepthMessage) (g : Grouping)
    → HasLevels n o
    → Checked (HasGrouped (total_levels g.spooled + n)) (set_current row o g)
unfolding set_current close_grouping
set_current-HasGrouped row n none g h = tt
set_current-HasGrouped row n (some m) g h = omega (arith, h, total_levels-append g.spooled (m ∷ []))

begin_message-HasGrouped :
    (source : Text) (row : LevelRow) (g : Grouping)
    → Checked (HasGrouped (total_levels g.spooled + 1)) (begin_message source row g)
unfolding begin_message add_row new_message
begin_message-HasGrouped source row g = elim (Bool-cases (is_supported row.event_type)) [
  | inl e ↦
      rw e
        (set_current-HasGrouped row 1 _ _ (add_level-HasLevels row.side row.price row.quantity _))
  | inr e ↦ rw e tt
]

group_with-HasGrouped :
    (source : Text) (row : LevelRow) (o : Option (LevelRow × DepthMessage)) (g : Grouping)
    → Checked (HasGrouped (suc (total_levels (close_grouping o g)))) (group_with source row o g)
unfolding group_with close_grouping add_row spool
group_with-HasGrouped source row none g =
    subst (λ n. Checked (HasGrouped n) (begin_message source row g)) (omega arith)
      (begin_message-HasGrouped source row g)
group_with-HasGrouped source row (some (first, m)) g =
    let all = total_levels-append g.spooled (m ∷ []) in
    elim (Bool-cases (same_identity row first)) [
      | inl e ↦ rw e (
          subst (λ n. Checked (HasGrouped n) (add_row row m g)) (omega (arith, all))
            (set_current-HasGrouped row (suc (levels m)) _ g
              (add_level-HasLevels row.side row.price row.quantity m)))
      | inr e ↦ rw e (
          subst (λ n. Checked (HasGrouped n) (begin_message source row (spool m g))) (omega arith)
            (begin_message-HasGrouped source row (spool m g)))
    ]

group_rows-HasGrouped :
    (source : Text) (rows : List LevelRow) (g : Grouping)
    → Checked (HasGrouped (grouped g + length rows)) (group_rows source rows g)
unfolding group_rows
group_rows-HasGrouped source [] g = omega arith
group_rows-HasGrouped source (row ∷ rows) g =
    bind-Checked (HasGrouped (suc (grouped g))) (HasGrouped (grouped g + suc (length rows)))
      (group_rows source rows) (group_with source row g.current g)
      (group_with-HasGrouped source row g.current g)
      (λ h k.
        subst (λ n. Checked (HasGrouped n) (group_rows source rows h)) (omega (arith, k))
          (group_rows-HasGrouped source rows h))

abbrev pub IsHour : List LevelRow → List DepthMessage → Type 0
IsHour rows ms = IsOrdered ms × (total_levels ms ≡ length rows)

-- The messages of an hour that can be read come in the order of their keys, and have together as
-- many levels as the file has rows.
pub hour_messages-IsHour :
    (source : Text) (rows : List LevelRow) (ms : List DepthMessage)
    → hour_messages source rows ≡ ok ms
    → IsHour rows ms
unfolding hour_messages close_grouping
hour_messages-IsHour source rows ms e = subst (Checked (IsHour rows)) e (
    let empty : Grouping = record { current = none; ordinal = 0; spooled = [] } in
    bind-Checked (HasGrouped (grouped empty + length rows)) (IsHour rows)
      (λ g. ok (sort_messages (close_grouping g.current g))) (group_rows source rows empty)
      (group_rows-HasGrouped source rows empty)
      (λ g h. (
        sort_messages-IsOrdered (close_grouping g.current g),
        omega (arith, h, sort-total_levels (close_grouping g.current g)),
      )))
