-- ===== src/SignalSearch/Returns.antt =====
-- What a return at the best bid and ask says.
use crypto_microstructure_ma.Prelude.{
  ℕ, ◌+◌, ◌*◌, ◌/◌, ◌%◌, ◌<◌, ◌≡◌, ◌≢◌, refl, sym, subst, ◌∙◌, inl, inr, true, false, Option, none,
  some, List, [], ◌∷◌, map, arith, Bool-cases, length,
}
use crypto_microstructure_ma.Prelude.Arrays.{equal_finite}
use crypto_microstructure_ma.Prelude.Int.{pos, ◌+ℤ◌, ◌≤ℤ◌, sub_ℕ_parts, eq_of_parts, int_laws}
use crypto_microstructure_ma.Prelude.Results.{Checked}
use crypto_microstructure_ma.SignalSearch.{
  Quote, BboCash, is_tradable, cash_at, cash_of, returns_at, row_at, on_three, bbo_return,
  rows_from, is_misaligned, bbo_returns,
}

-- The books at the decision, the entry and the exit are rows of the day, valid and of one segment,
-- and the quotes of the entry and the exit are there.
pub record IsTradable (qs : List Quote) (latency_steps horizon_steps decision : ℕ) : Type 0 where
  pub at_decision : Quote
  pub at_entry : Quote
  pub at_exit : Quote
  pub decision_row : row_at qs decision ≡ some at_decision
  pub entry_row : row_at qs (decision + latency_steps) ≡ some at_entry
  pub exit_row : row_at qs (decision + horizon_steps) ≡ some at_exit
  pub decision_valid : at_decision.is_valid ≡ true
  pub entry_valid : at_entry.is_valid ≡ true
  pub exit_valid : at_exit.is_valid ≡ true
  pub segment : ℕ
  pub decision_segment : at_decision.segment ≡ some segment
  pub entry_segment : at_entry.segment ≡ some segment
  pub exit_segment : at_exit.segment ≡ some segment
  pub entry_bid : ℕ
  pub entry_ask : ℕ
  pub exit_bid : ℕ
  pub exit_ask : ℕ
  pub entry_bid_quote : at_entry.best_bid ≡ some entry_bid
  pub entry_ask_quote : at_entry.best_ask ≡ some entry_ask
  pub exit_bid_quote : at_exit.best_bid ≡ some exit_bid
  pub exit_ask_quote : at_exit.best_ask ≡ some exit_ask

-- The two positions together lose the spreads of the entry and of the exit, and with the fees no
-- less.
pub record LosesSpreads (entry_bid entry_ask exit_bid exit_ask : ℕ) (c : BboCash) : Type 0 where
  pub pays_spreads :
      c.long_gross +ℤ c.short_gross +ℤ pos ((entry_ask + exit_ask) * 10000)
      ≡ pos ((entry_bid + exit_bid) * 10000)
  pub pays_fees : c.long_net +ℤ c.short_net ≤ℤ c.long_gross +ℤ c.short_gross

-- A row has a return just where it can be traded on.
abbrev pub IsExecutable : List Quote → ℕ → ℕ → ℕ → Option BboCash → Type 0
IsExecutable qs latency_steps horizon_steps decision none =
    ¬ IsTradable qs latency_steps horizon_steps decision
IsExecutable qs latency_steps horizon_steps decision (some c) =
    (t : IsTradable qs latency_steps horizon_steps decision) × LosesSpreads t.entry_bid t.entry_ask
      t.exit_bid t.exit_ask c

spreads : (fee_bps eb ea xb xa : ℕ) → LosesSpreads eb ea xb xa (cash_at fee_bps eb ea xb xa)
unfolding cash_at
spreads fee_bps eb ea xb xa =
    let long = sub_ℕ_parts (xb * 10000) (ea * 10000) in
    let short = sub_ℕ_parts (eb * 10000) (xa * 10000) in
    record {
      pays_spreads = eq_of_parts _ _ (omega (int_laws, long, short));
      pays_fees = omega (int_laws, long, short);
    }

some-injective {ℓ} : {A : Type ℓ} {a b : A} → some a ≡ some b → a ≡ b
some-injective e = cc

equal_finite-some :
    (a b : Option ℕ) → equal_finite a b ≡ true → (s : ℕ) × (a ≡ some s) × (b ≡ some s)
equal_finite-some (some a) (some b) e = (a, refl, ground (arith, e))
equal_finite-some none b e = cc
equal_finite-some (some a) none e = cc

-- What the mask says of the three books.
is_tradable-true :
    (d e x : Quote)
    → is_tradable d e x ≡ true
    → (d.is_valid ≡ true)
      × (e.is_valid ≡ true)
      × (x.is_valid ≡ true)
      × (equal_finite d.segment e.segment ≡ true)
      × (equal_finite d.segment x.segment ≡ true)
unfolding is_tradable
is_tradable-true d e x t =
    (ground (arith, t), ground (arith, t), ground (arith, t), ground (arith, t), ground (arith, t))

cash_of-some :
    (fee_bps : ℕ) (eb ea xb xa : Option ℕ) (c : BboCash)
    → cash_of fee_bps eb ea xb xa ≡ some c
    → (p : ℕ) × (q : ℕ) × (r : ℕ) × (s : ℕ) × (eb ≡ some p)
      × (ea ≡ some q)
      × (xb ≡ some r)
      × (xa ≡ some s)
      × LosesSpreads p q r s c
unfolding cash_of
cash_of-some fee_bps (some p) (some q) (some r) (some s) c e = (
  p,
  q,
  r,
  s,
  refl,
  refl,
  refl,
  refl,
  subst (LosesSpreads p q r s) (some-injective e) (spreads fee_bps p q r s),
)
cash_of-some fee_bps none ea xb xa c e = cc
cash_of-some fee_bps (some p) none xb xa c e = cc
cash_of-some fee_bps (some p) (some q) none xa c e = cc
cash_of-some fee_bps (some p) (some q) (some r) none c e = cc

-- A return that is there comes from three rows that can be traded on.
on_three-some :
    (fee_bps : ℕ) (d e x : Option Quote) (c : BboCash)
    → on_three fee_bps d e x ≡ some c
    → (p : Quote) × (q : Quote) × (r : Quote) × (d ≡ some p)
      × (e ≡ some q)
      × (x ≡ some r)
      × (is_tradable p q r ≡ true)
      × (cash_of fee_bps q.best_bid q.best_ask r.best_bid r.best_ask ≡ some c)
unfolding returns_at
on_three-some fee_bps none e x c h = cc
on_three-some fee_bps (some p) none x c h = cc
on_three-some fee_bps (some p) (some q) none c h = cc
on_three-some fee_bps (some p) (some q) (some r) c h = elim (Bool-cases (is_tradable p q r)) [
  | inl t ↦ (p, q, r, refl, refl, refl, t, ground (arith, h, t))
  | inr t ↦ absurd (ground (arith, h, t))
]

returned :
    (fee_bps l k i : ℕ) (qs : List Quote) (c : BboCash)
    → bbo_return fee_bps l k qs i ≡ some c
    → IsExecutable qs l k i (some c)
unfolding bbo_return
returned fee_bps l k i qs c h =
    let (p, q, r, f, g, x, t, cash) =
      on_three-some fee_bps (row_at qs i) (row_at qs (i + l)) (row_at qs (i + k)) c h in
    let (dv, ev, xv, es, xs) = is_tradable-true p q r t in
    let (s, ds, es') = equal_finite-some p.segment q.segment es in
    let (s', ds', xs') = equal_finite-some p.segment r.segment xs in
    let (eb, ea, xb, xa, ebq, eaq, xbq, xaq, loses) =
      cash_of-some fee_bps q.best_bid q.best_ask r.best_bid r.best_ask c cash in
    (
      record {
        at_decision = p;
        at_entry = q;
        at_exit = r;
        decision_row = f;
        entry_row = g;
        exit_row = x;
        decision_valid = dv;
        entry_valid = ev;
        exit_valid = xv;
        segment = s;
        decision_segment = ds;
        entry_segment = es';
        exit_segment = xs' ∙ sym ds' ∙ ds;
        entry_bid = eb;
        entry_ask = ea;
        exit_bid = xb;
        exit_ask = xa;
        entry_bid_quote = ebq;
        entry_ask_quote = eaq;
        exit_bid_quote = xbq;
        exit_ask_quote = xaq;
      },
      loses,
    )

equal_finite_self : (s : ℕ) → equal_finite (some s) (some s) ≡ true
equal_finite_self s = ground arith

-- Rows that can be traded on have a return.
tradable-returned :
    (fee_bps l k i : ℕ) (qs : List Quote) → IsTradable qs l k i → bbo_return fee_bps l k qs i ≢ none
unfolding bbo_return returns_at is_tradable cash_of
tradable-returned fee_bps l k i qs t =
    rw
      (
        t.decision_row,
        t.entry_row,
        t.exit_row,
        on_three,
        t.decision_valid,
        t.entry_valid,
        t.exit_valid,
        t.decision_segment,
        t.entry_segment,
        t.exit_segment,
        equal_finite_self t.segment,
        t.entry_bid_quote,
        t.entry_ask_quote,
        t.exit_bid_quote,
        t.exit_ask_quote,
        cash_of,
      )
      (λ e. cc)

bbo_return-IsExecutable :
    (fee_bps l k i : ℕ) (qs : List Quote) (o : Option BboCash)
    → bbo_return fee_bps l k qs i ≡ o
    → IsExecutable qs l k i o
bbo_return-IsExecutable fee_bps l k i qs (some c) h = returned fee_bps l k i qs c h
bbo_return-IsExecutable fee_bps l k i qs none h = λ t. tradable-returned fee_bps l k i qs t h

aligned :
    (horizon_ms latency_ms : ℕ)
    → is_misaligned horizon_ms latency_ms ≡ false
    → (horizon_ms % 100 ≡ 0) × (latency_ms % 100 ≡ 0) × (latency_ms < horizon_ms)
aligned horizon_ms latency_ms e = (ground (arith, e), ground (arith, e), ground (arith, e))

rows-length :
    (fee_bps l k i : ℕ) (qs rest : List Quote)
    → length (map (bbo_return fee_bps l k qs) (rows_from i rest)) ≡ length rest
rows-length fee_bps l k i qs [] = refl
rows-length fee_bps l k i qs (q ∷ rest) = omega (arith, rows-length fee_bps l k (i + 1) qs rest)

-- The results of each row, with the row.
abbrev pub EachRow : (ℕ → Option BboCash → Type 0) → ℕ → List (Option BboCash) → Type 0
EachRow P i [] = Unit
EachRow P i (c ∷ cs) = P i c × EachRow P (i + 1) cs

rows-EachRow :
    (fee_bps l k i : ℕ) (qs rest : List Quote)
    → EachRow (IsExecutable qs l k) i (map (bbo_return fee_bps l k qs) (rows_from i rest))
rows-EachRow fee_bps l k i qs [] = tt
rows-EachRow fee_bps l k i qs (q ∷ rest) = (
  bbo_return-IsExecutable fee_bps l k i qs (bbo_return fee_bps l k qs i) refl,
  rows-EachRow fee_bps l k (i + 1) qs rest,
)

-- If the returns are computed, the latency is under the horizon, both are whole tenths of a second,
-- there is a result for each row, and a row has a return just where the books at the decision, at
-- the entry a latency later and at the exit a horizon later are rows of the day, valid and of one
-- segment, with finite quotes at the entry and the exit; the two positions together lose the spreads
-- of the entry and of the exit, and with the fees no less.
pub bbo_returns-EachRow :
    (fee_bps latency_ms horizon_ms : ℕ) (qs : List Quote)
    → Checked
        (λ cs.
          (latency_ms / 100 < horizon_ms / 100)
          × (latency_ms % 100 ≡ 0)
          × (horizon_ms % 100 ≡ 0)
          × (length cs ≡ length qs)
          × EachRow (IsExecutable qs (latency_ms / 100) (horizon_ms / 100)) 0 cs)
        (bbo_returns fee_bps latency_ms horizon_ms qs)
unfolding bbo_returns
bbo_returns-EachRow fee_bps latency_ms horizon_ms qs =
    elim (Bool-cases (is_misaligned horizon_ms latency_ms)) [
      | inl e ↦ rw e tt
      | inr e ↦
          let (a, b, c) = aligned horizon_ms latency_ms e in
          rw e (
            omega (arith, a, b, c),
            b,
            a,
            rows-length fee_bps (latency_ms / 100) (horizon_ms / 100) 0 qs qs,
            rows-EachRow fee_bps (latency_ms / 100) (horizon_ms / 100) 0 qs qs,
          )
    ]
