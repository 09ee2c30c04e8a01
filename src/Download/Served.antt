-- ===== src/Download/Served.antt =====
-- A download (pyresearch/historical/cryptohftdata.py) succeeds if one of its attempts is answered in
-- full and none before it is refused.
use crypto_microstructure_ma.Prelude.{
  ℕ, zero, suc, ◌+◌, ◌<◌, ◌≡◌, refl, subst, true, false, List, arith,
}
use crypto_microstructure_ma.Prelude.Results.{ok}
use crypto_microstructure_ma.Download.{
  Network, Client, Attempt, done, raised, again, Outcome, token_reply, attempt, wait, after_attempt,
  try_from, is_present, download,
}
use crypto_microstructure_ma.Download.Retry.{
  IsShort, GoesOn, IsDone, IsPatient, IsServing, with_token-GoesOn, with_token-IsDone,
  token_reply-TokenMayFollow, token_reply-IsIssued,
}

wait-IsShort :
    (object : List ℕ) (left i : ℕ) (c : Client) → IsShort object c → IsShort object (wait left i c)
unfolding wait
wait-IsShort object zero i c h = h
wait-IsShort object (suc left) i c h = h

after_attempt-done :
    (a : Attempt) (next : Client → Outcome) → IsDone a → (after_attempt a next).result ≡ ok true
unfolding after_attempt
after_attempt-done (done c) next h = refl
after_attempt-done (raised e c) next h = elim h [ ]
after_attempt-done (again c) next h = elim h [ ]

after_attempt-again :
    (object : List ℕ) (a : Attempt) (next : Client → Outcome)
    → GoesOn object a
    → ((c : Client) → IsShort object c → (next c).result ≡ ok true)
    → (after_attempt a next).result ≡ ok true
unfolding after_attempt
after_attempt-again object (done c) next h k = refl
after_attempt-again object (raised e c) next h k = elim h [ ]
after_attempt-again object (again c) next h k = k c h

try_from-served :
    (object : List ℕ) (net : Network) (left i k : ℕ) (c : Client)
    → IsPatient object net
    → IsServing object net (i + k)
    → k < left
    → IsShort object c
    → (try_from net left i c).result ≡ ok true
unfolding try_from attempt
try_from-served object net zero i k c h s l p = absurd (omega (arith, l))
try_from-served object net (suc left) i zero c h s l p =
    let now : IsServing object net i = subst (IsServing object net) (omega arith) s in
    after_attempt-done _ _ (
      with_token-IsDone object net i (token_reply net i c.jwt) c h now
        (token_reply-IsIssued net i c.jwt now.token) p)
try_from-served object net (suc left) i (suc k) c h s l p =
    let later : IsServing object net (suc i + k) = subst (IsServing object net) (omega arith) s in
    after_attempt-again object _ _
      (with_token-GoesOn object net i (token_reply net i c.jwt) c h
        (token_reply-TokenMayFollow net i c.jwt (h.tokens i)) p)
      (λ d q.
        try_from-served object net left (suc i) k (wait left i d) h later (omega (arith, l))
          (wait-IsShort object left i d q))

-- A download of an object that is not there yet, from first bytes of it that are not all, reports a
-- download if one of its attempts is answered in full and the network's replies are honest and may
-- be followed by another attempt.
pub download-served :
    (object : List ℕ) (net : Network) (attempts k : ℕ) (c : Client)
    → IsPatient object net
    → IsServing object net k
    → k < attempts
    → is_present c.destination ≡ false
    → IsShort object c
    → (download net attempts c).result ≡ ok true
unfolding download
download-served object net attempts k c h s l e p =
    rw e (
      try_from-served object net attempts 0 k c h (subst (IsServing object net) (omega arith) s) l
        p)
