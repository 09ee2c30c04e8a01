-- ===== src/Download/Retry.antt =====
-- An attempt at a download from a network that may be asked again.
use crypto_microstructure_ma.Prelude.{
  ℕ, ◌-◌, ◌<◌, ◌≡◌, refl, ap, Bool, true, false, ◌||◌, inl, inr, Option, none, some, List, [], ◌∷◌,
  ◌++◌, arith, Bool-cases, length, subst, length-append, if◌then◌else◌, ◌==◌,
}
use crypto_microstructure_ma.Download.{
  Reply, answer, http_error, io_error, TokenReply, issued, token_missing, token_http_error,
  token_io_error, Network, Client, Attempt, done, raised, again, bytes_of, appends, copy_body,
  is_incomplete, publish, on_answer, on_http_error, on_reply, with_token, token_reply, is_retryable,
}
use crypto_microstructure_ma.Download.Prefix.{
  IsPrefix, part_of, part_of-appends, SendsPart, IsHonest, answered_file, is_whole, IsHonestNetwork,
}

-- A length that is stated is that of the part.
abbrev pub StatesLength : List ℕ → Option ℕ → Type 0
StatesLength part none = Unit
StatesLength part (some expected) = expected ≡ length part

-- A stated length, and a rest that is left if the reading fails.
abbrev StatesAndRests : List ℕ → Option ℕ → List ℕ → Bool → Type 0
StatesAndRests part expected body failed =
    StatesLength part expected × (failed ≡ true → length body < length part)

-- A reply that can be followed by another attempt: an answer that has a rest left if its reading
-- fails, an error that is retried, or a connection that fails.
abbrev pub MayFollow : List ℕ → ℕ → Reply → Type 0
MayFollow object offset (answer status expected body failed) =
    StatesAndRests (part_of object offset status) expected body failed
MayFollow object offset (http_error code) = is_retryable code ≡ true
MayFollow object offset io_error = Unit

abbrev pub TokenMayFollow : TokenReply → Type 0
TokenMayFollow (issued token) = Unit
TokenMayFollow token_missing = ⊥
TokenMayFollow (token_http_error code) = is_retryable code ≡ true
TokenMayFollow token_io_error = Unit

-- An answer in full.
abbrev pub IsFull : List ℕ → ℕ → Reply → Type 0
IsFull object offset (answer status expected body failed) =
    (body ≡ part_of object offset status) × (failed ≡ false)
IsFull object offset (http_error code) = ⊥
IsFull object offset io_error = ⊥

abbrev pub IsIssued : TokenReply → Type 0
IsIssued (issued token) = Unit
IsIssued _ = ⊥

-- The partial file has first bytes of the object, and not all.
abbrev pub IsShort : List ℕ → Client → Type 0
IsShort object c =
    IsPrefix (bytes_of c.partial) object × (length (bytes_of c.partial) < length object)

-- The attempt is done, or leaves a rest to the next.
abbrev pub GoesOn : List ℕ → Attempt → Type 0
GoesOn object (done c) = Unit
GoesOn object (raised e c) = ⊥
GoesOn object (again c) = IsShort object c

publish-GoesOn :
    (object file : List ℕ) (c : Client)
    → 0 < length object
    → file ≡ object
    → GoesOn object (publish file c)
unfolding publish
publish-GoesOn object [] c l e = absurd (omega (arith, l, ap length e))
publish-GoesOn object (b ∷ bs) c l e = tt

-- An answer in full is published, and one that is not has a rest.
incomplete-short :
    (part body : List ℕ) (expected : Option ℕ) (failed : Bool) (n : ℕ)
    → SendsPart part expected body failed
    → StatesLength part expected
    → (failed ≡ true → length body < length part)
    → n ≡ length body
    → (failed || is_incomplete expected n) ≡ true
    → length body < length part
incomplete-short part body expected true n h g k l e = k refl
incomplete-short part body none false n h g k l e = absurd (ground (arith, e))
incomplete-short part body (some m) false n ((q, f), h) g k l e =
    ground (arith, ap length f, length-append body q, g, l, e)

on_answer-GoesOn :
    (object : List ℕ) (c : Client) (status : ℕ) (expected : Option ℕ) (body : List ℕ)
    (failed : Bool)
    → IsShort object c
    → IsHonest object (length (bytes_of c.partial)) (answer status expected body failed)
    → MayFollow object (length (bytes_of c.partial)) (answer status expected body failed)
    → GoesOn object (on_answer (length (bytes_of c.partial)) status expected body failed c)
unfolding on_answer copy_body
on_answer-GoesOn object c status expected body failed (p, l) h (g, k) =
    let old = bytes_of c.partial in
    let appended = appends (length old) status in
    let file = if appended then old ++ body else body in
    let n = length file - (if appended then length old else 0) in
    let (first, whole, counted, parted) = answered_file object old body appended p in
    let same : n ≡ length body = omega (arith, counted) in
    let (sent, (stated, rest)) =
      subst (λ part. SendsPart part expected body failed × StatesAndRests part expected body failed)
        (part_of-appends object (length old) status) (h, (g, k)) in
    elim (Bool-cases (failed || is_incomplete expected n)) [
      | inl e ↦
          let short = incomplete-short _ body expected failed n sent stated rest same e in
          rw e (first sent.0, omega (arith, short, counted, parted))
      | inr e ↦ rw e (
          publish-GoesOn object file c (omega (arith, l))
            (whole (is_whole _ body expected failed n sent same e)))
    ]

on_http_error-GoesOn :
    (object : List ℕ) (code : ℕ) (c : Client)
    → IsShort object c
    → is_retryable code ≡ true
    → GoesOn object (on_http_error code c)
unfolding on_http_error
on_http_error-GoesOn object code c h e =
    let found : (code == 404) ≡ false = ground (arith, e) in rw (found, e) h

on_reply-GoesOn :
    (object : List ℕ) (r : Reply) (c : Client)
    → IsShort object c
    → IsHonest object (length (bytes_of c.partial)) r
    → MayFollow object (length (bytes_of c.partial)) r
    → GoesOn object (on_reply (length (bytes_of c.partial)) r c)
unfolding on_reply
on_reply-GoesOn object (answer status expected body failed) c l h k =
    on_answer-GoesOn object c status expected body failed l h k
on_reply-GoesOn object (http_error code) c l h k = on_http_error-GoesOn object code c l k
on_reply-GoesOn object io_error c l h k = l

-- An answer in full ends the download.
abbrev pub IsDone : Attempt → Type 0
IsDone (done c) = Unit
IsDone (raised e c) = ⊥
IsDone (again c) = ⊥

publish-IsDone :
    (object file : List ℕ) (c : Client)
    → 0 < length object
    → file ≡ object
    → IsDone (publish file c)
unfolding publish
publish-IsDone object [] c l e = absurd (omega (arith, l, ap length e))
publish-IsDone object (b ∷ bs) c l e = tt

full_complete :
    (part body : List ℕ) (expected : Option ℕ) (failed : Bool) (n : ℕ)
    → body ≡ part
    → failed ≡ false
    → StatesLength part expected
    → n ≡ length body
    → (failed || is_incomplete expected n) ≡ false
full_complete part body none false n f e g l = refl
full_complete part body (some m) false n f e g l = ground (arith, ap length f, g, l)
full_complete part body expected true n f e g l = absurd (ground (arith, e))

on_reply-IsDone :
    (object : List ℕ) (r : Reply) (c : Client)
    → IsShort object c
    → MayFollow object (length (bytes_of c.partial)) r
    → IsFull object (length (bytes_of c.partial)) r
    → IsDone (on_reply (length (bytes_of c.partial)) r c)
unfolding on_reply on_answer copy_body
on_reply-IsDone object (answer status expected body failed) c (p, l) (g, k) (f, e) =
    let old = bytes_of c.partial in
    let appended = appends (length old) status in
    let file = if appended then old ++ body else body in
    let n = length file - (if appended then length old else 0) in
    let (first, whole, counted, parted) = answered_file object old body appended p in
    let (all, stated) =
      subst (λ part. (body ≡ part) × StatesLength part expected)
        (part_of-appends object (length old) status) (f, g) in
    let complete = full_complete _ body expected failed n all e stated (omega (arith, counted)) in
    rw complete (publish-IsDone object file c (omega (arith, l)) (whole all))
on_reply-IsDone object (http_error code) c l k f = elim f [ ]
on_reply-IsDone object io_error c l k f = elim f [ ]

-- The network gives tokens, or errors that are retried, and its replies to a request for a rest of
-- the object are honest and may be followed by another attempt.
pub record IsPatient (object : List ℕ) (net : Network) : Type 0 where
  pub tokens : (i : ℕ) → TokenMayFollow (net.issue i)
  pub is_honest : IsHonestNetwork object net
  pub replies :
      (i token offset : ℕ)
      → offset < length object
      → MayFollow object offset (net.serve i token offset)

-- At an attempt the network gives a token and answers a request for a rest in full.
pub record IsServing (object : List ℕ) (net : Network) (i : ℕ) : Type 0 where
  pub token : IsIssued (net.issue i)
  pub reply :
      (token offset : ℕ) → offset < length object → IsFull object offset (net.serve i token offset)

pub with_token-GoesOn :
    (object : List ℕ) (net : Network) (i : ℕ) (t : TokenReply) (c : Client)
    → IsPatient object net
    → TokenMayFollow t
    → IsShort object c
    → GoesOn object (with_token net i t c)
unfolding with_token
with_token-GoesOn object net i (issued token) c h k l =
    let offset = length (bytes_of c.partial) in
    on_reply-GoesOn object _ (record c { jwt = some token }) l (h.is_honest i token offset)
      (h.replies i token offset l.1)
with_token-GoesOn object net i token_missing c h k l = elim k [ ]
with_token-GoesOn object net i (token_http_error code) c h k l =
    on_http_error-GoesOn object code c l k
with_token-GoesOn object net i token_io_error c h k l = l

pub with_token-IsDone :
    (object : List ℕ) (net : Network) (i : ℕ) (t : TokenReply) (c : Client)
    → IsPatient object net
    → IsServing object net i
    → IsIssued t
    → IsShort object c
    → IsDone (with_token net i t c)
unfolding with_token
with_token-IsDone object net i (issued token) c h s k l =
    let offset = length (bytes_of c.partial) in
    on_reply-IsDone object _ (record c { jwt = some token }) l (h.replies i token offset l.1)
      (s.reply token offset l.1)
with_token-IsDone object net i token_missing c h s k l = elim k [ ]
with_token-IsDone object net i (token_http_error code) c h s k l = elim k [ ]
with_token-IsDone object net i token_io_error c h s k l = elim k [ ]

pub token_reply-TokenMayFollow :
    (net : Network) (i : ℕ) (jwt : Option ℕ)
    → TokenMayFollow (net.issue i)
    → TokenMayFollow (token_reply net i jwt)
token_reply-TokenMayFollow net i none h = h
token_reply-TokenMayFollow net i (some token) h = tt

pub token_reply-IsIssued :
    (net : Network) (i : ℕ) (jwt : Option ℕ)
    → IsIssued (net.issue i)
    → IsIssued (token_reply net i jwt)
token_reply-IsIssued net i none h = h
token_reply-IsIssued net i (some token) h = tt
