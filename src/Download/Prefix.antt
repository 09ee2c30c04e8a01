-- ===== src/Download/Prefix.antt =====
-- What a download leaves in the files, where the network sends the object's bytes.
use crypto_microstructure_ma.Prelude.{
  ℕ, zero, suc, ◌+◌, ◌-◌, ◌≡◌, ◌⊎◌, ◌∙◌, refl, sym, ap, subst, Bool, true, false, ◌||◌, inl, inr,
  Option, none, some, List, [], ◌∷◌, ◌++◌, append_assoc, append-nil, arith, Bool-cases, length,
  drop, length-append, drop-length-append, if◌then◌else◌, ◌==◌, ltb,
}
use crypto_microstructure_ma.Prelude.Results.{ok, err}
use crypto_microstructure_ma.Download.{
  Reply, answer, http_error, io_error, TokenReply, issued, token_missing, token_http_error,
  token_io_error, Network, Client, Attempt, done, raised, again, Outcome, bytes_of, appends,
  copy_body, is_incomplete, publish, on_answer, on_http_error, on_reply, with_token, token_reply,
  attempt, wait, after_attempt, try_from, is_retryable, is_present, download,
}

-- The bytes are the first of the object.
abbrev pub IsPrefix : List ℕ → List ℕ → Type 0
IsPrefix bs object = (rest : List ℕ) × (object ≡ bs ++ rest)

-- The part of the object that an answer to a request at an offset has: the rest, if its status says
-- so, and else the whole.
abbrev pub part_of : List ℕ → ℕ → ℕ → List ℕ
part_of object offset status = if status == 206 then drop offset object else object

pub part_of-appends :
    (object : List ℕ) (offset status : ℕ)
    → part_of object offset status ≡ (if appends offset status then drop offset object else object)
unfolding appends
part_of-appends object zero status = elim (Bool-cases (status == 206)) [
  | inl e ↦ rw e refl
  | inr e ↦ rw e refl
]
part_of-appends object (suc offset) status =
    let asked : ltb 0 (suc offset) ≡ true = ground arith in rw asked refl

-- An answer's body is the first of its part, and the whole part or one of a length that is stated,
-- if the reading did not fail.
abbrev pub SendsPart : List ℕ → Option ℕ → List ℕ → Bool → Type 0
SendsPart part expected body failed =
    IsPrefix body part × (failed ≡ false → (expected ≡ some (length part)) ⊎ (body ≡ part))

abbrev pub IsHonest : List ℕ → ℕ → Reply → Type 0
IsHonest object offset (answer status expected body failed) =
    SendsPart (part_of object offset status) expected body failed
IsHonest object offset (http_error code) = Unit
IsHonest object offset io_error = Unit

-- The partial file has the first bytes of the object, and the destination is as it was.
abbrev pub IsResumable : List ℕ → Option (List ℕ) → Client → Type 0
IsResumable object destination c =
    (c.destination ≡ destination) × IsPrefix (bytes_of c.partial) object

-- The destination is the object, and nothing is left beside it.
abbrev pub IsPublished : List ℕ → Client → Type 0
IsPublished object c = (c.destination ≡ some object) × (c.partial ≡ none)

abbrev EndsWell : List ℕ → Option (List ℕ) → Attempt → Type 0
EndsWell object destination (done c) = IsPublished object c
EndsWell object destination (raised e c) = IsResumable object destination c
EndsWell object destination (again c) = IsResumable object destination c

publish-EndsWell :
    (object file : List ℕ) (c : Client)
    → file ≡ object
    → EndsWell object c.destination (publish file c)
unfolding publish
publish-EndsWell object [] c e = (refl, (object, refl))
publish-EndsWell object (b ∷ bs) c e = (ap some e, refl)

is_incomplete-false : (expected n : ℕ) → is_incomplete (some expected) n ≡ false → n ≡ expected
is_incomplete-false expected n e = ground (arith, e)

prefix-all :
    (body part rest : List ℕ) → part ≡ body ++ rest → length body ≡ length part → body ≡ part
prefix-all body part [] e l = sym (e ∙ append-nil body)
prefix-all body part (r ∷ rest) e l =
    absurd (omega (arith, l, ap length e, length-append body (r ∷ rest)))

-- The file that an answer leaves is first bytes of the object, is the whole object if the body is
-- the whole part, and has the body's bytes past those that it is counted from.
abbrev pub IsCopied : List ℕ → List ℕ → List ℕ → Bool → Type 0
IsCopied object old body appended =
    let file = if appended then old ++ body else body in
    let part = if appended then drop (length old) object else object in
    (IsPrefix body part → IsPrefix file object)
    × (body ≡ part → file ≡ object)
    × (length file ≡ length body + (if appended then length old else 0))
    × (length object ≡ length part + (if appended then length old else 0))

pub answered_file :
    (object old body : List ℕ) (appended : Bool)
    → IsPrefix old object
    → IsCopied object old body appended
answered_file object old body true (r, e) =
    let later : drop (length old) object ≡ r =
      ap (drop (length old)) e ∙ drop-length-append old r in
    (
      λ (q, f). (q, e ∙ ap (◌++◌ old) (sym later ∙ f) ∙ sym (append_assoc old body q)),
      λ f. ap (◌++◌ old) (f ∙ later) ∙ sym e,
      omega (arith, length-append old body),
      omega (arith, ap length e, length-append old r, ap length later),
    )
answered_file object old body false h = (λ q. q, λ f. f, omega arith, omega arith)

-- A reading that did not fail and has the length that is stated has the whole part.
pub is_whole :
    (part body : List ℕ) (expected : Option ℕ) (failed : Bool) (n : ℕ)
    → SendsPart part expected body failed
    → n ≡ length body
    → (failed || is_incomplete expected n) ≡ false
    → body ≡ part
is_whole part body expected true n h l e = absurd (ground (arith, e))
is_whole part body expected false n ((q, f), h) l e = elim (h refl) [
  | inr g ↦ g
  | inl g ↦
      let full : n ≡ length part =
        is_incomplete-false (length part) n (subst (λ x. is_incomplete x n ≡ false) g e) in
      prefix-all body part q f (omega (arith, l, full))
]

on_answer-EndsWell :
    (object : List ℕ) (c : Client) (status : ℕ) (expected : Option ℕ) (body : List ℕ)
    (failed : Bool)
    → IsPrefix (bytes_of c.partial) object
    → IsHonest object (length (bytes_of c.partial)) (answer status expected body failed)
    → EndsWell object c.destination
        (on_answer (length (bytes_of c.partial)) status expected body failed c)
unfolding on_answer copy_body
on_answer-EndsWell object c status expected body failed p h =
    let old = bytes_of c.partial in
    let appended = appends (length old) status in
    let file = if appended then old ++ body else body in
    let n = length file - (if appended then length old else 0) in
    let (first, whole, counted, _) = answered_file object old body appended p in
    let sent =
      subst (λ part. SendsPart part expected body failed)
        (part_of-appends object (length old) status) h in
    elim (Bool-cases (failed || is_incomplete expected n)) [
      | inl e ↦ rw e (refl, first sent.0)
      | inr e ↦ rw e (
          publish-EndsWell object file c
            (whole (is_whole _ body expected failed n sent (omega (arith, counted)) e)))
    ]

on_http_error-EndsWell :
    (object : List ℕ) (code : ℕ) (c : Client)
    → IsPrefix (bytes_of c.partial) object
    → EndsWell object c.destination (on_http_error code c)
unfolding on_http_error
on_http_error-EndsWell object code c p = elim (Bool-cases (code == 404)) [
  | inl e ↦ rw e (refl, p)
  | inr e ↦ elim (Bool-cases (is_retryable code)) [
    | inl f ↦ rw (e, f) (refl, p)
    | inr f ↦ rw (e, f) (refl, p)
  ]
]

on_reply-EndsWell :
    (object : List ℕ) (r : Reply) (c : Client)
    → IsPrefix (bytes_of c.partial) object
    → IsHonest object (length (bytes_of c.partial)) r
    → EndsWell object c.destination (on_reply (length (bytes_of c.partial)) r c)
unfolding on_reply
on_reply-EndsWell object (answer status expected body failed) c p h =
    on_answer-EndsWell object c status expected body failed p h
on_reply-EndsWell object (http_error code) c p h = on_http_error-EndsWell object code c p
on_reply-EndsWell object io_error c p h = (refl, p)

-- What the network answers is honest, at each attempt, token and offset.
abbrev pub IsHonestNetwork : List ℕ → Network → Type 0
IsHonestNetwork object net =
    (i token offset : ℕ) → IsHonest object offset (net.serve i token offset)

with_token-EndsWell :
    (object : List ℕ) (net : Network) (i : ℕ) (t : TokenReply) (c : Client)
    → IsHonestNetwork object net
    → IsPrefix (bytes_of c.partial) object
    → EndsWell object c.destination (with_token net i t c)
unfolding with_token
with_token-EndsWell object net i (issued token) c h p =
    on_reply-EndsWell object _ (record c { jwt = some token }) p
      (h i token (length (bytes_of c.partial)))
with_token-EndsWell object net i token_missing c h p = (refl, p)
with_token-EndsWell object net i (token_http_error code) c h p =
    on_http_error-EndsWell object code c p
with_token-EndsWell object net i token_io_error c h p = (refl, p)

-- How a download ends: with the object published, or as it was but for first bytes of the object in
-- the partial file.
abbrev pub DownloadEnds : List ℕ → Option (List ℕ) → Outcome → Type 0
DownloadEnds object destination o = elim o.result [
  | ok true ↦ IsPublished object o.client
  | ok false ↦ IsResumable object destination o.client
  | err e ↦ IsResumable object destination o.client
]

attempt-EndsWell :
    (object : List ℕ) (net : Network) (i : ℕ) (c : Client)
    → IsHonestNetwork object net
    → IsPrefix (bytes_of c.partial) object
    → EndsWell object c.destination (attempt net i c)
unfolding attempt
attempt-EndsWell object net i c h p =
    with_token-EndsWell object net i (token_reply net i c.jwt) c h p

wait-IsResumable :
    (object : List ℕ) (destination : Option (List ℕ)) (left i : ℕ) (c : Client)
    → IsResumable object destination c
    → IsResumable object destination (wait left i c)
unfolding wait
wait-IsResumable object destination zero i c h = h
wait-IsResumable object destination (suc left) i c h = h

after_attempt-DownloadEnds :
    (object : List ℕ) (destination : Option (List ℕ)) (a : Attempt) (next : Client → Outcome)
    → EndsWell object destination a
    → ((c : Client) → IsResumable object destination c → DownloadEnds object destination (next c))
    → DownloadEnds object destination (after_attempt a next)
unfolding after_attempt
after_attempt-DownloadEnds object destination (done c) next h k = h
after_attempt-DownloadEnds object destination (raised e c) next h k = h
after_attempt-DownloadEnds object destination (again c) next h k = k c h

try_from-DownloadEnds :
    (object : List ℕ) (net : Network) (left i : ℕ) (c : Client) (destination : Option (List ℕ))
    → IsHonestNetwork object net
    → IsResumable object destination c
    → DownloadEnds object destination (try_from net left i c)
unfolding try_from
try_from-DownloadEnds object net zero i c destination h p = p
try_from-DownloadEnds object net (suc left) i c destination h (e, p) =
    after_attempt-DownloadEnds object destination (attempt net i c) _
      (subst (λ d. EndsWell object d (attempt net i c)) e (attempt-EndsWell object net i c h p))
      (λ d q.
        try_from-DownloadEnds object net left (suc i) (wait left i d) destination h
          (wait-IsResumable object destination left i d q))

-- A download from a network that sends the object's bytes, where the partial file has first bytes
-- of the object, ends with the object published and nothing left beside it, if it reports a
-- download; else the destination is as it was, and the partial file has first bytes of the object.
pub download-DownloadEnds :
    (object : List ℕ) (net : Network) (attempts : ℕ) (c : Client)
    → IsHonestNetwork object net
    → IsPrefix (bytes_of c.partial) object
    → DownloadEnds object c.destination (download net attempts c)
unfolding download
download-DownloadEnds object net attempts c h p = elim (Bool-cases (is_present c.destination)) [
  | inl e ↦ rw e (refl, p)
  | inr e ↦ rw e (try_from-DownloadEnds object net attempts 0 c c.destination h (refl, p))
]
