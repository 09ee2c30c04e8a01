-- ===== src/Download.antt =====
-- The client of pyresearch/historical/cryptohftdata.py: a token, requests that resume, and the
-- file beside the destination that keeps what has come. The network is a parameter: what it answers
-- at each attempt, at a token and at an offset.
use crypto_microstructure_ma.Prelude.{
  ℕ, zero, suc, ◌+◌, ◌-◌, ◌^◌, min, Bool, true, false, ◌&&◌, ◌||◌, not, Option, none, some, List,
  [], ◌∷◌, ◌++◌, ltb, ◌==◌, if◌then◌else◌, length,
}
use crypto_microstructure_ma.Prelude.Results.{Fallible, ok, err}
pub mod Prefix
pub mod Retry
pub mod Served
pub mod Cache
pub mod Cached
pub mod Again
mod Tests

-- What a request ends with: an answer, with what could be read of its body and whether the reading
-- failed; an HTTP error; or a connection that fails.
pub data Reply : Type 0 where
  answer : ℕ → Option ℕ → List ℕ → Bool → Reply
  http_error : ℕ → Reply
  io_error : Reply

-- What a request for a token ends with; a payload may have no token.
pub data TokenReply : Type 0 where
  issued : ℕ → TokenReply
  token_missing : TokenReply
  token_http_error : ℕ → TokenReply
  token_io_error : TokenReply

pub record Network : Type 0 where
  pub issue : ℕ → TokenReply
  pub serve : ℕ → ℕ → ℕ → Reply

pub data DownloadError : Type 0 where
  no_token not_found empty_object attempts_exhausted : DownloadError
  http_failed : ℕ → DownloadError

-- The client's token, the destination, the partial file beside it, and the waits so far, the latest
-- first.
pub record Client : Type 0 where
  pub jwt : Option ℕ
  pub destination : Option (List ℕ)
  pub partial : Option (List ℕ)
  pub waits : List ℕ

-- How an attempt ends: the download is done, or raises an error, or is tried again.
pub data Attempt : Type 0 where
  done : Client → Attempt
  raised : DownloadError → Client → Attempt
  again : Client → Attempt

pub record Outcome : Type 0 where
  pub client : Client
  pub result : Fallible DownloadError Bool

abbrev pub bytes_of : Option (List ℕ) → List ℕ
bytes_of none = []
bytes_of (some bs) = bs

-- `append = offset > 0 and status == 206`
unfoldable pub appends : ℕ → ℕ → Bool
appends offset status = ltb 0 offset && status == 206

-- The partial file, after the body has been copied to it.
unfoldable pub copy_body : ℕ → ℕ → List ℕ → List ℕ → List ℕ
copy_body offset status before body = if appends offset status then before ++ body else body

-- `transferred != int(expected_transfer)`
abbrev pub is_incomplete : Option ℕ → ℕ → Bool
is_incomplete none transferred = false
is_incomplete (some expected) transferred = not (expected == transferred)

-- `os.replace(partial, destination)`, unless the file is empty.
unfoldable pub publish : List ℕ → Client → Attempt
publish [] c = raised empty_object (record c { partial = some [] })
publish (b ∷ bs) c = done (record c { destination = some (b ∷ bs); partial = none })

unfoldable pub on_answer : ℕ → ℕ → Option ℕ → List ℕ → Bool → Client → Attempt
on_answer offset status expected body failed c =
    let file = copy_body offset status (bytes_of c.partial) body in
    let before = if appends offset status then offset else 0 in
    if failed || is_incomplete expected (length file - before)
    then again (record c { partial = some file })
    else publish file c

abbrev pub is_retryable : ℕ → Bool
is_retryable code =
    (code == 401)
    || (code == 408)
    || (code == 429)
    || (code == 500)
    || (code == 502)
    || (code == 503)
    || (code == 504)

unfoldable pub on_http_error : ℕ → Client → Attempt
on_http_error code c =
    let cleared = record c { jwt = if code == 401 then none else c.jwt } in
    if code == 404
    then raised not_found cleared
    else if is_retryable code
    then again cleared
    else raised (http_failed code) cleared

unfoldable pub on_reply : ℕ → Reply → Client → Attempt
on_reply offset (answer status expected body failed) c =
    on_answer offset status expected body failed c
on_reply offset (http_error code) c = on_http_error code c
on_reply offset io_error c = again c

-- `self._jwt or self._issue_jwt()`, and the request with the token.
unfoldable pub with_token : Network → ℕ → TokenReply → Client → Attempt
with_token net i (issued token) c =
    let offset = length (bytes_of c.partial) in
    on_reply offset (net.serve i token offset) (record c { jwt = some token })
with_token net i token_missing c = raised no_token c
with_token net i (token_http_error code) c = on_http_error code c
with_token net i token_io_error c = again c

abbrev pub token_reply : Network → ℕ → Option ℕ → TokenReply
token_reply net i none = net.issue i
token_reply net i (some token) = issued token

unfoldable pub attempt : Network → ℕ → Client → Attempt
attempt net i c = with_token net i (token_reply net i c.jwt) c

-- `if attempt + 1 < self._attempts: time.sleep(min(2**attempt, 8))`, where `left` attempts remain.
unfoldable pub wait : ℕ → ℕ → Client → Client
wait zero i c = c
wait (suc left) i c = record c { waits = min (2 ^ i) 8 ∷ c.waits }

-- A download that is done or raises an error leaves the loop.
unfoldable pub after_attempt : Attempt → (Client → Outcome) → Outcome
after_attempt (done c) next = record { client = c; result = ok true }
after_attempt (raised e c) next = record { client = c; result = err e }
after_attempt (again c) next = next c

-- The loop from attempt `i` on, with the attempts that are left.
unfoldable pub try_from : Network → ℕ → ℕ → Client → Outcome
try_from net zero i c = record { client = c; result = err attempts_exhausted }
try_from net (suc left) i c =
    after_attempt (attempt net i c) (λ d. try_from net left (suc i) (wait left i d))

-- Whether a file is there and not empty.
abbrev pub is_present : Option (List ℕ) → Bool
is_present none = false
is_present (some []) = false
is_present (some (b ∷ bs)) = true

unfoldable pub download : Network → ℕ → Client → Outcome
download net attempts c =
    if is_present c.destination
    then record { client = c; result = ok false }
    else try_from net attempts 0 c
