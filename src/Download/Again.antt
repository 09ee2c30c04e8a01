-- ===== src/Download/Again.antt =====
-- A cached hour is stable: what `ensure` has found, it finds again, without a request or a write.
use crypto_microstructure_ma.Prelude.{
  ℕ, zero, suc, ◌-◌, ◌||◌, ◌≡◌, refl, sym, ap, ◌∙◌, Bool, true, Option, none, some, List, [], ◌∷◌,
  ◌==◌, if◌then◌else◌, length, arith, inl, inr, Bool-cases,
}
use crypto_microstructure_ma.Prelude.Results.{Fallible, ok, err}
use crypto_microstructure_ma.Download.{
  Reply, answer, http_error, io_error, TokenReply, issued, token_missing, token_http_error,
  token_io_error, appends, copy_body, is_incomplete, is_retryable, token_reply, Network,
  DownloadError, Client, Attempt, done, raised, again, Outcome, bytes_of, publish, on_answer,
  on_http_error, on_reply, with_token, attempt, wait, after_attempt, try_from, is_present, download,
}
use crypto_microstructure_ma.Download.Cache.{
  cache_result, holds_bytes, TableMetadata, CacheEntry, Formats, CacheError, CacheState, Step,
  and_then, check_manifest, keep_table, decompressed, ensure_table, entry_of, write_if_changed,
  finish, ensure_entry, after_download, ensure,
}
use crypto_microstructure_ma.Download.Cached.{same_bytes→eq, IsCached, cached-ensure}

-- What holds after a step that succeeds.
abbrev pub After {ℓ} : {A : Type ℓ} → (CacheState → A → Type 0) → Step A → Type 0
After P step = elim step.result [ ok a ↦ P step.files a | err e ↦ Unit ]

-- What a done download leaves.
abbrev LeavesObject : Attempt → Type 0
LeavesObject (done c) = is_present c.destination ≡ true
LeavesObject (raised e c) = Unit
LeavesObject (again c) = Unit

publish-LeavesObject : (file : List ℕ) (c : Client) → LeavesObject (publish file c)
unfolding publish
publish-LeavesObject [] c = tt
publish-LeavesObject (b ∷ bs) c = refl

on_http_error-LeavesObject : (code : ℕ) (c : Client) → LeavesObject (on_http_error code c)
unfolding on_http_error
on_http_error-LeavesObject code c = elim (Bool-cases (code == 404)) [
  | inl e ↦ rw e tt
  | inr e ↦ elim (Bool-cases (is_retryable code)) [ inl f ↦ rw (e, f) tt | inr f ↦ rw (e, f) tt ]
]

on_reply-LeavesObject : (offset : ℕ) (r : Reply) (c : Client) → LeavesObject (on_reply offset r c)
unfolding on_reply on_answer
on_reply-LeavesObject offset (answer status expected body failed) c =
    let file = copy_body offset status (bytes_of c.partial) body in
    let n = length file - (if appends offset status then offset else 0) in
    elim (Bool-cases (failed || is_incomplete expected n)) [
      | inl e ↦ rw e tt
      | inr e ↦ rw e (publish-LeavesObject file c)
    ]
on_reply-LeavesObject offset (http_error code) c = on_http_error-LeavesObject code c
on_reply-LeavesObject offset io_error c = tt

with_token-LeavesObject :
    (net : Network) (i : ℕ) (t : TokenReply) (c : Client) → LeavesObject (with_token net i t c)
unfolding with_token
with_token-LeavesObject net i (issued token) c = on_reply-LeavesObject _ _ _
with_token-LeavesObject net i token_missing c = tt
with_token-LeavesObject net i (token_http_error code) c = on_http_error-LeavesObject code c
with_token-LeavesObject net i token_io_error c = tt

abbrev HasObject : Outcome → Type 0
HasObject o = elim o.result [ ok b ↦ is_present o.client.destination ≡ true | err e ↦ Unit ]

after_attempt-HasObject :
    (a : Attempt) (next : Client → Outcome)
    → LeavesObject a
    → ((c : Client) → HasObject (next c))
    → HasObject (after_attempt a next)
unfolding after_attempt
after_attempt-HasObject (done c) next h k = h
after_attempt-HasObject (raised e c) next h k = tt
after_attempt-HasObject (again c) next h k = k c

try_from-HasObject : (net : Network) (left i : ℕ) (c : Client) → HasObject (try_from net left i c)
unfolding try_from attempt
try_from-HasObject net zero i c = tt
try_from-HasObject net (suc left) i c =
    after_attempt-HasObject _ _ (with_token-LeavesObject net i (token_reply net i c.jwt) c)
      (λ d. try_from-HasObject net left (suc i) (wait left i d))

download-HasObject :
    (net : Network) (attempts : ℕ) (c : Client) → HasObject (download net attempts c)
unfolding download
download-HasObject net attempts c = elim (Bool-cases (is_present c.destination)) [
  | inl e ↦ rw e e
  | inr e ↦ rw e (try_from-HasObject net attempts 0 c)
]

and_then-After :
    {A B : Type 0} (P : CacheState → A → Type 0) (Q : CacheState → B → Type 0) (s : CacheState)
    (r : Fallible CacheError A) (next : A → Step B)
    → After P (record { files = s; result = r })
    → ((a : A) → P s a → After Q (next a))
    → After Q (and_then s r next)
and_then-After P Q s (ok a) next h k = k a h
and_then-After P Q s (err e) next h k = tt

-- The object is there, and so is a table.
HasTable : CacheState → Bool → Type 0
HasTable s b =
    (is_present s.client.destination ≡ true) × ((table : List ℕ) × (s.parquet ≡ some table))

keep_table-HasTable :
    (m : Option TableMetadata) (table : List ℕ) (s : CacheState)
    → is_present s.client.destination ≡ true
    → After HasTable (keep_table m table s)
unfolding keep_table HasTable
keep_table-HasTable none table s h = tt
keep_table-HasTable (some m) table s h = (h, (table, refl))

decompressed-HasTable :
    (f : Formats) (o : Option (List ℕ)) (s : CacheState)
    → is_present s.client.destination ≡ true
    → After HasTable (decompressed f o s)
unfolding decompressed
decompressed-HasTable f none s h = tt
decompressed-HasTable f (some table) s h = keep_table-HasTable (f.metadata table) table s h

ensure_table-HasTable :
    (f : Formats) (o : Option (List ℕ)) (s : CacheState)
    → s.parquet ≡ o
    → is_present s.client.destination ≡ true
    → After HasTable (ensure_table f o s)
unfolding ensure_table decompressed HasTable
ensure_table-HasTable f (some table) s e h = (h, (table, e))
ensure_table-HasTable f none s e h =
    decompressed-HasTable f (f.decompress (bytes_of s.client.destination)) s h

holds_bytes→eq :
    (o : Option (List ℕ)) (payload : List ℕ) → holds_bytes o payload ≡ true → o ≡ some payload
holds_bytes→eq none payload e = absurd (ground (arith, e))
holds_bytes→eq (some old) payload e = ap some (same_bytes→eq old payload e)

finish-IsCached :
    (f : Formats) (o : Option TableMetadata) (s : CacheState)
    → f.metadata (bytes_of s.parquet) ≡ o
    → HasTable s true
    → After (λ files entry. IsCached f entry files) (finish f o s)
unfolding finish write_if_changed HasTable
finish-IsCached f none s e h = tt
finish-IsCached f (some m) s e (there, (table, k)) =
    let entry = entry_of f (bytes_of s.client.destination) (bytes_of s.parquet) m in
    let readable : f.metadata table ≡ some m = ap (λ o. f.metadata (bytes_of o)) (sym k) ∙ e in
    let same : entry ≡ entry_of f (bytes_of s.client.destination) table m =
      ap (λ o. entry_of f (bytes_of s.client.destination) (bytes_of o) m) k in
    elim (Bool-cases (holds_bytes s.sidecar (f.canonical_json entry))) [
      | inl q ↦ rw q (record {
        table = table;
        metadata = m;
        is_there = there;
        has_table = k;
        is_readable = readable;
        is_entry = same;
        has_manifest = holds_bytes→eq s.sidecar (f.canonical_json entry) q;
      })
      | inr q ↦ rw q (record {
        table = table;
        metadata = m;
        is_there = there;
        has_table = k;
        is_readable = readable;
        is_entry = same;
        has_manifest = refl;
      })
    ]

ensure_entry-IsCached :
    (f : Formats) (s : CacheState)
    → is_present s.client.destination ≡ true
    → After (λ files entry. IsCached f entry files) (ensure_entry f s)
unfolding ensure_entry HasTable
ensure_entry-IsCached f s h =
    let t = ensure_table f s.parquet s in
    and_then-After HasTable (λ files entry. IsCached f entry files) t.files t.result _
      (ensure_table-HasTable f s.parquet s refl h) (λ b k. finish-IsCached f _ t.files refl k)

cache_result-After :
    (c : Client) (r : Fallible DownloadError Bool) (s : CacheState)
    → s.client ≡ c
    → HasObject (record { client = c; result = r })
    → After {A = Bool}
        (λ files b. is_present files.client.destination ≡ true)
        (record { files = s; result = cache_result r })
cache_result-After c (ok b) s e h = ap (λ d. is_present d.destination) e ∙ h
cache_result-After c (err x) s e h = tt

any-After :
    {A : Type 0} (s : CacheState) (r : Fallible CacheError A)
    → After (λ files (a : A). Unit) (record { files = s; result = r })
any-After s (ok a) = tt
any-After s (err e) = tt

after_download-IsCached :
    (f : Formats) (s : CacheState) (o : Outcome)
    → HasObject o
    → After (λ files entry. IsCached f entry files) (after_download f o s)
unfolding after_download
after_download-IsCached f s o h =
    let downloaded = record s { client = o.client } in
    and_then-After (λ files (b : Bool). is_present files.client.destination ≡ true)
      (λ files entry. IsCached f entry files) downloaded (cache_result o.result) _
      (cache_result-After o.client o.result downloaded refl h)
      (λ b k. ensure_entry-IsCached f downloaded k)

ensure-IsCached :
    (f : Formats) (net : Network) (attempts : ℕ) (s : CacheState)
    → After (λ files entry. IsCached f entry files) (ensure f net attempts s)
unfolding ensure
ensure-IsCached f net attempts s =
    and_then-After (λ files (b : Bool). Unit) (λ files entry. IsCached f entry files) s
      (check_manifest f s.client.destination s.sidecar) _ (any-After s _)
      (λ b k.
        after_download-IsCached f s (download net attempts s.client)
          (download-HasObject net attempts s.client))

After-map :
    {A : Type 0} (P Q : CacheState → A → Type 0) (s : CacheState) (r : Fallible CacheError A)
    → ((a : A) → P s a → Q s a)
    → After P (record { files = s; result = r })
    → After Q (record { files = s; result = r })
After-map P Q s (ok a) k h = k a h
After-map P Q s (err e) k h = tt

-- A run with this network finds the entry in these files, and leaves them as they are.
abbrev pub IsFoundIn : Formats → Network → ℕ → CacheState → CacheEntry → Type 0
IsFoundIn f net attempts s entry = ensure f net attempts s ≡ record { files = s; result = ok entry }

-- What `ensure` has found, it finds again: after a run that succeeds, a run with any network has
-- the same entry, and leaves the files as they are, with no further write, if the checked fields of
-- a manifest are read as they are written.
pub ensure-again :
    (f : Formats) (net later_net : Network) (attempts later_attempts : ℕ) (s : CacheState)
    → ((entry : CacheEntry)
        → f.recorded (f.canonical_json entry)
          ≡ some (some entry.compressed_bytes, some entry.sha256))
    → After (IsFoundIn f later_net later_attempts) (ensure f net attempts s)
ensure-again f net later_net attempts later_attempts s r =
    let st = ensure f net attempts s in
    After-map (λ files entry. IsCached f entry files) (IsFoundIn f later_net later_attempts)
      st.files st.result
      (λ entry h. cached-ensure f entry st.files h later_net later_attempts (r entry))
      (ensure-IsCached f net attempts s)
