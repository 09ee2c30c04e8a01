-- ===== src/Download/Cached.antt =====
-- The files of a cached hour, and that `ensure` finds its entry in them.
use crypto_microstructure_ma.Prelude.{
  ℕ, ◌≡◌, refl, sym, ap, ◌∙◌, Bool, true, false, Option, none, some, List, [], ◌∷◌, ◌==◌, length,
  arith,
}
use crypto_microstructure_ma.Prelude.Results.{ok}
use crypto_microstructure_ma.Download.{Network, bytes_of, is_present, download}
use crypto_microstructure_ma.Download.Cache.{
  TableMetadata, CacheEntry, Formats, CacheState, Step, and_then, matches_manifest, check_manifest,
  ensure_table, entry_of, same_bytes, write_if_changed, finish, ensure_entry, after_download,
  ensure,
}

same_bytes_refl : (xs : List ℕ) → same_bytes xs xs ≡ true
same_bytes_refl [] = refl
same_bytes_refl (x ∷ xs) = ground (arith, same_bytes_refl xs)

pub same_bytes→eq : (xs ys : List ℕ) → same_bytes xs ys ≡ true → xs ≡ ys
same_bytes→eq [] [] e = refl
same_bytes→eq [] (y ∷ ys) e = absurd (ground (arith, e))
same_bytes→eq (x ∷ xs) [] e = absurd (ground (arith, e))
same_bytes→eq (x ∷ xs) (y ∷ ys) e =
    let head : x ≡ y = ground (arith, e) in
    let tail : same_bytes xs ys ≡ true = ground (arith, e) in
    rw (head, same_bytes→eq xs ys tail) refl

-- The files of a cached hour with its entry: an object that is not empty, a table that can be read,
-- and the entry's manifest.
pub record IsCached (f : Formats) (entry : CacheEntry) (s : CacheState) : Type 0 where
  pub table : List ℕ
  pub metadata : TableMetadata
  pub is_there : is_present s.client.destination ≡ true
  pub has_table : s.parquet ≡ some table
  pub is_readable : f.metadata table ≡ some metadata
  pub is_entry : entry ≡ entry_of f (bytes_of s.client.destination) table metadata
  pub has_manifest : s.sidecar ≡ some (f.canonical_json entry)

present-some : (o : Option (List ℕ)) → is_present o ≡ true → (bs : List ℕ) × (o ≡ some bs)
present-some none e = absurd (ground (arith, e))
present-some (some bs) e = (bs, refl)

module _ (f : Formats) (entry : CacheEntry) (s : CacheState) (h : IsCached f entry s) where
  cached-manifest :
      f.recorded (f.canonical_json entry) ≡ some (some entry.compressed_bytes, some entry.sha256)
      → check_manifest f s.client.destination s.sidecar ≡ ok true
  unfolding check_manifest matches_manifest entry_of
  cached-manifest r =
      let (bs, e) = present-some s.client.destination h.is_there in
      let size : entry.compressed_bytes ≡ length bs =
        ap CacheEntry.compressed_bytes h.is_entry ∙ ap (λ o. length (bytes_of o)) e in
      let sum : entry.sha256 ≡ f.digest bs =
        ap CacheEntry.sha256 h.is_entry ∙ ap (λ o. f.digest (bytes_of o)) e in
      let same_size : (entry.compressed_bytes == length bs) ≡ true = ground (arith, size) in
      let same_sum : (entry.sha256 == f.digest bs) ≡ true = ground (arith, sum) in
      rw (e, h.has_manifest, r, same_size, same_sum) refl

  cached-download :
      (net : Network) (attempts : ℕ)
      → download net attempts s.client ≡ record { client = s.client; result = ok false }
  unfolding download
  cached-download net attempts = rw h.is_there refl

  cached-write : write_if_changed (f.canonical_json entry) s ≡ s
  unfolding write_if_changed
  cached-write = rw (h.has_manifest, same_bytes_refl (f.canonical_json entry)) refl

  cached-finish :
      finish f (f.metadata (bytes_of s.parquet)) s ≡ record { files = s; result = ok entry }
  unfolding finish
  cached-finish =
      let found : f.metadata (bytes_of s.parquet) ≡ some h.metadata =
        ap (λ o. f.metadata (bytes_of o)) h.has_table ∙ h.is_readable in
      let compressed = bytes_of s.client.destination in
      let same : entry_of f compressed (bytes_of s.parquet) h.metadata ≡ entry =
        ap (λ o. entry_of f compressed (bytes_of o) h.metadata) h.has_table ∙ sym h.is_entry in
      rw (found, same, cached-write) refl

  cached-table : ensure_table f s.parquet s ≡ record { files = s; result = ok true }
  unfolding ensure_table
  cached-table = ap (λ o. ensure_table f o s) h.has_table

  cached-entry : ensure_entry f s ≡ record { files = s; result = ok entry }
  unfolding ensure_entry
  cached-entry =
      ap
        (λ (t : Step Bool).
          and_then t.files t.result (λ _. finish f (f.metadata (bytes_of t.files.parquet)) t.files))
        cached-table
      ∙ cached-finish

  -- A cached hour is found again.
  pub cached-ensure :
      (net : Network) (attempts : ℕ)
      → f.recorded (f.canonical_json entry) ≡ some (some entry.compressed_bytes, some entry.sha256)
      → ensure f net attempts s ≡ record { files = s; result = ok entry }
  unfolding ensure after_download
  cached-ensure net attempts r = rw (cached-manifest r, cached-download net attempts) cached-entry
