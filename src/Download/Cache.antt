-- ===== src/Download/Cache.antt =====
-- `HourlyCache` of pyresearch/historical/cryptohftdata.py: an hour's compressed object, its table,
-- and the manifest beside it. The digest, the decompression, the table's metadata and the JSON of a
-- manifest are other packages' and a parameter.
use crypto_microstructure_ma.Prelude.{
  ℕ, ◌+◌, Bool, true, false, ◌&&◌, Option, none, some, List, [], ◌∷◌, ◌==◌, if◌then◌else◌, length,
}
use crypto_microstructure_ma.Prelude.Results.{Fallible, ok, err}
use crypto_microstructure_ma.Download.{Network, DownloadError, Client, Outcome, bytes_of, download}

pub record TableMetadata : Type 0 where
  pub rows : ℕ
  pub row_groups : ℕ
  pub schema_digest : ℕ

-- The entry of an object in the manifest, without its paths, which are those of its hour.
pub record CacheEntry : Type 0 where
  pub compressed_bytes : ℕ
  pub parquet_bytes : ℕ
  pub sha256 : ℕ
  pub parquet_rows : ℕ
  pub parquet_row_groups : ℕ
  pub schema_sha256 : ℕ

-- What the cache has from other packages. `recorded` is the two fields of a manifest that are
-- checked, where the manifest can be read.
pub record Formats : Type 0 where
  pub digest : List ℕ → ℕ
  pub decompress : List ℕ → Option (List ℕ)
  pub metadata : List ℕ → Option TableMetadata
  pub canonical_json : CacheEntry → List ℕ
  pub recorded : List ℕ → Option (Option ℕ × Option ℕ)

pub data CacheError : Type 0 where
  unreadable_manifest manifest_mismatch bad_frame bad_table : CacheError
  download_error : DownloadError → CacheError

-- The files of one hour: the client's, the table, a table that could not be read, and
-- the manifest with the number of times that it was written.
pub record CacheState : Type 0 where
  pub client : Client
  pub parquet : Option (List ℕ)
  pub failed_table : Option (List ℕ)
  pub sidecar : Option (List ℕ)
  pub writes : ℕ

abbrev pub cache_result : Fallible DownloadError Bool → Fallible CacheError Bool
cache_result (ok b) = ok b
cache_result (err e) = err (download_error e)

-- The files after a step, which remain if it raises an error.
pub record Step {ℓ} (A : Type ℓ) : Type ℓ where
  pub files : CacheState
  pub result : Fallible CacheError A

abbrev pub and_then {ℓ κ} :
    {A : Type ℓ} {B : Type κ} → CacheState → Fallible CacheError A → (A → Step B) → Step B
and_then s (ok a) f = f a
and_then s (err e) f = record { files = s; result = err e }

abbrev is_same : Option ℕ → ℕ → Bool
is_same none n = false
is_same (some m) n = m == n

unfoldable pub matches_manifest :
    Formats → List ℕ → Option (Option ℕ × Option ℕ) → Fallible CacheError Bool
matches_manifest f compressed none = err unreadable_manifest
matches_manifest f compressed (some (size, sha256)) =
    if is_same size (length compressed) && is_same sha256 (f.digest compressed)
    then ok true
    else err manifest_mismatch

-- The check of an object that is there against its manifest.
unfoldable pub check_manifest :
    Formats → Option (List ℕ) → Option (List ℕ) → Fallible CacheError Bool
check_manifest f (some compressed) (some sidecar) =
    matches_manifest f compressed (f.recorded sidecar)
check_manifest f none sidecar = ok true
check_manifest f (some compressed) none = ok true

-- A table that can be read is kept as the hour's, and another beside it.
unfoldable pub keep_table : Option TableMetadata → List ℕ → CacheState → Step Bool
keep_table none table s = record {
  files = record s { failed_table = some table };
  result = err bad_table;
}
keep_table (some m) table s = record { files = record s { parquet = some table }; result = ok true }

unfoldable pub decompressed : Formats → Option (List ℕ) → CacheState → Step Bool
decompressed f none s = record { files = s; result = err bad_frame }
decompressed f (some table) s = keep_table (f.metadata table) table s

-- `if not parquet.exists(): self._decompress(compressed, parquet)`
unfoldable pub ensure_table : Formats → Option (List ℕ) → CacheState → Step Bool
ensure_table f none s = decompressed f (f.decompress (bytes_of s.client.destination)) s
ensure_table f (some table) s = record { files = s; result = ok true }

unfoldable pub entry_of : Formats → List ℕ → List ℕ → TableMetadata → CacheEntry
entry_of f compressed table m = record {
  compressed_bytes = length compressed;
  parquet_bytes = length table;
  sha256 = f.digest compressed;
  parquet_rows = m.rows;
  parquet_row_groups = m.row_groups;
  schema_sha256 = m.schema_digest;
}

abbrev pub same_bytes : List ℕ → List ℕ → Bool
same_bytes [] [] = true
same_bytes (a ∷ xs) (b ∷ bs) = (a == b) && same_bytes xs bs
same_bytes [] (b ∷ bs) = false
same_bytes (a ∷ xs) [] = false

abbrev pub holds_bytes : Option (List ℕ) → List ℕ → Bool
holds_bytes none payload = false
holds_bytes (some old) payload = same_bytes old payload

-- `_write_if_changed` of the manifest.
unfoldable pub write_if_changed : List ℕ → CacheState → CacheState
write_if_changed payload s =
    if holds_bytes s.sidecar payload
    then s
    else record s { sidecar = some payload; writes = s.writes + 1 }

unfoldable pub finish : Formats → Option TableMetadata → CacheState → Step CacheEntry
finish f none s = record { files = s; result = err bad_table }
finish f (some m) s =
    let entry = entry_of f (bytes_of s.client.destination) (bytes_of s.parquet) m in
    record { files = write_if_changed (f.canonical_json entry) s; result = ok entry }

-- `HourlyCache.ensure`, once the object is there: the table, its metadata and the manifest.
unfoldable pub ensure_entry : Formats → CacheState → Step CacheEntry
ensure_entry f s =
    let t = ensure_table f s.parquet s in
    and_then t.files t.result (λ _. finish f (f.metadata (bytes_of t.files.parquet)) t.files)

unfoldable pub after_download : Formats → Outcome → CacheState → Step CacheEntry
after_download f o s =
    let downloaded = record s { client = o.client } in
    and_then downloaded (cache_result o.result) (λ _. ensure_entry f downloaded)

-- `HourlyCache.ensure`
unfoldable pub ensure : Formats → Network → ℕ → CacheState → Step CacheEntry
ensure f net attempts s =
    and_then s (check_manifest f s.client.destination s.sidecar)
      (λ _. after_download f (download net attempts s.client) s)
