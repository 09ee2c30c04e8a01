-- ===== src/Download/Tests.antt =====
-- A small object of which the first byte is there: the first request fails, and the next is
-- answered with the whole object. And a cached hour.
use crypto_microstructure_ma.Prelude.{
  ℕ, zero, suc, ◌≡◌, refl, sym, ap, true, false, inr, Option, none, some, List, [], ◌∷◌, arith,
  length, ◌<◌,
}
use crypto_microstructure_ma.Prelude.Results.{ok}
use crypto_microstructure_ma.Download.{
  Reply, answer, http_error, io_error, issued, Network, Client, appends, copy_body, publish,
  on_answer, on_http_error, on_reply, with_token, attempt, wait, after_attempt, try_from, download,
}
use crypto_microstructure_ma.Download.Prefix.{
  part_of, IsHonestNetwork, DownloadEnds, download-DownloadEnds,
}
use crypto_microstructure_ma.Download.Retry.{MayFollow, IsPatient, IsServing}
use crypto_microstructure_ma.Download.Served.{download-served}
use crypto_microstructure_ma.Download.Cache.{
  CacheEntry, Formats, CacheState, matches_manifest, check_manifest, keep_table, decompressed,
  ensure_table, entry_of, write_if_changed, finish, ensure_entry, after_download, ensure,
}
use crypto_microstructure_ma.Download.Again.{IsFoundIn, ensure-again}

abbrev small_object : List ℕ
small_object = 7 ∷ 8 ∷ 9 ∷ []

abbrev small_serve : ℕ → ℕ → ℕ → Reply
small_serve zero token offset = io_error
small_serve (suc i) token offset = answer 200 (some 3) small_object false

abbrev small_network : Network
small_network = record { issue = λ i. issued 5; serve = small_serve }

abbrev small_client : Client
small_client = record { jwt = none; destination = none; partial = some (7 ∷ []); waits = [] }

whole_part : (offset : ℕ) → part_of small_object offset 200 ≡ small_object
whole_part offset = refl

small_network-IsHonest : IsHonestNetwork small_object small_network
small_network-IsHonest zero token offset = tt
small_network-IsHonest (suc i) token offset =
    (([], whole_part offset), λ e. inr (sym (whole_part offset)))

small_network-MayFollow :
    (i token offset : ℕ) → offset < 3 → MayFollow small_object offset (small_serve i token offset)
small_network-MayFollow zero token offset l = tt
small_network-MayFollow (suc i) token offset l =
    (sym (ap length (whole_part offset)), λ e. absurd (ground (arith, e)))

small_network-IsPatient : IsPatient small_object small_network
small_network-IsPatient = record {
  tokens = λ i. tt;
  is_honest = small_network-IsHonest;
  replies = small_network-MayFollow;
}

small_network-IsServing : IsServing small_object small_network 1
small_network-IsServing = record {
  token = tt;
  reply = λ token offset l. (sym (whole_part offset), refl);
}

download-DownloadEnds_example :
    DownloadEnds small_object none (download small_network 3 small_client)
download-DownloadEnds_example =
    download-DownloadEnds small_object small_network 3 small_client small_network-IsHonest
      (8 ∷ 9 ∷ [], refl)

download-served_example : (download small_network 3 small_client).result ≡ ok true
download-served_example =
    download-served small_object small_network 3 1 small_client small_network-IsPatient
      small_network-IsServing (omega arith) refl ((8 ∷ 9 ∷ [], refl), omega arith)

-- What the download leaves: the token, the object, and one wait of a second.
small_download : download small_network 3 small_client ≡ record {
  client = record { jwt = some 5; destination = some small_object; partial = none; waits = 1 ∷ [] };
  result = ok true;
}
unfolding appends copy_body publish on_answer on_http_error on_reply with_token attempt wait
    after_attempt try_from download
small_download = refl

abbrev refusing : Network
refusing = record { issue = λ i. issued 5; serve = λ i token offset. http_error 416 }

-- Formats under which a manifest is its two checked fields.
abbrev field_of : List ℕ → Option (Option ℕ × Option ℕ)
field_of (a ∷ b ∷ []) = some (some a, some b)
field_of _ = none

abbrev small_formats : Formats
small_formats = record {
  digest = length;
  decompress = λ bs. some bs;
  metadata = λ bs. some (record { rows = length bs; row_groups = 1; schema_digest = 0 });
  canonical_json = λ e. e.compressed_bytes ∷ e.sha256 ∷ [];
  recorded = field_of;
}

abbrev small_hour : CacheState
small_hour = record {
  client = small_client;
  parquet = none;
  failed_table = none;
  sidecar = none;
  writes = 0;
}

abbrev small_entry : CacheEntry
small_entry = record {
  compressed_bytes = 3;
  parquet_bytes = 3;
  sha256 = 3;
  parquet_rows = 3;
  parquet_row_groups = 1;
  schema_sha256 = 0;
}

abbrev cached_hour : CacheState
cached_hour = record {
  client = record { jwt = some 5; destination = some small_object; partial = none; waits = 1 ∷ [] };
  parquet = some small_object;
  failed_table = none;
  sidecar = some (3 ∷ 3 ∷ []);
  writes = 1;
}

ensure-again_example : IsFoundIn small_formats refusing 0 cached_hour small_entry
unfolding appends copy_body publish on_answer on_http_error on_reply with_token attempt wait
    after_attempt try_from download matches_manifest check_manifest keep_table decompressed
    ensure_table entry_of write_if_changed finish ensure_entry after_download ensure
ensure-again_example =
    ensure-again small_formats small_network refusing 3 0 small_hour (λ entry. refl)
