-- ===== src/Tests/Keys.antt =====
-- Keys, statuses and the cache of keys on concrete inputs.
use g_da_client.Common.{◌≡◌, ◌↔◌, refl, [], ◌∷◌, ok, Bytes}
use g_da_client.Disperser.BlobKey.{BlobKey, to_string, parse_blob_key}
use g_da_client.Disperser.BlobKey.RoundTrip.{NoDash, parse_blob_key_iff}
use g_da_client.Disperser.KeyCache.{contains}
use g_da_client.Disperser.KeyCache.History.{History, after, newest, added, contains-after-newest}
use g_da_client.Disperser.Hashes.{BlobRetrieveMetadata}

abbrev key : BlobKey
key = record { blob_hash = b'a' ∷ b'1' ∷ []; metadata_hash = b'b' ∷ [] }

abbrev text : Bytes
text = b'a' ∷ b'1' ∷ b'-' ∷ b'b' ∷ []

text_parses : parse_blob_key text ≡ ok key
unfolding parse_blob_key
text_parses = refl

abbrev history : History
history = (7 ∷ [], 2) ∷ (8 ∷ [], 3) ∷ (9 ∷ [], 3) ∷ (7 ∷ [], 1) ∷ []

contains-after-newest_example :
    ((after history).epoch ≡ newest history)
    × (contains (after history) (8 ∷ []) ≡ added (8 ∷ []) (newest history) history)
contains-after-newest_example = contains-after-newest (8 ∷ []) history

abbrev digest : Bytes → Bytes
digest bs = bs

abbrev retrieval : BlobRetrieveMetadata
retrieval = record { data_root = 5 ∷ []; epoch = 3; quorum_id = 1 }

parse_blob_key_iff_example :
    (parse_blob_key text ≡ ok key)
    ↔ ((to_string key ≡ text) × NoDash key.blob_hash × NoDash key.metadata_hash)
parse_blob_key_iff_example = parse_blob_key_iff text key
