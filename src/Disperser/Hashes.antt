-- ===== src/Disperser/Hashes.antt =====
-- disperser/disperser.go, disperser/common/memorydb/memorydb.go and disperser/batcher/slice_signer.go:
-- how keys are derived. The digests (SHA-256, Keccak-256) are parameters: what is proved here
-- holds of the texts that they are given.
use mathlib.Core.List.{append_cancel_right}
use g_da_client.Common.{
  ℕ, ◌<◌, ◌^◌, ◌≡◌, sym, ap, ◌∙◌, Bytes, [], ◌∷◌, ◌++◌, encode_to_string,
  encode_to_string-injective, format_uint, format_uint-injective, be_bytes, of_be, of_be-be_bytes,
  length, take, length-append, hex_digit-ne-dash, ◌↔◌, ◌/◌, ◌%◌, length-be_bytes,
  append-cancel_left, arith,
}
use g_da_client.Core.{Blob}
use g_da_client.Disperser.BlobKey.RoundTrip.{NoDash}

-- `hasher.Write(blob.Data)` and the digest, in hexadecimal.
unfoldable pub get_blob_hash : (Bytes → Bytes) → Blob → Bytes
get_blob_hash sha256 blob = encode_to_string (sha256 blob.content)

-- `sha256.New().Sum(bytes)` appends the digest of nothing to `bytes`: it does not hash `bytes`.
unfoldable pub get_metadata_hash : (Bytes → Bytes) → ℕ → Bytes
get_metadata_hash sha256 requested_at =
    encode_to_string ((format_uint requested_at ++ b'/' ∷ []) ++ sha256 [])

-- Two requests at different times have different metadata hashes, whatever the digest.
get_metadata_hash-injective :
    (sha256 : Bytes → Bytes) (m n : ℕ)
    → m < 2 ^ 64
    → n < 2 ^ 64
    → get_metadata_hash sha256 m ≡ get_metadata_hash sha256 n
    → m ≡ n
unfolding get_metadata_hash
get_metadata_hash-injective sha256 m n hm hn h =
    let whole = encode_to_string-injective _ _ h in
    let texts = append_cancel_right _ _ (sha256 []) whole in
    format_uint-injective m n hm hn (append_cancel_right _ _ (b'/' ∷ []) texts)

pub encode_to_string-NoDash : (bs : Bytes) → NoDash (encode_to_string bs)
unfolding encode_to_string
encode_to_string-NoDash [] = tt
encode_to_string-NoDash (b ∷ bs) =
    (hex_digit-ne-dash (b / 16), (hex_digit-ne-dash (b % 16), encode_to_string-NoDash bs))

-- What identifies a confirmed blob for retrieval.
pub record BlobRetrieveMetadata : Type 0 where
  pub data_root : Bytes
  pub epoch : ℕ
  pub quorum_id : ℕ

-- What the three writes hand to the hasher: both numbers go through one 8-byte buffer.
abbrev pub hash_input : Bytes → ℕ → ℕ → Bytes
hash_input root epoch quorum_id = (root ++ be_bytes 8 epoch) ++ be_bytes 8 quorum_id

-- `(*BlobRetrieveMetadata).Hash`, by which the finalizer fills the cache of blob keys.
unfoldable pub retrieve_metadata_hash : (Bytes → Bytes) → BlobRetrieveMetadata → Bytes
retrieve_metadata_hash keccak m = take 32 (keccak (hash_input m.data_root m.epoch m.quorum_id))

-- `GetBlobHash` of slice_signer.go, by which the signer asks the cache.
unfoldable pub signer_blob_hash : (Bytes → Bytes) → Bytes → ℕ → ℕ → Bytes
signer_blob_hash keccak root epoch quorum_id = take 32 (keccak (hash_input root epoch quorum_id))

be64-injective : (a b : ℕ) → a < 2 ^ 64 → b < 2 ^ 64 → be_bytes 8 a ≡ be_bytes 8 b → a ≡ b
be64-injective a b ha hb h = sym (of_be-be_bytes 8 a ha) ∙ ap (of_be 0) h ∙ of_be-be_bytes 8 b hb

hash_input-injective :
    (r s : Bytes) (a b c d : ℕ)
    → length r ≡ length s
    → a < 2 ^ 64
    → b < 2 ^ 64
    → c < 2 ^ 64
    → d < 2 ^ 64
    → hash_input r a c ≡ hash_input s b d
    → (r ≡ s) × (a ≡ b) × (c ≡ d)
hash_input-injective r s a b c d l ha hb hc hd h =
    let outer =
      append-cancel_left (r ++ be_bytes 8 a) (s ++ be_bytes 8 b) _ _
        (omega (
          arith,
          length-append r (be_bytes 8 a),
          length-append s (be_bytes 8 b),
          length-be_bytes 8 a,
          length-be_bytes 8 b,
        ))
        h in
    let inner = append-cancel_left r s _ _ l outer.0 in
    (inner.0, be64-injective a b ha hb inner.1, be64-injective c d hc hd outer.1)

-- The signer and the finalizer derive the same cache key from a blob exactly when its root, epoch
-- and quorum are the same, for roots of one length whose two hasher inputs do not collide.
signer_blob_hash-eq_iff :
    (keccak : Bytes → Bytes) (m : BlobRetrieveMetadata) (root : Bytes) (epoch quorum_id : ℕ)
    → (take 32 (keccak (hash_input root epoch quorum_id))
          ≡ take 32 (keccak (hash_input m.data_root m.epoch m.quorum_id))
        → hash_input root epoch quorum_id ≡ hash_input m.data_root m.epoch m.quorum_id)
    → length root ≡ length m.data_root
    → m.epoch < 2 ^ 64
    → m.quorum_id < 2 ^ 64
    → epoch < 2 ^ 64
    → quorum_id < 2 ^ 64
    → (signer_blob_hash keccak root epoch quorum_id ≡ retrieve_metadata_hash keccak m)
      ↔ ((root ≡ m.data_root) × (epoch ≡ m.epoch) × (quorum_id ≡ m.quorum_id))
unfolding signer_blob_hash retrieve_metadata_hash
signer_blob_hash-eq_iff keccak m root epoch quorum_id free l h1 h2 h3 h4 = (
  λ e.
      hash_input-injective root m.data_root epoch m.epoch quorum_id m.quorum_id l h3 h1 h4 h2
        (free e),
  λ e. ground arith,
)
