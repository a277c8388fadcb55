-- ===== src/Disperser/BlobKey.antt =====
-- disperser/disperser.go: blob keys, their text form and its parser.
pub mod RoundTrip
use g_da_client.Common.{
  ℕ, Bool, true, false, ◌&&◌, ◌≡◌, ◌↔◌, Result, ok, err, Comparable, nat_beq, str_beq, str_beq_iff,
  arith, Bytes, List, [], ◌∷◌, ◌++◌, if◌then◌else◌,
}
use g_da_client.Disperser.Status.{Error, invalid_metadata_key}

pub record BlobKey : Type 0 where
  pub blob_hash : Bytes
  pub metadata_hash : Bytes

unfoldable pub key_beq : BlobKey → BlobKey → Bool
key_beq a b = str_beq a.blob_hash b.blob_hash && str_beq a.metadata_hash b.metadata_hash

pub key_beq_iff : (a b : BlobKey) → (key_beq a b ≡ true) ↔ (a ≡ b)
unfolding key_beq
key_beq_iff a b =
    ground (arith, str_beq_iff a.blob_hash b.blob_hash, str_beq_iff a.metadata_hash b.metadata_hash)

instance abbrev pub key_eq : Comparable BlobKey
key_eq = record { same = key_beq; decides = key_beq_iff }

-- `fmt.Sprintf("%s-%s", mk.BlobHash, mk.MetadataHash)`
unfoldable pub to_string : BlobKey → Bytes
to_string k = k.blob_hash ++ b'-' ∷ k.metadata_hash

abbrev cons_first : ℕ → List Bytes → List Bytes
cons_first c [] = (c ∷ []) ∷ []
cons_first c (p ∷ ps) = (c ∷ p) ∷ ps

-- `strings.Split(key, "-")`
unfoldable pub split : Bytes → List Bytes
split [] = [] ∷ []
split (c ∷ cs) = let rest = split cs in if nat_beq c b'-' then [] ∷ rest else cons_first c rest

abbrev of_parts : List Bytes → Result Error BlobKey
of_parts (p ∷ q ∷ []) = ok (record { blob_hash = p; metadata_hash = q })
of_parts _ = err invalid_metadata_key

unfoldable pub parse_blob_key : Bytes → Result Error BlobKey
unfolding split
parse_blob_key key = of_parts (split key)
