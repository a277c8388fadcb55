-- ===== src/Disperser/KeyCache.antt =====
-- disperser/disperser.go: `BlobKeyCache`, the keys of the newest epoch that was added.
pub mod History
use g_da_client.Common.{
  ℕ, Bool, true, false, none, some, Bytes, bytes_eq, Map, [], lookup, insert, ltb, nat_beq,
  if◌then◌else◌,
}

pub record BlobKeyCache : Type 0 where
  pub keys : Map Bytes Bool
  pub epoch : ℕ

-- As the commands make it: no keys, epoch 0.
abbrev pub fresh : BlobKeyCache
fresh = record { keys = []; epoch = 0 }

unfoldable pub add : Bytes → ℕ → BlobKeyCache → BlobKeyCache
add key epoch b =
    if ltb b.epoch epoch
    then record { keys = insert key true []; epoch = epoch }
    else if nat_beq b.epoch epoch
    then record b { keys = insert key true b.keys }
    else b

unfoldable pub contains : BlobKeyCache → Bytes → Bool
contains b key = elim (lookup key b.keys) [ none ↦ false | some _ ↦ true ]
