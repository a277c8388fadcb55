-- ===== src/Batcher/Signing/Quorums.antt =====
-- `getSigners` of disperser/batcher/slice_signer.go: who holds which slices of a quorum.
use g_da_client.Common.{
  ℕ, ◌+◌, Option, none, some, List, [], ◌∷◌, ◌++◌, Bytes, bytes_eq, Map, lookup, insert,
  lookup-insert, str_beq_iff, ◌==◌, if◌then◌else◌, ◌≡◌, refl, ap, sym, arith, Option-cases, inl,
  inr,
}
use mathlib.Core.List.{append_assoc, append-nil}
use g_da_client.Batcher.Signing.{group_slices}

-- The places of an address in a quorum, counted from `index`.
abbrev pub places_of : Bytes → ℕ → List Bytes → List ℕ
places_of address index [] = []
places_of address index (a ∷ rest) =
    let later = places_of address (index + 1) rest in if a == address then index ∷ later else later

-- The slices of an address: none, or more of them.
abbrev pub with_more : Option (List ℕ) → List ℕ → Option (List ℕ)
with_more none [] = none
with_more none (i ∷ is) = some (i ∷ is)
with_more (some held) is = some (held ++ is)

with_more-none : (held : Option (List ℕ)) → with_more held [] ≡ held
with_more-none none = refl
with_more-none (some held) = ap some (append-nil held)

grouped :
    (address : Bytes) (addresses : List Bytes) (index : ℕ) (slices : Map Bytes (List ℕ))
    (unique : List Bytes)
    → lookup address (group_slices addresses index slices unique).0
      ≡ with_more (lookup address slices) (places_of address index addresses)
unfolding group_slices
grouped address [] index slices unique = sym (with_more-none (lookup address slices))
grouped address (a ∷ rest) index slices unique = elim (Option-cases (lookup a slices)) [
  | inl new ↦ ground (
    arith,
    grouped address rest (index + 1) (insert a (index ∷ []) slices) (unique ++ a ∷ []),
    lookup-insert a address (index ∷ []) slices,
    str_beq_iff a address,
  )
  | inr (held, old) ↦ ground (
    arith,
    grouped address rest (index + 1) (insert a (held ++ index ∷ []) slices) unique,
    lookup-insert a address (held ++ index ∷ []) slices,
    str_beq_iff a address,
    append_assoc held (index ∷ []) (places_of address (index + 1) rest),
  )
]

-- A signer is known exactly when the quorum lists it, and its slices are all its places in the
-- quorum, in order.
pub group_slices_eq :
    (address : Bytes) (quorum : List Bytes)
    → lookup address (group_slices quorum 0 [] []).0 ≡ with_more none (places_of address 0 quorum)
unfolding lookup
group_slices_eq address quorum = grouped address quorum 0 [] []
