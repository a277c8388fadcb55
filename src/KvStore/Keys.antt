-- ===== src/KvStore/Keys.antt =====
-- The expiration keys of disperser/store.go: they are read back, and their order is that of the
-- times, on which the scan for expired batches relies.
use g_da_client.Common.{
  ℕ, zero, suc, ◌/◌, ◌%◌, ◌^◌, ◌<◌, Bool, true, false, ◌||◌, ◌&&◌, [], ◌∷◌, ◌++◌, Bytes, ok,
  be_bytes, of_be, of_be-be_bytes, length-be_bytes, div_below, length, ltb, nat_beq, str_beq,
  str_beq_iff, if◌then◌else◌, ◌≡◌, refl, ap, sym, ◌∙◌, arith,
}
use g_da_client.KvStore.{
  batch_expiration_prefix, encode_batch_expiration_key, decode_batch_expiration_key,
}

-- The order of the database on its keys (`bytes.Compare`).
unfoldable pub bytes_ltb : Bytes → Bytes → Bool
bytes_ltb [] [] = false
bytes_ltb [] (y ∷ ys) = true
bytes_ltb (x ∷ xs) [] = false
bytes_ltb (x ∷ xs) (y ∷ ys) =
    let later = bytes_ltb xs ys in if ltb x y then true else if nat_beq x y then later else false

bytes_ltb-append : (p xs ys : Bytes) → bytes_ltb (p ++ xs) (p ++ ys) ≡ bytes_ltb xs ys
unfolding bytes_ltb
bytes_ltb-append [] xs ys = refl
bytes_ltb-append (c ∷ cs) xs ys = ground (arith, bytes_ltb-append cs xs ys)

bytes_ltb-last :
    (xs ys : Bytes) (a b : ℕ)
    → length xs ≡ length ys
    → bytes_ltb (xs ++ a ∷ []) (ys ++ b ∷ []) ≡ bytes_ltb xs ys || (str_beq xs ys && ltb a b)
unfolding bytes_ltb str_beq
bytes_ltb-last [] [] a b h = ground arith
bytes_ltb-last [] (y ∷ ys) a b h = absurd (omega arith)
bytes_ltb-last (x ∷ xs) [] a b h = absurd (omega arith)
bytes_ltb-last (x ∷ xs) (y ∷ ys) a b h = ground (arith, bytes_ltb-last xs ys a b (omega arith))

-- Numbers that fit are equal where their bytes are.
str_beq-be_bytes :
    (k a b : ℕ) → a < 256 ^ k → b < 256 ^ k → str_beq (be_bytes k a) (be_bytes k b) ≡ nat_beq a b
str_beq-be_bytes k a b ha hb = ground (
  arith,
  str_beq_iff (be_bytes k a) (be_bytes k b),
  of_be-be_bytes k a ha,
  of_be-be_bytes k b hb,
  λ (e : be_bytes k a ≡ be_bytes k b). ap (of_be 0) e,
  λ (e : a ≡ b). ap (be_bytes k) e,
)

ltb_digits :
    (a b : ℕ)
    → ltb (a / 256) (b / 256) || (nat_beq (a / 256) (b / 256) && ltb (a % 256) (b % 256)) ≡ ltb a b
ltb_digits a b = ground arith

bytes_ltb-be_bytes :
    (k a b : ℕ) → a < 256 ^ k → b < 256 ^ k → bytes_ltb (be_bytes k a) (be_bytes k b) ≡ ltb a b
unfolding be_bytes bytes_ltb
bytes_ltb-be_bytes zero a b ha hb = ground arith
bytes_ltb-be_bytes (suc k) a b ha hb =
    let smaller_a = div_below k a ha in
    let smaller_b = div_below k b hb in
    bytes_ltb-last (be_bytes k (a / 256)) (be_bytes k (b / 256)) (a % 256) (b % 256)
      (length-be_bytes k (a / 256) ∙ sym (length-be_bytes k (b / 256)))
    ∙ ap
        (λ x.
          x || (str_beq (be_bytes k (a / 256)) (be_bytes k (b / 256)) && ltb (a % 256) (b % 256)))
        (bytes_ltb-be_bytes k (a / 256) (b / 256) smaller_a smaller_b)
    ∙ ap (λ x. ltb (a / 256) (b / 256) || (x && ltb (a % 256) (b % 256)))
        (str_beq-be_bytes k (a / 256) (b / 256) smaller_a smaller_b)
    ∙ ltb_digits a b

-- Expiration keys are in the database in the order of their times, for times of 64 bits.
bytes_ltb-encode_batch_expiration_key :
    (a b : ℕ)
    → a < 2 ^ 64
    → b < 2 ^ 64
    → bytes_ltb (encode_batch_expiration_key a) (encode_batch_expiration_key b) ≡ ltb a b
unfolding encode_batch_expiration_key
bytes_ltb-encode_batch_expiration_key a b ha hb =
    bytes_ltb-append batch_expiration_prefix (be_bytes 8 a) (be_bytes 8 b)
    ∙ bytes_ltb-be_bytes 8 a b (omega arith) (omega arith)

pub decode-encode_batch_expiration_key :
    (t : ℕ) → t < 2 ^ 64 → decode_batch_expiration_key (encode_batch_expiration_key t) ≡ ok t
unfolding encode_batch_expiration_key decode_batch_expiration_key be_bytes
decode-encode_batch_expiration_key t h = ap ok (of_be-be_bytes 8 t (omega arith))
