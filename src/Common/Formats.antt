-- ===== src/Common/Formats.antt =====
-- The byte formats that the program writes: fixed-width integers in both byte orders
-- (encoding/binary), lower-case hexadecimal (encoding/hex), and decimal numbers (fmt's %d).
use Prim.Native.Nat.{ℕ, zero, suc, ◌+◌, ◌-◌, ◌*◌, ◌/◌, ◌%◌, ◌^◌, ◌<◌}
use mathlib.Core.Path.{◌≡◌, refl, sym, ap, ◌∙◌}
use mathlib.Core.List.{[], ◌∷◌, ◌++◌}
use native.Mathlib.Nat.{pow-suc}
use native.Mathlib.Omega.{arith}
use g_da_client.Common.Tests.{if◌then◌else◌, ltb, Bool-cases}
use mathlib.Core.Logic.{inl, inr, ◌≢◌}
use g_da_client.Common.Lists.{length, length-append}
use g_da_client.Common.Maps.{Bytes}

-- The `k` low bytes of `x`, least significant first.
unfoldable pub le_bytes : ℕ → ℕ → Bytes
le_bytes zero x = []
le_bytes (suc k) x = x % 256 ∷ le_bytes k (x / 256)

unfoldable pub of_le : Bytes → ℕ
of_le [] = 0
of_le (b ∷ bs) = b + 256 * of_le bs

-- The `k` low bytes of `x`, most significant first.
unfoldable pub be_bytes : ℕ → ℕ → Bytes
be_bytes zero x = []
be_bytes (suc k) x = be_bytes k (x / 256) ++ x % 256 ∷ []

unfoldable pub of_be : ℕ → Bytes → ℕ
of_be acc [] = acc
of_be acc (b ∷ bs) = of_be (acc * 256 + b) bs

pub length-le_bytes : (k x : ℕ) → length (le_bytes k x) ≡ k
unfolding le_bytes
length-le_bytes zero x = refl
length-le_bytes (suc k) x = ap suc (length-le_bytes k (x / 256))

pub length-be_bytes : (k x : ℕ) → length (be_bytes k x) ≡ k
unfolding be_bytes
length-be_bytes zero x = refl
length-be_bytes (suc k) x =
    omega (arith, length-append (be_bytes k (x / 256)) (x % 256 ∷ []), length-be_bytes k (x / 256))

pub div_below : (k x : ℕ) → x < 256 ^ suc k → x / 256 < 256 ^ k
div_below k x h = let h' : x < 256 ^ k * 256 = rw (pow-suc 256 k) at h in omega arith

pub of_le-le_bytes : (k x : ℕ) → x < 256 ^ k → of_le (le_bytes k x) ≡ x
unfolding le_bytes of_le
of_le-le_bytes zero x h = omega arith
of_le-le_bytes (suc k) x h = omega (arith, of_le-le_bytes k (x / 256) (div_below k x h))

of_be-append : (acc : ℕ) (xs ys : Bytes) → of_be acc (xs ++ ys) ≡ of_be (of_be acc xs) ys
unfolding of_be
of_be-append acc [] ys = refl
of_be-append acc (x ∷ xs) ys = of_be-append (acc * 256 + x) xs ys

pub of_be-be_bytes : (k x : ℕ) → x < 256 ^ k → of_be 0 (be_bytes k x) ≡ x
unfolding be_bytes of_be
of_be-be_bytes zero x h = omega arith
of_be-be_bytes (suc k) x h =
    rw (of_be-append 0 (be_bytes k (x / 256)) (x % 256 ∷ []))
      (omega (arith, of_be-be_bytes k (x / 256) (div_below k x h)))

-- Lists of one length that are equal with what follows are equal, and so is what follows.
pub append-cancel_left :
    (xs ys : Bytes) (us vs : Bytes)
    → length xs ≡ length ys
    → xs ++ us ≡ ys ++ vs
    → (xs ≡ ys) × (us ≡ vs)
append-cancel_left [] [] us vs l h = (refl, h)
append-cancel_left [] (y ∷ ys) us vs l h = absurd (omega arith)
append-cancel_left (x ∷ xs) [] us vs l h = absurd (omega arith)
append-cancel_left (x ∷ xs) (y ∷ ys) us vs l h =
    ground (arith, append-cancel_left xs ys us vs (omega arith))

pub hex_digit : ℕ → ℕ
hex_digit d = if ltb d 10 then 48 + d else 87 + d

-- `hex.EncodeToString`
unfoldable pub encode_to_string : Bytes → Bytes
unfolding hex_digit
encode_to_string [] = []
encode_to_string (b ∷ bs) = hex_digit (b / 16) ∷ hex_digit (b % 16) ∷ encode_to_string bs

pub encode_to_string-append :
    (xs ys : Bytes) → encode_to_string (xs ++ ys) ≡ encode_to_string xs ++ encode_to_string ys
unfolding encode_to_string
encode_to_string-append [] ys = refl
encode_to_string-append (x ∷ xs) ys =
    ap (λ t. hex_digit (x / 16) ∷ hex_digit (x % 16) ∷ t) (encode_to_string-append xs ys)

hex_digit-injective : (a b : ℕ) → hex_digit a ≡ hex_digit b → a ≡ b
unfolding hex_digit
hex_digit-injective a b h = ground arith

pub encode_to_string-injective :
    (xs ys : Bytes) → encode_to_string xs ≡ encode_to_string ys → xs ≡ ys
unfolding encode_to_string
encode_to_string-injective [] [] h = refl
encode_to_string-injective [] (y ∷ ys) h = cc
encode_to_string-injective (x ∷ xs) [] h = cc
encode_to_string-injective (x ∷ xs) (y ∷ ys) h = ground (
  arith,
  hex_digit-injective (x / 16) (y / 16),
  hex_digit-injective (x % 16) (y % 16),
  encode_to_string-injective xs ys,
)

pub hex_digit-ne-dash : (d : ℕ) → hex_digit d ≢ b'-'
unfolding hex_digit
hex_digit-ne-dash d = ground arith

-- The decimal digits of `n`, for `n` below 10 ^ (suc k).
digits : ℕ → ℕ → Bytes
digits zero n = (48 + n % 10) ∷ []
digits (suc k) n =
    let front = digits k (n / 10) in if ltb n 10 then (48 + n) ∷ [] else front ++ (48 + n % 10) ∷ []

-- `fmt.Sprintf("%d", n)` of a `uint64`, which has at most 20 digits.
unfoldable pub format_uint : ℕ → Bytes
unfolding digits
format_uint n = digits 19 n

-- The number that a row of digits stands for.
of_digits : ℕ → Bytes → ℕ
of_digits acc [] = acc
of_digits acc (c ∷ cs) = of_digits (acc * 10 + (c - 48)) cs

of_digits-append :
    (acc : ℕ) (xs ys : Bytes) → of_digits acc (xs ++ ys) ≡ of_digits (of_digits acc xs) ys
unfolding of_digits
of_digits-append acc [] ys = refl
of_digits-append acc (x ∷ xs) ys = of_digits-append (acc * 10 + (x - 48)) xs ys

of_digits-digits : (k n : ℕ) → n < 10 ^ suc k → of_digits 0 (digits k n) ≡ n
unfolding digits of_digits
of_digits-digits zero n h = omega arith
of_digits-digits (suc k) n h =
    let h' : n < 10 ^ suc k * 10 = rw (pow-suc 10 (suc k)) at h in
    let ih = of_digits-digits k (n / 10) (omega arith) in
    let step = of_digits-append 0 (digits k (n / 10)) ((48 + n % 10) ∷ []) in
    elim (Bool-cases (ltb n 10)) [
      | inl small ↦ rw small (omega arith)
      | inr big ↦ rw (big, step, ih) (omega arith)
    ]

-- Different `uint64` values print differently.
pub format_uint-injective :
    (m n : ℕ) → m < 2 ^ 64 → n < 2 ^ 64 → format_uint m ≡ format_uint n → m ≡ n
unfolding format_uint
format_uint-injective m n hm hn h =
    sym (of_digits-digits 19 m (omega arith))
    ∙ ap (of_digits 0) h
    ∙ of_digits-digits 19 n (omega arith)
