-- ===== src/SliceSigner/Bits.antt =====
-- Bitmaps: a byte is the list of its eight bits, the lowest first, so that `b |= 1 << offset` sets
-- the bit at `offset`.
use g_da_client.Common.{
  ℕ, zero, suc, ◌/◌, ◌%◌, ◌*◌, ◌<◌, Bool, true, false, ◌||◌, Option, none, some, List, [], ◌∷◌,
  Result, ok, err, get_elem?, set, replicate, length, length-set, nat_beq, if◌then◌else◌, ◌≡◌, refl,
  ◌∙◌, ◌≤◌, arith, Option-cases, ◌⊎◌, inl, inr,
}
use g_da_client.Disperser.Status.{Error, index_out_of_range}

abbrev pub Byte : Type 0
Byte = List Bool

abbrev pub Bitmap : Type 0
Bitmap = List Byte

-- `make([]byte, n)`
abbrev pub make_bitmap : ℕ → Bitmap
make_bitmap n = replicate n (replicate 8 false)

abbrev pub or_false : Option Bool → Bool
or_false none = false
or_false (some b) = b

abbrev pub bit_of : Option Byte → ℕ → Bool
bit_of none offset = false
bit_of (some byte) offset = or_false (get_elem? byte offset)

-- Is bit `i` set?
abbrev pub get_bit : Bitmap → ℕ → Bool
get_bit m i = bit_of (get_elem? m (i / 8)) (i % 8)

-- `quorumBitmap[blobIdx][slot] |= 1 << offset`; a slot out of range panics.
unfoldable pub set_bit : Bitmap → ℕ → Result Error Bitmap
set_bit m i = elim (get_elem? m (i / 8)) [
  | none ↦ err index_out_of_range
  | some byte ↦ ok (set m (i / 8) (set byte (i % 8) true))
]

abbrev pub IsBitmap : Bitmap → Type 0
IsBitmap [] = Unit
IsBitmap (byte ∷ m) = (length byte ≡ 8) × IsBitmap m

pub make_bitmap-IsBitmap : (n : ℕ) → IsBitmap (make_bitmap n)
make_bitmap-IsBitmap zero = tt
make_bitmap-IsBitmap (suc n) = (refl, make_bitmap-IsBitmap n)

byte_of-zeros : (offset : ℕ) → or_false (get_elem? (replicate 8 false) offset) ≡ false
byte_of-zeros zero = refl
byte_of-zeros (suc zero) = refl
byte_of-zeros (suc (suc zero)) = refl
byte_of-zeros (suc (suc (suc zero))) = refl
byte_of-zeros (suc (suc (suc (suc zero)))) = refl
byte_of-zeros (suc (suc (suc (suc (suc zero))))) = refl
byte_of-zeros (suc (suc (suc (suc (suc (suc zero)))))) = refl
byte_of-zeros (suc (suc (suc (suc (suc (suc (suc zero))))))) = refl
byte_of-zeros (suc (suc (suc (suc (suc (suc (suc (suc offset)))))))) = refl

bit_of-zeros : (n slot offset : ℕ) → bit_of (get_elem? (make_bitmap n) slot) offset ≡ false
bit_of-zeros zero slot offset = refl
bit_of-zeros (suc n) zero offset = byte_of-zeros offset
bit_of-zeros (suc n) (suc slot) offset = bit_of-zeros n slot offset

-- A new bitmap has no bit set.
pub get_bit-make_bitmap : (n i : ℕ) → get_bit (make_bitmap n) i ≡ false
get_bit-make_bitmap n i = bit_of-zeros n (i / 8) (i % 8)

get_elem?-set :
    {A : Type 0} (xs : List A) (i j : ℕ) (v : A)
    → i < length xs
    → get_elem? (set xs i v) j ≡ (if nat_beq i j then some v else get_elem? xs j)
get_elem?-set [] i j v h = absurd (omega arith)
get_elem?-set (x ∷ xs) zero zero v h = ground arith
get_elem?-set (x ∷ xs) zero (suc j) v h = ground arith
get_elem?-set (x ∷ xs) (suc i) zero v h = ground arith
get_elem?-set (x ∷ xs) (suc i) (suc j) v h = ground (arith, get_elem?-set xs i j v)

-- A slot within the bitmap holds a byte of eight bits.
pub get_elem?-byte :
    (m : Bitmap) (slot : ℕ)
    → IsBitmap m
    → slot < length m
    → (byte : Byte) × (get_elem? m slot ≡ some byte) × (length byte ≡ 8)
get_elem?-byte [] slot h small = absurd (omega arith)
get_elem?-byte (byte ∷ m) zero h small = (byte, refl, h.0)
get_elem?-byte (byte ∷ m) (suc slot) h small = get_elem?-byte m slot h.1 (omega arith)

set-IsBitmap :
    (m : Bitmap) (slot : ℕ) (byte : Byte)
    → IsBitmap m
    → length byte ≡ 8
    → IsBitmap (set m slot byte)
set-IsBitmap [] slot byte h eight = tt
set-IsBitmap (b ∷ m) zero byte h eight = (eight, h.1)
set-IsBitmap (b ∷ m) (suc slot) byte h eight = (h.0, set-IsBitmap m slot byte h.1 eight)

-- Within the bitmap, a bit is set, and no other changes.
pub set_bit_lem :
    (m : Bitmap) (i : ℕ)
    → IsBitmap m
    → i < 8 * length m
    → (m' : Bitmap) × (set_bit m i ≡ ok m')
      × IsBitmap m'
      × (length m' ≡ length m)
      × ((j : ℕ) → get_bit m' j ≡ nat_beq i j || get_bit m j)
unfolding set_bit
set_bit_lem m i h small =
    let (byte, there, eight) = get_elem?-byte m (i / 8) h (omega arith) in
    (
      set m (i / 8) (set byte (i % 8) true),
      ground arith,
      set-IsBitmap m (i / 8) _ h (length-set byte (i % 8) true ∙ eight),
      length-set m (i / 8) _,
      λ j. bits byte there eight j,
    )
  where
    bits :
        (byte : Byte)
        → get_elem? m (i / 8) ≡ some byte
        → length byte ≡ 8
        → (j : ℕ) → get_bit (set m (i / 8) (set byte (i % 8) true)) j ≡ nat_beq i j || get_bit m j
    bits byte there eight j = ground (
      arith,
      get_elem?-set m (i / 8) (j / 8) (set byte (i % 8) true),
      get_elem?-set byte (i % 8) (j % 8) true,
    )

get_elem?-past : {A : Type 0} (xs : List A) (i : ℕ) → length xs ≤ i → get_elem? xs i ≡ none
get_elem?-past [] i h = refl
get_elem?-past (x ∷ xs) zero h = absurd (omega arith)
get_elem?-past (x ∷ xs) (suc i) h = get_elem?-past xs i (omega arith)

-- Past the bitmap, setting a bit panics.
pub set_bit_past : (m : Bitmap) (i : ℕ) → 8 * length m ≤ i → set_bit m i ≡ err index_out_of_range
unfolding set_bit
set_bit_past m i h = ground (arith, get_elem?-past m (i / 8))

-- Setting a bit keeps the length, and can fail only by a slot that is out of range.
pub length-set_bit :
    (m : Bitmap) (i : ℕ)
    → ((m' : Bitmap) × (set_bit m i ≡ ok m') × (length m' ≡ length m))
      ⊎ (set_bit m i ≡ err index_out_of_range)
unfolding set_bit
length-set_bit m i = elim (Option-cases (get_elem? m (i / 8))) [
  | inl past ↦ inr (ground arith)
  | inr (byte, there) ↦ inl (
    set m (i / 8) (set byte (i % 8) true),
    ground arith,
    length-set m (i / 8) (set byte (i % 8) true),
  )
]
