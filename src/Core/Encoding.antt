-- ===== src/Core/Encoding.antt =====
-- core/encoding.go: the sizes of segments, symbols and blobs, and the shape of an encoded blob.
use g_da_client.Common.{ℕ, ◌*◌, ◌/◌, ◌%◌, add64, sub64, u64_mod}

abbrev pub entry_size : ℕ
entry_size = 256

abbrev pub entry_per_segment : ℕ
entry_per_segment = 1024

abbrev pub segment_size : ℕ
segment_size = entry_size * entry_per_segment

abbrev pub scalar_size : ℕ
scalar_size = 31

abbrev pub coeff_size : ℕ
coeff_size = 32

abbrev pub commitment_size : ℕ
commitment_size = 48

abbrev pub max_cols : ℕ
max_cols = 1024

abbrev pub max_rows : ℕ
max_rows = 1024

abbrev pub max_blob_size : ℕ
max_blob_size = max_cols * max_rows * scalar_size

-- `MatrixDimsions`
pub record MatrixDimensions : Type 0 where
  pub rows : ℕ
  pub cols : ℕ

-- The number of symbols of a blob.
unfoldable pub get_blob_length : ℕ → ℕ
get_blob_length blob_size = sub64 (add64 blob_size scalar_size) 1 / scalar_size

-- The number of bytes that so many symbols have.
unfoldable pub get_blob_size : ℕ → ℕ
get_blob_size blob_length = (blob_length * scalar_size) % u64_mod
