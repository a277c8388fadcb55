-- ===== src/Disperser/KeyCache/History.antt =====
-- The cache against the history of what was added: it holds the keys of the newest epoch, all of
-- them and no others.
use Prim.Native.Nat.{max}
use g_da_client.Common.{
  ℕ, ◌<◌, Bool, true, false, ◌&&◌, ◌||◌, ◌≡◌, refl, Bytes, bytes_eq, List, [], ◌∷◌, lookup, delete,
  lookup-insert, ltb, nat_beq, str_beq, if◌then◌else◌, arith,
}
use g_da_client.Disperser.KeyCache.{BlobKeyCache, fresh, add, contains}

-- What was added, the newest call first.
abbrev pub History : Type 0
History = List (Bytes × ℕ)

abbrev pub after : History → BlobKeyCache
after [] = fresh
after ((key, epoch) ∷ h) = add key epoch (after h)

abbrev pub newest : History → ℕ
newest [] = 0
newest ((key, epoch) ∷ h) = max epoch (newest h)

-- Was the key added under the epoch?
abbrev pub added : Bytes → ℕ → History → Bool
added key epoch [] = false
added key epoch ((k, e) ∷ h) = (str_beq k key && nat_beq e epoch) || added key epoch h

epoch-after : (h : History) → (after h).epoch ≡ newest h
unfolding add
epoch-after [] = refl
epoch-after ((k, e) ∷ h) = ground (arith, epoch-after h)

added_later : (key : Bytes) (e : ℕ) (h : History) → newest h < e → added key e h ≡ false
added_later key e [] lt = refl
added_later key e ((k, e') ∷ h) lt = ground (arith, added_later key e h)

contains-add :
    (k key : Bytes) (e : ℕ) (b : BlobKeyCache)
    → contains (add k e b) key ≡ (
        if ltb b.epoch e
        then str_beq k key
        else if nat_beq b.epoch e
        then str_beq k key || contains b key
        else contains b key)
unfolding add contains lookup delete
contains-add k key e b =
    ground (arith, lookup-insert k key true b.keys, lookup-insert {V = Bool} k key true [])

contains-after : (key : Bytes) (h : History) → contains (after h) key ≡ added key (newest h) h
unfolding contains lookup
contains-after key [] = refl
contains-after key ((k, e) ∷ h) = ground (
  arith,
  contains-add k key e (after h),
  contains-after key h,
  epoch-after h,
  added_later key e h,
)

-- After any calls of `Add`, the cache is at the highest epoch that was added, and holds a key
-- exactly when it was added under that epoch.
pub contains-after-newest :
    (key : Bytes) (h : History)
    → ((after h).epoch ≡ newest h) × (contains (after h) key ≡ added key (newest h) h)
contains-after-newest key h = (epoch-after h, contains-after key h)
