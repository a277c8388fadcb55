-- ===== src/Common/Maps.antt =====
-- Go maps as association lists with distinct keys. `delete` drops every entry of the key, and
-- `insert` puts the new entry in front; iteration order is modelled by the users.
use Prim.Native.Nat.{ℕ, ◌+◌}
use mathlib.Core.Path.{◌≡◌, refl}
use mathlib.Core.Logic.{◌↔◌}
use mathlib.Core.Bool.{Bool, true, false, ◌&&◌}
use mathlib.Core.Option.{Option, none, some}
use mathlib.Core.List.{List, [], ◌∷◌}
use native.Mathlib.Omega.{arith}
use g_da_client.Common.Tests.{if◌then◌else◌, Comparable, ◌==◌, nat_eq, nat_beq}
use g_da_client.Common.Lists.{In}

abbrev pub Map : Type 0 → Type 0 → Type 0
Map K V = List (K × V)

abbrev pub weight : {V : Type 0} → (V → ℕ) → Option V → ℕ
weight f none = 0
weight f (some v) = f v

pub ==_refl : {K : Type 0} ⦃e : Comparable K⦄ (k : K) → (k == k) ≡ true
==_refl ⦃e⦄ k = (e.decides k k).1 refl

module _ {K V : Type 0} ⦃e : Comparable K⦄ where
  unfoldable pub lookup : K → Map K V → Option V
  lookup key [] = none
  lookup key ((k, v) ∷ rest) = if k == key then some v else lookup key rest

  unfoldable pub delete : K → Map K V → Map K V
  delete k [] = []
  delete k ((j, v) ∷ m) = let rest = delete k m in if j == k then rest else (j, v) ∷ rest

  unfoldable pub insert : K → V → Map K V → Map K V
  insert k v m = (k, v) ∷ delete k m

  -- No key is listed twice.
  abbrev pub Distinct : Map K V → Type 0
  Distinct [] = Unit
  Distinct ((k, v) ∷ m) = (lookup k m ≡ none) × Distinct m

  -- A sum over the values.
  abbrev pub sum_of : (V → ℕ) → Map K V → ℕ
  sum_of f [] = 0
  sum_of f ((k, v) ∷ m) = f v + sum_of f m

  pub lookup-delete :
      (k j : K) (m : Map K V) → lookup j (delete k m) ≡ (if k == j then none else lookup j m)
  unfolding lookup delete
  lookup-delete k j [] = ground arith
  lookup-delete k j ((i, v) ∷ m) =
      ground (arith, lookup-delete k j m, e.decides i k, e.decides i j, e.decides k j)

  pub lookup-insert :
      (new key : K) (v : V) (m : Map K V)
      → lookup key (insert new v m) ≡ (if new == key then some v else lookup key m)
  unfolding lookup insert
  lookup-insert new key v m = ground (arith, lookup-delete new key m)

  pub lookup-insert_self : (k : K) (v : V) (m : Map K V) → lookup k (insert k v m) ≡ some v
  lookup-insert_self k v m = ground (arith, lookup-insert k k v m, ==_refl k)

  pub lookup-delete_self : (k : K) (m : Map K V) → lookup k (delete k m) ≡ none
  lookup-delete_self k m = ground (arith, lookup-delete k k m, ==_refl k)

  pub delete-Distinct : (k : K) (m : Map K V) → Distinct m → Distinct (delete k m)
  unfolding delete
  delete-Distinct k [] h = tt
  delete-Distinct k ((j, v) ∷ m) h = ground (arith, delete-Distinct k m h.1, lookup-delete k j m)

  pub insert-Distinct : (k : K) (v : V) (m : Map K V) → Distinct m → Distinct (insert k v m)
  unfolding insert
  insert-Distinct k v m h = (lookup-delete_self k m, delete-Distinct k m h)

  pub delete_absent : (k : K) (m : Map K V) → lookup k m ≡ none → delete k m ≡ m
  unfolding lookup delete
  delete_absent k [] h = refl
  delete_absent k ((j, v) ∷ m) h = ground (arith, delete_absent k m)

  pub delete-insert_absent :
      (k : K) (v : V) (m : Map K V) → lookup k m ≡ none → delete k (insert k v m) ≡ m
  unfolding delete insert
  delete-insert_absent k v m h = ground (arith, ==_refl k, delete_absent k m h)

  pub sum_of-delete :
      (f : V → ℕ) (k : K) (m : Map K V)
      → Distinct m
      → sum_of f (delete k m) + weight f (lookup k m) ≡ sum_of f m
  unfolding lookup delete
  sum_of-delete f k [] h = omega arith
  sum_of-delete f k ((j, v) ∷ m) h =
      ground (arith, sum_of-delete f k m h.1, e.decides j k, delete_absent k m)

  pub sum_of-insert :
      (f : V → ℕ) (k : K) (v : V) (m : Map K V)
      → Distinct m
      → sum_of f (insert k v m) + weight f (lookup k m) ≡ sum_of f m + f v
  unfolding insert
  sum_of-insert f k v m h = omega (arith, sum_of-delete f k m h)

  pub lookup-In : (k : K) (v : V) (m : Map K V) → lookup k m ≡ some v → In (k, v) m
  unfolding lookup
  lookup-In k v [] h = cc
  lookup-In k v ((j, w) ∷ m) h = ground (arith, e.decides j k, lookup-In k v m)

-- Go strings are sequences of bytes.
abbrev pub Bytes : Type 0
Bytes = List ℕ

unfoldable pub str_beq : Bytes → Bytes → Bool
str_beq [] [] = true
str_beq [] (y ∷ ys) = false
str_beq (x ∷ xs) [] = false
str_beq (x ∷ xs) (y ∷ ys) = nat_beq x y && str_beq xs ys

pub str_beq_iff : (a b : Bytes) → (str_beq a b ≡ true) ↔ (a ≡ b)
unfolding str_beq
str_beq_iff [] [] = ground arith
str_beq_iff [] (y ∷ ys) = ground arith
str_beq_iff (x ∷ xs) [] = ground arith
str_beq_iff (x ∷ xs) (y ∷ ys) = ground (arith, str_beq_iff xs ys)

instance abbrev pub bytes_eq : Comparable Bytes
bytes_eq = record { same = str_beq; decides = str_beq_iff }
