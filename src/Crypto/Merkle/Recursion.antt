-- ===== src/Crypto/Merkle/Recursion.antt =====
-- The recursion of merkle/tree.go: the fuel of its model is enough, so it is the source's.
use mathlib.Core.Path.{ap₂}
use dcschain.Base.{
  ℕ, zero, suc, ◌≤◌, ◌<◌, ◌≡◌, refl, List, [], ◌∷◌, arith, Bytes, length, take, drop, length-take,
  length-drop,
}
use dcschain.Crypto.Merkle.Defs.{get_split_point, inner_hash, hash_on_fuel, hash_from_byte_slices}
use dcschain.Crypto.Merkle.Split.{get_split_point_bounds, SplitsAt}

-- The two parts of a list of at least two items are shorter.
pub SplitsAt-shorter :
    (xs : List Bytes) (k f : ℕ)
    → SplitsAt (length xs) k
    → length xs ≤ suc f
    → (length (take k xs) ≤ f) × (length (drop k xs) ≤ f) × (0 < k) × (k < length xs)
SplitsAt-shorter xs k f (m, e, low, high) h = omega (arith, length-take k xs, length-drop k xs)

module _ (sum_sm3 : List ℕ → List ℕ) where
  hash_on_fuel_irrelevant :
      (f g : ℕ) (xs : List Bytes)
      → length xs ≤ f
      → length xs ≤ g
      → hash_on_fuel sum_sm3 f xs ≡ hash_on_fuel sum_sm3 g xs
  unfolding hash_on_fuel
  hash_on_fuel_irrelevant zero zero xs hf hg = refl
  hash_on_fuel_irrelevant zero (suc g) [] hf hg = refl
  hash_on_fuel_irrelevant zero (suc g) (x ∷ xs) hf hg = absurd (omega arith)
  hash_on_fuel_irrelevant (suc f) zero [] hf hg = refl
  hash_on_fuel_irrelevant (suc f) zero (x ∷ xs) hf hg = absurd (omega arith)
  hash_on_fuel_irrelevant (suc f) (suc g) [] hf hg = refl
  hash_on_fuel_irrelevant (suc f) (suc g) (x ∷ []) hf hg = refl
  hash_on_fuel_irrelevant (suc f) (suc g) (x ∷ y ∷ rest) hf hg =
      let xs = x ∷ y ∷ rest in
      let k = get_split_point (length xs) in
      let split = get_split_point_bounds (length xs) (omega arith) in
      let left = SplitsAt-shorter xs k f split hf in
      let right = SplitsAt-shorter xs k g split hg in
      ap₂ (inner_hash sum_sm3) (hash_on_fuel_irrelevant f g (take k xs) left.0 right.0)
        (hash_on_fuel_irrelevant f g (drop k xs) left.1 right.1)

  -- For two or more items the root hash is the inner hash of the root hashes of the two parts at the
  -- split point: the fuel of the model is enough.
  pub hash_from_byte_slices_split :
      (xs : List Bytes)
      → 2 ≤ length xs
      → hash_from_byte_slices sum_sm3 xs
        ≡ inner_hash sum_sm3
            (hash_from_byte_slices sum_sm3 (take (get_split_point (length xs)) xs))
            (hash_from_byte_slices sum_sm3 (drop (get_split_point (length xs)) xs))
  unfolding hash_from_byte_slices
  hash_from_byte_slices_split [] h = absurd (omega arith)
  hash_from_byte_slices_split (x ∷ []) h = absurd (omega arith)
  hash_from_byte_slices_split (x ∷ y ∷ rest) h =
      let xs = x ∷ y ∷ rest in
      let k = get_split_point (length xs) in
      let f = suc (length rest) in
      let short = SplitsAt-shorter xs k f (get_split_point_bounds (length xs) h) (omega arith) in
      ap₂ (inner_hash sum_sm3)
        (hash_on_fuel_irrelevant f (length (take k xs)) (take k xs) short.0 (omega arith))
        (hash_on_fuel_irrelevant f (length (drop k xs)) (drop k xs) short.1 (omega arith))
