-- ===== src/Crypto/Merkle/Defs.antt =====
-- merkle/hash.go and merkle/tree.go, function by function.
use dcschain.Base.{
  ℕ, zero, suc, ◌-◌, ◌/◌, ◌^◌, true, false, List, [], ◌∷◌, ◌++◌, map, Bytes, some, elems, ◌==◌,
  if◌then◌else◌, length, take, drop,
}

-- bits.Len: the number of binary digits; halving `n` needs at most `n` rounds.
unfoldable pub bits_len_from : ℕ → ℕ → ℕ
bits_len_from zero n = 0
bits_len_from (suc f) n = elim (n == 0) [ true ↦ 0 | false ↦ suc (bits_len_from f (n / 2)) ]

unfoldable pub bits_len : ℕ → ℕ
unfolding bits_len_from
bits_len n = bits_len_from n n

-- The panic at a length below 1 is left out: both callers pass a length of at least 2.
unfoldable pub get_split_point : ℕ → ℕ
unfolding bits_len
get_split_point n = let k = 2 ^ (bits_len n - 1) in if k == n then k / 2 else k

-- `sum_sm3` is sm3.SumSM3
module _ (sum_sm3 : List ℕ → List ℕ) where
  unfoldable pub sum : List ℕ → Bytes
  sum content = some (sum_sm3 content)

  unfoldable pub empty_hash : Bytes
  unfolding sum
  empty_hash = sum []

  -- leafHash, which hashes the leaf with no prefix
  unfoldable pub leaf_hash : Bytes → Bytes
  unfolding sum
  leaf_hash leaf = sum (elems leaf)

  -- LeafHash, which puts the prefix 0 before the leaf
  unfoldable pub prefixed_leaf_hash : Bytes → Bytes
  unfolding sum
  prefixed_leaf_hash leaf = sum (0 ∷ elems leaf)

  unfoldable pub inner_hash : Bytes → Bytes → Bytes
  unfolding sum
  inner_hash left right = sum (1 ∷ (elems left ++ elems right))

  -- HashFromByteSlices on fuel; the length of the input is enough.
  unfoldable pub hash_on_fuel : ℕ → List Bytes → Bytes
  unfolding empty_hash leaf_hash inner_hash
  hash_on_fuel zero input = empty_hash
  hash_on_fuel (suc f) [] = empty_hash
  hash_on_fuel (suc f) (x ∷ []) = leaf_hash x
  hash_on_fuel (suc f) (x ∷ y ∷ rest) =
      let input = x ∷ y ∷ rest in
      let k = get_split_point (length input) in
      inner_hash (hash_on_fuel f (take k input)) (hash_on_fuel f (drop k input))

  unfoldable pub hash_from_byte_slices : List Bytes → Bytes
  unfolding hash_on_fuel get_split_point
  hash_from_byte_slices input = hash_on_fuel (length input) input

  -- One pass of the inner loop of HashFromByteSlicesIterative.
  unfoldable pub pair_up : List Bytes → List Bytes
  unfolding inner_hash
  pair_up [] = []
  pair_up (x ∷ []) = x ∷ []
  pair_up (x ∷ y ∷ rest) = inner_hash x y ∷ pair_up rest

  -- The outer loop on fuel; the number of items is enough.
  unfoldable pub iterate : ℕ → List Bytes → Bytes
  unfolding empty_hash pair_up
  iterate f [] = empty_hash
  iterate f (x ∷ []) = x
  iterate zero (x ∷ y ∷ rest) = x
  iterate (suc f) (x ∷ y ∷ rest) = iterate f (pair_up (x ∷ y ∷ rest))

  unfoldable pub hash_from_byte_slices_iterative : List Bytes → Bytes
  unfolding iterate prefixed_leaf_hash
  hash_from_byte_slices_iterative input =
      iterate (length input) (map (λ leaf. prefixed_leaf_hash leaf) input)
