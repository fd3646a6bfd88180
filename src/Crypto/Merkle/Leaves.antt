-- ===== src/Crypto/Merkle/Leaves.antt =====
-- What merkle/hash.go leaves out: the prefix that sets leaves apart from inner nodes.
use dcschain.Base.{
  ℕ, ◌≤◌, ◌≡◌, sym, refl, List, [], ◌∷◌, ◌++◌, Bytes, some, elems, length, take, drop,
}
use dcschain.Crypto.Merkle.Defs.{get_split_point, inner_hash, leaf_hash, hash_from_byte_slices}
use dcschain.Crypto.Merkle.Recursion.{hash_from_byte_slices_split}

module _ (sum_sm3 : List ℕ → List ℕ) where
  -- The root of two or more items is also the root of a single item, which is made of hashes of
  -- them: leaves and inner nodes are hashed alike, whatever the digest.
  pub root_is_leaf :
      (xs : List Bytes)
      → 2 ≤ length xs
      → (leaf : Bytes) × (hash_from_byte_slices sum_sm3 (leaf ∷ [])
          ≡ hash_from_byte_slices sum_sm3 xs)
        × (leaf
            ≡ some (
                1
                ∷ (elems (hash_from_byte_slices sum_sm3 (take (get_split_point (length xs)) xs))
                    ++ elems
                        (hash_from_byte_slices sum_sm3 (drop (get_split_point (length xs)) xs)))))
  unfolding hash_from_byte_slices inner_hash leaf_hash
  root_is_leaf xs h = (_, sym (hash_from_byte_slices_split sum_sm3 xs h), refl)
