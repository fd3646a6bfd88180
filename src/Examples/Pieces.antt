-- ===== src/Examples/Pieces.antt =====
-- The parts under the protocol on concrete inputs: quorums, names, hashes, the store.
use dcschain.Base.{
  map, ℕ, ◌≤◌, ◌<◌, ◌≡◌, true, Bool, ◌++◌, List, [], ◌∷◌, some, arith, Bytes, elems, take, drop,
}
use dcschain.Crypto.Merkle.{
  get_split_point, hash_from_byte_slices, root_is_leaf, hash_from_byte_slices_iterative, prefixed,
  iterative-recursive,
}
use dcschain.Quorum.{threshold, max_faulty}
use dcschain.Quorum.Count.{count}
use dcschain.Quorum.Intersection.{quorum_gap}

quorum_gap_example :
    (faulty : ℕ → Bool) × (p : ℕ → Bool) × (q : ℕ → Bool) × (count 6 faulty ≤ max_faulty 6)
    × (threshold 6 < count 6 p)
    × (threshold 6 < count 6 q)
    × ((i : ℕ) → p i ≡ true → q i ≡ true → faulty i ≡ true)
quorum_gap_example = quorum_gap 6 (omega arith) (λ e. ground arith)

-- A digest for the examples: the content itself.
abbrev identity : List ℕ → List ℕ
identity m = m

abbrev items : List Bytes
items = some (5 ∷ []) ∷ some (6 ∷ []) ∷ some (7 ∷ []) ∷ []

root_is_leaf_example :
    (leaf : Bytes) × (hash_from_byte_slices identity (leaf ∷ [])
      ≡ hash_from_byte_slices identity items)
    × (leaf
        ≡ some (
            1
            ∷ (elems (hash_from_byte_slices identity (take (get_split_point 3) items))
                ++ elems (hash_from_byte_slices identity (drop (get_split_point 3) items)))))
root_is_leaf_example = root_is_leaf identity items (omega arith)

iterative-recursive_example :
    hash_from_byte_slices_iterative identity items
    ≡ hash_from_byte_slices identity (map prefixed items)
iterative-recursive_example = iterative-recursive identity items
