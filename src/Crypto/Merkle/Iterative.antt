-- ===== src/Crypto/Merkle/Iterative.antt =====
-- HashFromByteSlicesIterative computes the root that the recursion computes.
use mathlib.Core.Path.{ap₂}
use dcschain.Base.{
  ℕ, zero, suc, ◌+◌, ◌/◌, ◌≤◌, ◌≡◌, refl, ap, ◌∙◌, sym, List, [], ◌∷◌, arith, Bytes, some, elems,
  length, take, drop, map,
}
use dcschain.Crypto.Merkle.Defs.{
  get_split_point, inner_hash, empty_hash, leaf_hash, prefixed_leaf_hash, hash_on_fuel,
  hash_from_byte_slices, pair_up, iterate, hash_from_byte_slices_iterative,
}
use dcschain.Crypto.Merkle.Split.{get_split_point_bounds}
use dcschain.Crypto.Merkle.Recursion.{SplitsAt-shorter}
use dcschain.Crypto.Merkle.Pairing.{
  double, length-pair_up, pair_up-take, pair_up-drop, get_split_point-half,
}

-- The byte 0 before an item.
abbrev pub prefixed : Bytes → Bytes
prefixed r = some (0 ∷ elems r)

length-map : {A B : Type 0} (f : A → B) (xs : List A) → length (map f xs) ≡ length xs
length-map f [] = refl
length-map f (x ∷ xs) = ap suc (length-map f xs)

take-map : {A B : Type 0} (f : A → B) (n : ℕ) (xs : List A) → take n (map f xs) ≡ map f (take n xs)
take-map f zero xs = refl
take-map f (suc n) [] = refl
take-map f (suc n) (x ∷ xs) = ap (λ r. f x ∷ r) (take-map f n xs)

drop-map : {A B : Type 0} (f : A → B) (n : ℕ) (xs : List A) → drop n (map f xs) ≡ map f (drop n xs)
drop-map f zero xs = refl
drop-map f (suc n) [] = refl
drop-map f (suc n) (x ∷ xs) = drop-map f n xs

module _ (sum_sm3 : List ℕ → List ℕ) where
  -- The recursion over items that are hashed already.
  tree : ℕ → List Bytes → Bytes
  tree zero xs = empty_hash sum_sm3
  tree (suc f) [] = empty_hash sum_sm3
  tree (suc f) (x ∷ []) = x
  tree (suc f) (x ∷ y ∷ rest) =
      let xs = x ∷ y ∷ rest in
      let k = get_split_point (length xs) in
      inner_hash sum_sm3 (tree f (take k xs)) (tree f (drop k xs))

  tree-hash_on_fuel :
      (f : ℕ) (xs : List Bytes)
      → hash_on_fuel sum_sm3 f (map prefixed xs)
        ≡ tree f (map (λ leaf. prefixed_leaf_hash sum_sm3 leaf) xs)
  unfolding tree hash_on_fuel leaf_hash prefixed_leaf_hash
  tree-hash_on_fuel zero xs = refl
  tree-hash_on_fuel (suc f) [] = refl
  tree-hash_on_fuel (suc f) (x ∷ []) = refl
  tree-hash_on_fuel (suc f) (x ∷ y ∷ rest) =
      let xs = x ∷ y ∷ rest in
      let leaf = λ (r : Bytes). prefixed_leaf_hash sum_sm3 r in
      let k = get_split_point (length xs) in
      rw (length-map prefixed rest, length-map leaf rest)
        (ap₂ (inner_hash sum_sm3)
          (ap (hash_on_fuel sum_sm3 f) (take-map prefixed k xs)
            ∙ tree-hash_on_fuel f (take k xs)
            ∙ sym (ap (tree f) (take-map leaf k xs)))
          (ap (hash_on_fuel sum_sm3 f) (drop-map prefixed k xs)
            ∙ tree-hash_on_fuel f (drop k xs)
            ∙ sym (ap (tree f) (drop-map leaf k xs))))

  tree_irrelevant :
      (f g : ℕ) (xs : List Bytes) → length xs ≤ f → length xs ≤ g → tree f xs ≡ tree g xs
  unfolding tree
  tree_irrelevant zero zero xs hf hg = refl
  tree_irrelevant zero (suc g) [] hf hg = refl
  tree_irrelevant zero (suc g) (x ∷ xs) hf hg = absurd (omega arith)
  tree_irrelevant (suc f) zero [] hf hg = refl
  tree_irrelevant (suc f) zero (x ∷ xs) hf hg = absurd (omega arith)
  tree_irrelevant (suc f) (suc g) [] hf hg = refl
  tree_irrelevant (suc f) (suc g) (x ∷ []) hf hg = refl
  tree_irrelevant (suc f) (suc g) (x ∷ y ∷ rest) hf hg =
      let xs = x ∷ y ∷ rest in
      let k = get_split_point (length xs) in
      let split = get_split_point_bounds (length xs) (omega arith) in
      let left = SplitsAt-shorter xs k f split hf in
      let right = SplitsAt-shorter xs k g split hg in
      ap₂ (inner_hash sum_sm3) (tree_irrelevant f g (take k xs) left.0 right.0)
        (tree_irrelevant f g (drop k xs) left.1 right.1)

  -- The parts of a list at its split point, hashed.
  split_at : ℕ → ℕ → List Bytes → Bytes
  split_at f k xs = inner_hash sum_sm3 (tree f (take k xs)) (tree f (drop k xs))

  tree_split :
      (f : ℕ) (xs : List Bytes)
      → 2 ≤ length xs
      → tree (suc f) xs ≡ split_at f (get_split_point (length xs)) xs
  unfolding tree split_at
  tree_split f [] h = absurd (omega arith)
  tree_split f (x ∷ []) h = absurd (omega arith)
  tree_split f (x ∷ y ∷ rest) h = refl

  -- Pairing the items keeps the root.
  tree-pair_up : (f : ℕ) (xs : List Bytes) → length xs ≤ f → tree f (pair_up sum_sm3 xs) ≡ tree f xs
  unfolding tree pair_up split_at
  tree-pair_up zero [] h = refl
  tree-pair_up zero (x ∷ xs) h = absurd (omega arith)
  tree-pair_up (suc f) [] h = refl
  tree-pair_up (suc f) (x ∷ []) h = refl
  tree-pair_up (suc zero) (x ∷ y ∷ []) h = absurd (omega arith)
  tree-pair_up (suc (suc f)) (x ∷ y ∷ []) h = unfold get_split_point in refl
  tree-pair_up (suc f) (x ∷ y ∷ z ∷ rest) h =
      let xs = x ∷ y ∷ z ∷ rest in
      let ps = pair_up sum_sm3 xs in
      let k = get_split_point (length xs) in
      let j = get_split_point ((length xs + 1) / 2) in
      let half : k ≡ double j = get_split_point-half (length xs) (omega arith) in
      let size : length ps ≡ (length xs + 1) / 2 = length-pair_up sum_sm3 xs in
      let short = SplitsAt-shorter xs k f (get_split_point_bounds (length xs) (omega arith)) h in
      tree_split f ps (omega arith)
      ∙ ap (λ n. split_at f (get_split_point n) ps) size
      ∙ ap₂ (inner_hash sum_sm3)
          (ap (tree f) (sym (pair_up-take sum_sm3 j xs))
            ∙ ap (λ i. tree f (pair_up sum_sm3 (take i xs))) (sym half)
            ∙ tree-pair_up f (take k xs) short.0)
          (ap (tree f) (sym (pair_up-drop sum_sm3 j xs))
            ∙ ap (λ i. tree f (pair_up sum_sm3 (drop i xs))) (sym half)
            ∙ tree-pair_up f (drop k xs) short.1)
      ∙ sym (tree_split f xs (omega arith))

  iterate-tree :
      (f : ℕ) (xs : List Bytes) → length xs ≤ suc f → iterate sum_sm3 f xs ≡ tree (length xs) xs
  unfolding tree iterate
  iterate-tree f [] h = refl
  iterate-tree f (x ∷ []) h = refl
  iterate-tree zero (x ∷ y ∷ rest) h = absurd (omega arith)
  iterate-tree (suc f) (x ∷ y ∷ rest) h =
      let xs = x ∷ y ∷ rest in
      let ps = pair_up sum_sm3 xs in
      let size : length ps ≡ (length xs + 1) / 2 = length-pair_up sum_sm3 xs in
      iterate-tree f ps (omega arith)
      ∙ tree_irrelevant (length ps) (length xs) ps (omega arith) (omega arith)
      ∙ tree-pair_up (length xs) xs (omega arith)

  -- The iterative computation, which puts the byte 0 before each item, gives the root that the
  -- recursive one gives for the items with that byte before each.
  pub iterative-recursive :
      (items : List Bytes)
      → hash_from_byte_slices_iterative sum_sm3 items
        ≡ hash_from_byte_slices sum_sm3 (map prefixed items)
  unfolding hash_from_byte_slices_iterative hash_from_byte_slices
  iterative-recursive items =
      let leaf = λ (r : Bytes). prefixed_leaf_hash sum_sm3 r in
      let leaves = map leaf items in
      let size : length leaves ≡ length items = length-map leaf items in
      iterate-tree (length items) leaves (omega arith)
      ∙ ap (λ n. tree n leaves) (size ∙ sym (length-map prefixed items))
      ∙ sym (tree-hash_on_fuel (length (map prefixed items)) items)
