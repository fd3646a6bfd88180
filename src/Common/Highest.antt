-- ===== src/Common/Highest.antt =====
-- The search of the HotStuff protocols for a message whose certificate is of the latest view:
-- GetHighQCIndex, GetHighChainedQC and GetHighestCertIndex loop in this way.
use dcschain.Base.{
  ℕ, suc, ◌+◌, ◌≡◌, refl, ◌⊎◌, inl, inr, List, [], ◌∷◌, some, arith, ℤ, ◌≤ℤ◌, ◌<ℤ◌, ltb_ℤ,
  if◌then◌else◌, Bool-cases, get_elem?, All,
}

module _ {A : Type 0} (view_of : A → ℤ) where
  -- The loop from index `i` on.
  unfoldable pub high_index_from : ℕ → ℕ → ℤ → List A → ℕ
  high_index_from i max_index max_view [] = max_index
  high_index_from i max_index max_view (m ∷ ms) =
      let higher = ltb_ℤ max_view (view_of m) in
      high_index_from (i + 1) (if higher then i else max_index)
        (if higher then view_of m else max_view) ms

  -- None of the messages is of a view after `v`.
  abbrev pub NotAbove : List A → ℤ → Type 0
  NotAbove ms v = All (λ (m : A). view_of m ≤ℤ v) ms

  -- What the loop returns: the index it had, or that of a later and highest message.
  abbrev IsHigh : ℕ → ℕ → ℤ → List A → ℕ → Type 0
  IsHigh i max_index max_view ms r =
      ((r ≡ max_index) × NotAbove ms max_view)
      ⊎ ((j : ℕ) × (m : A) × (r ≡ i + j)
          × (get_elem? ms j ≡ some m)
          × (max_view <ℤ view_of m)
          × NotAbove ms (view_of m))

  high_index_from-IsHigh :
      (i max_index : ℕ) (max_view : ℤ) (ms : List A)
      → IsHigh i max_index max_view ms (high_index_from i max_index max_view ms)
  unfolding high_index_from
  high_index_from-IsHigh i max_index max_view [] = inl (refl, tt)
  high_index_from-IsHigh i max_index max_view (m ∷ ms) =
      elim (Bool-cases (ltb_ℤ max_view (view_of m))) [
        | inl later ↦ rw later (elim (high_index_from-IsHigh (i + 1) i (view_of m) ms) [
          | inl (e, a) ↦ inr (0, m, omega arith, refl, ground arith, (omega arith, a))
          | inr (j, n, e, at, l, a) ↦
              inr (suc j, n, omega arith, at, ground arith, (omega arith, a))
        ])
        | inr kept ↦ rw kept (elim (high_index_from-IsHigh (i + 1) max_index max_view ms) [
          | inl (e, a) ↦ inl (e, (ground arith, a))
          | inr (j, n, e, at, l, a) ↦
              inr (suc j, n, omega arith, at, omega arith, (ground arith, a))
        ])
      ]

  -- Started on the first message of a list, the search ends at one that none is later than.
  pub high_index_from-highest :
      (m : A) (ms : List A)
      → (i : ℕ) × (h : A) × (high_index_from 0 0 (view_of m) (m ∷ ms) ≡ i)
        × (get_elem? (m ∷ ms) i ≡ some h)
        × NotAbove (m ∷ ms) (view_of h)
  high_index_from-highest m ms = elim (high_index_from-IsHigh 0 0 (view_of m) (m ∷ ms)) [
    | inl (e, a) ↦ (0, m, e, refl, a)
    | inr (j, n, e, at, l, a) ↦ (j, n, omega arith, at, a)
  ]
