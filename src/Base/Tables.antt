-- ===== src/Base/Tables.antt =====
-- Go's `map[string]V`. The order of the entries is one of those in which Go may iterate.
use dcschain.Base.Lists.{length}
use dcschain.Base.Tests.{if◌then◌else◌, Bool-cases}
use dcschain.Base.Slices.{Text, text_eq, text_eq_iff}
use Prim.Native.Nat.{suc}
use mathlib.Core.Path.{◌≡◌, refl, ap, subst}
use mathlib.Core.List.{List, [], ◌∷◌}
use mathlib.Core.Logic.{inl, inr}
use mathlib.Core.Bool.{Bool, true, false}
use mathlib.Core.Option.{Option, none, some}
use native.Mathlib.Omega.{arith}

abbrev pub Table {ℓ} : Type ℓ → Type ℓ
Table V = List (Text × V)

module _ {ℓ} {V : Type ℓ} where
  unfoldable pub find : Text → Table V → Option V
  find k [] = none
  find k ((j, v) ∷ t) = if text_eq j k then some v else find k t

  -- m[k] = v
  unfoldable pub put : Text → V → Table V → Table V
  put k v [] = (k, v) ∷ []
  put k v ((j, w) ∷ t) = let rest = put k v t in if text_eq j k then (j, v) ∷ t else (j, w) ∷ rest

  -- delete(m, k)
  unfoldable pub remove : Text → Table V → Table V
  remove k [] = []
  remove k ((j, v) ∷ t) = let rest = remove k t in if text_eq j k then rest else (j, v) ∷ rest

  abbrev pub is_found : Option V → Bool
  is_found none = false
  is_found (some v) = true

  abbrev pub has : Text → Table V → Bool
  has k t = is_found (find k t)

  -- No name stands twice, as in any Go map.
  abbrev pub IsTable : Table V → Type 0
  IsTable [] = Unit
  IsTable ((k, v) ∷ t) = (has k t ≡ false) × IsTable t

  pub find-put :
      (k j : Text) (v : V) (t : Table V)
      → find j (put k v t) ≡ (if text_eq k j then some v else find j t)
  unfolding find put
  find-put k j v [] = refl
  find-put k j v ((i, w) ∷ t) =
      ground (arith, find-put k j v t, text_eq_iff i k, text_eq_iff i j, text_eq_iff k j)

  pub find-remove :
      (k j : Text) (t : Table V) → find j (remove k t) ≡ (if text_eq k j then none else find j t)
  unfolding find remove
  find-remove k j [] = ground arith
  find-remove k j ((i, w) ∷ t) =
      ground (arith, find-remove k j t, text_eq_iff i k, text_eq_iff i j, text_eq_iff k j)

  pub length-put :
      (k : Text) (v : V) (t : Table V)
      → length (put k v t) ≡ (if has k t then length t else suc (length t))
  unfolding find put
  length-put k v [] = refl
  length-put k v ((j, w) ∷ t) = ground (arith, length-put k v t)

  pub put-IsTable : (k : Text) (v : V) (t : Table V) → IsTable t → IsTable (put k v t)
  unfolding find put
  put-IsTable k v [] h = (refl, tt)
  put-IsTable k v ((j, w) ∷ t) h = elim (Bool-cases (text_eq j k)) [
    | inl same ↦ rw same h
    | inr other ↦ rw other (
      ground (arith, h.0, find-put k j v t, text_eq_iff k j, text_eq_iff j k),
      put-IsTable k v t h.1,
    )
  ]

  pub remove-IsTable : (k : Text) (t : Table V) → IsTable t → IsTable (remove k t)
  unfolding find remove
  remove-IsTable k [] h = tt
  remove-IsTable k ((j, w) ∷ t) h = elim (Bool-cases (text_eq j k)) [
    | inl same ↦ rw same (remove-IsTable k t h.1)
    | inr other ↦ rw other (ground (arith, h.0, find-remove k j t), remove-IsTable k t h.1)
  ]

  -- What is not there is not removed.
  remove-absent : (k : Text) (t : Table V) → has k t ≡ false → remove k t ≡ t
  unfolding find remove
  remove-absent k [] h = refl
  remove-absent k ((j, w) ∷ t) h = elim (Bool-cases (text_eq j k)) [
    | inl same ↦ ground (arith, rw same at h)
    | inr other ↦ rw other (ap (λ r. (j, w) ∷ r) (remove-absent k t (rw other at h)))
  ]

  pub length-remove :
      (k : Text) (t : Table V) → IsTable t → has k t ≡ true → suc (length (remove k t)) ≡ length t
  unfolding find remove
  length-remove k [] h there = cc
  length-remove k ((j, w) ∷ t) h there = elim (Bool-cases (text_eq j k)) [
    | inl same ↦
        let e : j ≡ k = (text_eq_iff j k).0 same in
        let kept = remove-absent k t (subst (λ x. has x t ≡ false) e h.0) in
        rw same (ap (λ r. suc (length r)) kept)
    | inr other ↦ rw other (ap suc (length-remove k t h.1 (rw other at there)))
  ]
