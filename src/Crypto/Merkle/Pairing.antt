-- ===== src/Crypto/Merkle/Pairing.antt =====
-- One pass of HashFromByteSlicesIterative against the split of HashFromByteSlices.
use native.Mathlib.Nat.{pow-suc, pow-le-pow_right}
use native.Mathlib.Decide.{dec_lt}
use dcschain.Base.{
  ℕ, zero, suc, ◌+◌, ◌*◌, ◌/◌, ◌^◌, ◌≤◌, ◌<◌, ◌≡◌, refl, ap, ◌∙◌, sym, List, [], ◌∷◌, arith, Bytes,
  length, take, drop,
}
use dcschain.Crypto.Merkle.Defs.{get_split_point, inner_hash, pair_up}
use dcschain.Crypto.Merkle.Split.{SplitsAt, get_split_point_bounds}

abbrev pub double : ℕ → ℕ
double zero = 0
double (suc j) = suc (suc (double j))

double_lem : (j : ℕ) → double j ≡ 2 * j
double_lem zero = refl
double_lem (suc j) = omega (arith, double_lem j)

-- Powers of two grow.
pow_grows : (a b : ℕ) → a < b → 2 * 2 ^ a ≤ 2 ^ b
pow_grows a b h =
    let le : suc a ≤ b = omega arith in
    let grows : 2 ^ suc a ≤ 2 ^ b = pow-le-pow_right {n = 2} (omega arith) le in
    omega (arith, pow-suc 2 a)

SplitsAt-unique : (n k l : ℕ) → SplitsAt n k → SplitsAt n l → k ≡ l
SplitsAt-unique n k l (a, ka, low, high) (b, lb, low', high') = elim (dec_lt a b) [
  | yes less ↦ absurd (omega (arith, pow_grows a b less))
  | no not_less ↦ elim (dec_lt b a) [
    | yes more ↦ absurd (omega (arith, pow_grows b a more))
    | no not_more ↦ let same : a ≡ b = omega arith in ka ∙ ap (λ (i : ℕ). 2 ^ i) same ∙ sym lb
  ]
]

half_SplitsAt :
    (n k : ℕ) → 3 ≤ n → SplitsAt n k → (j : ℕ) × (k ≡ double j) × SplitsAt ((n + 1) / 2) j
half_SplitsAt n k h (zero, e, low, high) = absurd (omega arith)
half_SplitsAt n k h (suc m, e, low, high) = (
  2 ^ m,
  omega (arith, double_lem (2 ^ m), pow-suc 2 m),
  (m, refl, omega (arith, pow-suc 2 m), omega (arith, pow-suc 2 m)),
)

module _ (sum_sm3 : List ℕ → List ℕ) where
  pub length-pair_up : (xs : List Bytes) → length (pair_up sum_sm3 xs) ≡ (length xs + 1) / 2
  unfolding pair_up
  length-pair_up [] = refl
  length-pair_up (x ∷ []) = refl
  length-pair_up (x ∷ y ∷ xs) = omega (arith, length-pair_up xs)

  pub pair_up-take :
      (j : ℕ) (xs : List Bytes) → pair_up sum_sm3 (take (double j) xs) ≡ take j (pair_up sum_sm3 xs)
  unfolding pair_up
  pair_up-take zero xs = refl
  pair_up-take (suc j) [] = refl
  pair_up-take (suc zero) (x ∷ []) = refl
  pair_up-take (suc (suc j)) (x ∷ []) = refl
  pair_up-take (suc j) (x ∷ y ∷ xs) = ap (λ r. inner_hash sum_sm3 x y ∷ r) (pair_up-take j xs)

  pub pair_up-drop :
      (j : ℕ) (xs : List Bytes) → pair_up sum_sm3 (drop (double j) xs) ≡ drop j (pair_up sum_sm3 xs)
  unfolding pair_up
  pair_up-drop zero xs = refl
  pair_up-drop (suc j) [] = refl
  pair_up-drop (suc zero) (x ∷ []) = refl
  pair_up-drop (suc (suc j)) (x ∷ []) = refl
  pair_up-drop (suc j) (x ∷ y ∷ xs) = pair_up-drop j xs

-- The split point of a list of at least three is twice that of the list with its items paired.
pub get_split_point-half :
    (n : ℕ) → 3 ≤ n → get_split_point n ≡ double (get_split_point ((n + 1) / 2))
get_split_point-half n h =
    let (j, twice, splits) =
      half_SplitsAt n (get_split_point n) h (get_split_point_bounds n (omega arith)) in
    twice
    ∙ ap double (
        SplitsAt-unique ((n + 1) / 2) j (get_split_point ((n + 1) / 2)) splits
          (get_split_point_bounds ((n + 1) / 2) (omega arith)))
