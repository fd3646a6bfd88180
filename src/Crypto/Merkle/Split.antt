-- ===== src/Crypto/Merkle/Split.antt =====
-- The split point of merkle/tree.go.
use native.Mathlib.Nat.{pow-suc}
use dcschain.Base.{
  ℕ, zero, suc, ◌-◌, ◌*◌, ◌/◌, ◌^◌, ◌≤◌, ◌<◌, ◌≡◌, refl, ap, arith, ◌==◌, if◌then◌else◌, Bool-cases,
  inl, inr,
}
use dcschain.Crypto.Merkle.Defs.{bits_len_from, bits_len, get_split_point}

bits_len_from-zero : (f : ℕ) → bits_len_from f 0 ≡ 0
unfolding bits_len_from
bits_len_from-zero zero = refl
bits_len_from-zero (suc f) = refl

-- `d` is the number of binary digits of `n`.
abbrev CountsDigits : ℕ → ℕ → Type 0
CountsDigits n d = (m : ℕ) × (d ≡ suc m) × (2 ^ m ≤ n) × (n < 2 * 2 ^ m)

CountsDigits-half : (n d : ℕ) → CountsDigits (n / 2) d → CountsDigits n (suc d)
CountsDigits-half n d (m, e, low, high) =
    (suc m, ap suc e, omega (arith, pow-suc 2 m), omega (arith, pow-suc 2 m))

bits_len_from_step : (f n : ℕ) → 2 ≤ n → bits_len_from (suc f) n ≡ suc (bits_len_from f (n / 2))
unfolding bits_len_from
bits_len_from_step f n h = ground arith

bits_len_from_bounds : (f n : ℕ) → n ≤ f → 0 < n → CountsDigits n (bits_len_from f n)
bits_len_from_bounds zero n h p = absurd (omega arith)
bits_len_from_bounds (suc f) zero h p = absurd (omega arith)
bits_len_from_bounds (suc f) (suc zero) h p =
    (0, unfold bits_len_from in ap suc (bits_len_from-zero f), omega arith, omega arith)
bits_len_from_bounds (suc f) (suc (suc n)) h p =
    rw (bits_len_from_step f (suc (suc n)) (omega arith)) (
      CountsDigits-half (suc (suc n)) _
        (bits_len_from_bounds f (suc (suc n) / 2) (omega arith) (omega arith)))

-- A split point `k` of a list of `n` items: the largest power of two below `n`.
abbrev pub SplitsAt : ℕ → ℕ → Type 0
SplitsAt n k = (m : ℕ) × (k ≡ 2 ^ m) × (2 ^ m < n) × (n ≤ 2 * 2 ^ m)

SplitsAt-of_digits :
    (n d : ℕ)
    → 2 ≤ n
    → CountsDigits n d
    → SplitsAt n (if (2 ^ (d - 1)) == n then 2 ^ (d - 1) / 2 else 2 ^ (d - 1))
SplitsAt-of_digits n d h (zero, e, low, high) = absurd (omega arith)
SplitsAt-of_digits n d h (suc m, e, low, high) =
    let power : 2 ^ (d - 1) ≡ 2 ^ suc m = ap (λ (k : ℕ). 2 ^ k) (omega arith) in
    elim (Bool-cases ((2 ^ suc m) == n)) [
      | inl same ↦
          rw (power, same)
            (
              m,
              omega (arith, pow-suc 2 m),
              ground (arith, pow-suc 2 m),
              ground (arith, pow-suc 2 m),
            )
      | inr less ↦ rw (power, less) (suc m, refl, ground arith, omega arith)
    ]

-- For a length of at least two, the split point is the largest power of two below it.
pub get_split_point_bounds : (n : ℕ) → 2 ≤ n → SplitsAt n (get_split_point n)
unfolding get_split_point bits_len
get_split_point_bounds n h =
    SplitsAt-of_digits n (bits_len_from n n) h
      (bits_len_from_bounds n n (omega arith) (omega arith))
