-- ===== src/Quorum/Count.antt =====
-- Counting the nodes, numbered from 0, that pass a test.
use Prim.Native.Nat.{min}
use mathlib.Core.Bool.{◌&&◌, ◌||◌}
use native.Mathlib.Decide.{dec_lt}
use dcschain.Base.{
  ℕ, zero, suc, ◌+◌, ◌-◌, ◌≤◌, ◌<◌, ◌≡◌, refl, Bool, true, false, arith, if◌then◌else◌, ltb, leb,
}

unfoldable pub count : ℕ → (ℕ → Bool) → ℕ
count zero p = 0
count (suc n) p = if p n then suc (count n p) else count n p

pub count-inclusion :
    (n : ℕ) (p q : ℕ → Bool)
    → count n p + count n q ≡ count n (λ i. p i && q i) + count n (λ i. p i || q i)
unfolding count
count-inclusion zero p q = refl
count-inclusion (suc n) p q = ground (arith, count-inclusion n p q)

pub count-le : (n : ℕ) (p : ℕ → Bool) → count n p ≤ n
unfolding count
count-le zero p = omega arith
count-le (suc n) p = ground (arith, count-le n p)

-- If more nodes pass one test than another, some node passes the first alone.
pub count-pick :
    (n : ℕ) (p q : ℕ → Bool)
    → count n q < count n p
    → (i : ℕ) × (i < n) × (p i ≡ true) × (q i ≡ false)
unfolding count
count-pick zero p q h = absurd (omega arith)
count-pick (suc n) p q h = elim (dec_lt (count n q) (count n p)) [
  | yes below ↦ let (i, lt, in_p, out_q) = count-pick n p q below in (i, omega arith, in_p, out_q)
  | no last ↦ (n, omega arith, ground arith, ground arith)
]

pub count-below : (n k : ℕ) → count n (λ i. ltb i k) ≡ min n k
unfolding count
count-below zero k = omega arith
count-below (suc n) k = ground (arith, count-below n k)

pub count-from : (n k : ℕ) → count n (λ i. leb k i) ≡ n - k
unfolding count
count-from zero k = omega arith
count-from (suc n) k = ground (arith, count-from n k)

pub count-band : (n k l : ℕ) → count n (λ i. ltb i k && leb l i) ≡ min n k - l
unfolding count
count-band zero k l = omega arith
count-band (suc n) k l = ground (arith, count-band n k l)
