-- ===== src/Quorum/Intersection.antt =====
-- When two quorums share a correct node.
use dcschain.Base.{
  ℕ, ◌+◌, ◌-◌, ◌*◌, ◌/◌, ◌%◌, ◌≤◌, ◌<◌, ◌≡◌, ◌≢◌, Bool, true, false, ◌&&◌, ◌||◌, arith, ltb, leb,
}
use dcschain.Quorum.{threshold, max_faulty}
use dcschain.Quorum.Count.{
  count, count-inclusion, count-le, count-pick, count-band, count-below, count-from,
}

-- With 3f + 1 nodes of which at most f are faulty, two sets of nodes that each exceed the
-- threshold have a correct node in common.
pub quorum_intersection :
    (n : ℕ) (faulty p q : ℕ → Bool)
    → n % 3 ≡ 1
    → count n faulty ≤ max_faulty n
    → threshold n < count n p
    → threshold n < count n q
    → (i : ℕ) × (i < n) × (p i ≡ true) × (q i ≡ true) × (faulty i ≡ false)
unfolding threshold max_faulty
quorum_intersection n faulty p q shape few hp hq =
    let (i, lt, both, correct) =
      count-pick n (λ i. p i && q i) faulty
        (omega (arith, count-inclusion n p q, count-le n (λ i. p i || q i))) in
    (i, lt, ground arith, ground arith, correct)

-- With any other number of nodes, at least two, some two sets exceed the threshold while every
-- node in both is faulty, although the faulty nodes are no more than are to be tolerated.
pub quorum_gap :
    (n : ℕ)
    → 2 ≤ n
    → n % 3 ≢ 1
    → (faulty : ℕ → Bool) × (p : ℕ → Bool) × (q : ℕ → Bool) × (count n faulty ≤ max_faulty n)
      × (threshold n < count n p)
      × (threshold n < count n q)
      × ((i : ℕ) → p i ≡ true → q i ≡ true → faulty i ≡ true)
unfolding threshold max_faulty
quorum_gap n two other =
    let k = (n - 1) / 3 * 2 + 1 in
    let l = n - k in
    (
      λ i. ltb i k && leb l i,
      λ i. ltb i k,
      λ i. leb l i,
      omega (arith, count-band n k l),
      omega (arith, count-below n k),
      omega (arith, count-from n l),
      λ i hp hq. ground arith,
    )
