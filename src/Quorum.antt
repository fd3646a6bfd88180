-- ===== src/Quorum.antt =====
-- The quorum that every protocol of orderer/consensus waits for: more than `(NodesNum-1)/3*2`
-- messages, the same expression in basic_hotstuff.go, generic.go, hotstuff_2.go and pbft.go.
pub mod Count
pub mod Intersection
use dcschain.Base.{ℕ, ◌-◌, ◌*◌, ◌/◌}

unfoldable pub threshold : ℕ → ℕ
threshold n = (n - 1) / 3 * 2

-- The faults that `n` nodes are meant to tolerate.
unfoldable pub max_faulty : ℕ → ℕ
max_faulty n = (n - 1) / 3
