-- ===== src/BasicHotstuff/Agreement.antt =====
-- Agreement within a view of basic HotStuff, over the runs of all correct replicas.
use dcschain.Base.{ℕ, ◌%◌, ◌≤◌, ◌<◌, ◌≡◌, sym, ap, ◌∙◌, Bool, true, false, List, [], some, ℤ}
use dcschain.Common.Encode.{HsNode}
use dcschain.Quorum.{threshold, max_faulty}
use dcschain.Quorum.Count.{count}
use dcschain.Quorum.Intersection.{quorum_intersection}
use dcschain.BasicHotstuff.State.{Env, ServerMsg, BcHotstuff}
use dcschain.BasicHotstuff.Core.{Event, run}
use dcschain.BasicHotstuff.Votes.{In, IsVote, view_of, run_votes_once}

-- Among what was sent is a prepare vote for this node in this view.
abbrev pub VotedFor : List ServerMsg → ℤ → HsNode → Type 0
VotedFor sent v node =
    (e : ServerMsg) × In e sent × IsVote e × (view_of e ≡ v) × (e.payload.hs_node ≡ node)

-- A quorum for a node: a set of replicas that exceeds the threshold, whose correct members voted.
abbrev pub Certified : ℕ → (ℕ → Bool) → (ℕ → BcHotstuff) → ℤ → HsNode → Type 0
Certified n faulty final v node =
    (signers : ℕ → Bool) × (threshold n < count n signers)
    × ((i : ℕ) → signers i ≡ true → faulty i ≡ false → VotedFor (final i).sent v node)

-- Of 3f + 1 replicas let at most f be faulty, and let every correct one run on any events from a
-- state with nothing sent. Then two nodes that quorums voted to prepare in one view are the same.
pub prepare_agreement :
    (n : ℕ) (faulty : ℕ → Bool) (env : ℕ → Env) (events : ℕ → List Event)
    (initial final : ℕ → BcHotstuff) (v : ℤ) (a b : HsNode)
    → n % 3 ≡ 1
    → count n faulty ≤ max_faulty n
    → ((i : ℕ) → faulty i ≡ false → (initial i).sent ≡ [])
    → ((i : ℕ) → faulty i ≡ false → run (env i) (events i) (initial i) ≡ some (final i))
    → Certified n faulty final v a
    → Certified n faulty final v b
    → a ≡ b
prepare_agreement n faulty env events initial final v a b shape few start done (p, hp, votes_a)
      (q, hq, votes_b) =
    let (i, lt, in_p, in_q, correct) = quorum_intersection n faulty p q shape few hp hq in
    let (d, d_sent, d_vote, d_view, d_node) = votes_a i in_p correct in
    let (e, e_sent, e_vote, e_view, e_node) = votes_b i in_q correct in
    let same =
      run_votes_once (env i) (events i) (initial i) (final i) (start i correct) (done i correct) d e
        d_sent e_sent d_vote e_vote (d_view ∙ sym e_view) in
    sym d_node ∙ ap (λ m. m.payload.hs_node) same ∙ e_node
