-- ===== src/Mgmt/Choice.antt =====
-- What a new node chooses from the sync messages: the leader, and the state to take over.
use dcschain.Base.{
  ℕ, suc, ◌+◌, ◌≤◌, ◌<◌, ◌≡◌, refl, ◌⊎◌, inl, inr, true, false, List, [], ◌∷◌, ◌++◌, some, ℤ,
  negsuc, ◌≤ℤ◌, ◌<ℤ◌, ltb_ℤ, eq_ℤ, eq_ℤ_iff, ltb, arith, length, Bool-cases, All, ap, ◌∙◌,
}
use mathlib.Core.Path.{subst}
use dcschain.Quorum.{threshold}
use dcschain.Mgmt.Types.{NodeMgmtMsg}
use dcschain.Mgmt.Manager.{NodeManager}
use dcschain.Mgmt.Handlers.{
  high_qc_loop, get_high_qc_index, leader_count, leader_loop, get_leader_from_sync_msgs,
}

abbrev pub Among : ℤ → List ℤ → Type 0
Among l [] = ⊥
Among l (k ∷ ks) = (k ≡ l) ⊎ Among l ks

-- An order in which the leaders of the messages are tried: it has them all.
abbrev pub Tries : List ℤ → List NodeMgmtMsg → Type 0
Tries order ms = All (λ m. Among m.leader order) ms

-- Two different leaders share out the messages.
leader_count-apart :
    (a b : ℤ) (ms : List NodeMgmtMsg)
    → eq_ℤ a b ≡ false
    → leader_count a ms + leader_count b ms ≤ length ms
unfolding leader_count
leader_count-apart a b [] h = ground arith
leader_count-apart a b (m ∷ ms) h = ground (arith, leader_count-apart a b ms h)

counted-Among :
    (l : ℤ) (order : List ℤ) (ms : List NodeMgmtMsg)
    → 0 < leader_count l ms
    → Tries order ms
    → Among l order
unfolding leader_count
counted-Among l order [] h tried = absurd (omega arith)
counted-Among l order (m ∷ ms) h tried = elim (Bool-cases (eq_ℤ m.leader l)) [
  | inl same ↦ subst (λ k. Among k order) ((eq_ℤ_iff m.leader l).0 same) tried.0
  | inr other ↦ counted-Among l order ms (rw other at h) tried.1
]

-- The loop ends at the leader that more than `t` messages name, wherever that is in the order.
leader_loop_finds :
    (t : ℕ) (l : ℤ) (ms : List NodeMgmtMsg) (order : List ℤ)
    → length ms ≤ t + t + 1
    → t < leader_count l ms
    → Among l order
    → leader_loop t ms order ≡ l
unfolding leader_loop
leader_loop_finds t l ms [] few many tried = absurd tried
leader_loop_finds t l ms (k ∷ ks) few many (inl here) = ground (arith, few, many, here)
leader_loop_finds t l ms (k ∷ ks) few many (inr later) =
    elim (Bool-cases (ltb t (leader_count k ms))) [
      | inl found ↦ elim (Bool-cases (eq_ℤ k l)) [
        | inl same ↦ rw found ((eq_ℤ_iff k l).0 same)
        | inr other ↦ absurd (ground (arith, found, leader_count-apart k l ms other))
      ]
      | inr none_yet ↦ rw none_yet (leader_loop_finds t l ms ks few many later)
    ]

leader_loop_gives_up :
    (t : ℕ) (ms : List NodeMgmtMsg) (order : List ℤ)
    → ((l : ℤ) → leader_count l ms ≤ t)
    → leader_loop t ms order ≡ negsuc 0
unfolding leader_loop
leader_loop_gives_up t ms [] h = refl
leader_loop_gives_up t ms (k ∷ ks) h = ground (arith, h k, leader_loop_gives_up t ms ks h)

-- GetLeaderFromSyncMsgs on at most twice the threshold and one messages, with the leaders that
-- they name gone through in any order: a leader that more messages than the threshold name is the
-- answer, and if there is none the answer is -1.
pub get_leader_any_order :
    (nm : NodeManager) (ms : List NodeMgmtMsg) (order : List ℤ)
    → let t = threshold (length nm.nodes_table) in
      length ms ≤ t + t + 1
      → Tries order ms
      → ((l : ℤ) → t < leader_count l ms → get_leader_from_sync_msgs order ms nm ≡ l)
        × (((l : ℤ) → leader_count l ms ≤ t) → get_leader_from_sync_msgs order ms nm ≡ negsuc 0)
unfolding get_leader_from_sync_msgs
get_leader_any_order nm ms order few tried =
    let t = threshold (length nm.nodes_table) in
    (
      (λ l many.
          leader_loop_finds t l ms order few many (counted-Among l order ms (omega arith) tried)),
      (λ none_many. leader_loop_gives_up t ms order none_many),
    )

-- Once an index is chosen under a bound that no further certificate exceeds, it stays.
high_qc_loop_stays :
    (ms : List NodeMgmtMsg) (i k : ℕ) (bound : ℤ)
    → All (λ m. m.justify.view_number ≤ℤ bound) ms
    → high_qc_loop ms i k bound ≡ k
unfolding high_qc_loop
high_qc_loop_stays [] i k bound h = refl
high_qc_loop_stays (m ∷ ms) i k bound (low, h) =
    let not_higher : ltb_ℤ bound m.justify.view_number ≡ false = ground arith in
    rw not_higher (high_qc_loop_stays ms (suc i) k bound h)

high_qc_loop_skips :
    (before rest : List NodeMgmtMsg) (m : NodeMgmtMsg) (i k : ℕ) (bound : ℤ)
    → All (λ n. n.justify.view_number ≤ℤ bound) before
    → bound <ℤ m.justify.view_number
    → All (λ n. n.justify.view_number ≤ℤ m.view_number) rest
    → high_qc_loop (before ++ (m ∷ rest)) i k bound ≡ i + length before
unfolding high_qc_loop
high_qc_loop_skips [] rest m i k bound low higher late =
    let h : ltb_ℤ bound m.justify.view_number ≡ true = ground arith in
    rw (h, high_qc_loop) (high_qc_loop_stays rest (suc i) i m.view_number late ∙ omega arith)
high_qc_loop_skips (n ∷ before) rest m i k bound (low_n, low) higher late =
    let h : ltb_ℤ bound n.justify.view_number ≡ false = ground arith in
    rw (h, high_qc_loop)
      (high_qc_loop_skips before rest m (suc i) k bound low higher late ∙ omega arith)

-- GetHighQCIndex remembers the view of the message and not that of its certificate: the first
-- message with a later certificate than the first one is the answer as soon as its own view is no
-- earlier than any certificate after it, although later messages may have later certificates.
pub get_high_qc_index_first :
    (a m : NodeMgmtMsg) (before rest : List NodeMgmtMsg)
    → All (λ n. n.justify.view_number ≤ℤ a.justify.view_number) before
    → a.justify.view_number <ℤ m.justify.view_number
    → All (λ n. n.justify.view_number ≤ℤ m.view_number) rest
    → get_high_qc_index ((a ∷ before) ++ (m ∷ rest)) ≡ some (suc (length before))
unfolding get_high_qc_index
get_high_qc_index_first a m before rest low higher late = ap some (
    high_qc_loop_skips (a ∷ before) rest m 0 0 a.justify.view_number (omega arith, low) higher late
    ∙ omega arith)
