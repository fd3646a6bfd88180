-- ===== src/BasicHotstuff/Leader.antt =====
-- The leader of a view: who it is, and which node it proposes.
use dcschain.Base.{
  ℕ, ◌<◌, ◌≡◌, refl, ap, ◌∙◌, ◌⊎◌, inl, inr, ◌↔◌, ◌≢◌, true, false, List, [], ◌∷◌, Option, none,
  some, arith, ℤ, length, get_elem?, text_eq_iff, is_nil, elems, ◌++◌, pos, ◌+ℤ◌,
}
use dcschain.Common.Name.{node_name, node_name-injective}
use dcschain.Common.View.{leader_name}
use dcschain.Common.View
use dcschain.Common.Highest.{NotAbove, high_index_from-highest}
use dcschain.Quorum.{threshold}
use dcschain.BasicHotstuff.Types.{new_view, prepare, prepare_vote, pre_commit, waiting, Msg}
use dcschain.BasicHotstuff.State.{Env, BcHotstuff}
use dcschain.BasicHotstuff.Rules.{
  get_node_name, get_leader_name, is_leader, matching_msg, combine_sign, get_high_qc_index,
  high_msg,
}
use dcschain.BasicHotstuff.Handlers.{Step, gen_proposal, handle_prepare_vote}

-- A replica takes itself for the leader exactly if the view's leader has its number.
is_leader_iff : (s : BcHotstuff) → (is_leader s ≡ true) ↔ (s.cons_id ≡ s.view.leader)
unfolding is_leader get_node_name get_leader_name leader_name
is_leader_iff s =
    let (to, from) = text_eq_iff (node_name s.cons_id) (node_name s.view.leader) in
    ((λ h. node_name-injective s.cons_id s.view.leader (to h)), λ e. from (ap node_name e))

-- None of the messages justifies its node by a later view.
abbrev NotLater : List Msg → ℤ → Type 0
NotLater ms v = NotAbove (λ (m : Msg). m.justify.view_number) ms v

-- Of a list of messages that is not empty, GetHighQCIndex picks one whose justification is of the
-- latest view of all.
high_msg_highest :
    (ms : List Msg)
    → 0 < length ms
    → (i : ℕ) × (h : Msg) × (get_high_qc_index ms ≡ some i)
      × (get_elem? ms i ≡ some h)
      × (high_msg ms ≡ some h)
      × NotLater ms h.justify.view_number
unfolding high_msg get_high_qc_index
high_msg_highest [] h = absurd (omega arith)
high_msg_highest (m ∷ ms) h =
    let (i, n, e, at, a) = high_index_from-highest (λ m. m.justify.view_number) m ms in
    (i, n, ap some e, at, ap (λ r. get_elem? (m ∷ ms) r) e ∙ at, a)

-- What a proposal is built on: the certificate of a highest new-view message.
abbrev pub Highest : BcHotstuff → Msg → Msg → BcHotstuff → Type 0
Highest s h r t =
    (high_msg s.new_view_msgs ≡ some h)
    × NotLater s.new_view_msgs h.justify.view_number
    × (r.m_type ≡ prepare)
    × (r.view_number ≡ s.view.view_number)
    × (r.justify ≡ h.justify)
    × (t.hs_node.parent_hash ≡ h.justify.hs_node.cur_hash)
    × (r.hs_node ≡ t.hs_node)
    × (t.cur_phase ≡ prepare)

-- What HandleNewView gives on a quorum: no panic, and a proposal only as it is to be.
abbrev pub Proposes : BcHotstuff → Option Step → Type 0
Proposes s none = ⊥
Proposes s (some (t, none)) = (t.cur_phase ≡ s.cur_phase) ⊎ (t.cur_phase ≡ waiting)
Proposes s (some (t, some r)) =
    (threshold s.view.nodes_num < length s.new_view_msgs)
    × (0 < length (elems s.cur_proposal.commands))
    × ((h : Msg) × Highest s h r t)

-- What is on record of the new-view messages once `m` has been looked at.
abbrev pub Records : Msg → BcHotstuff → BcHotstuff → Type 0
Records m s t =
    (t.new_view_msgs ≡ s.new_view_msgs)
    ⊎ ((m.m_type ≡ new_view)
        × (m.view_number ≡ s.view.view_number)
        × (t.new_view_msgs ≡ s.new_view_msgs ++ (m ∷ [])))

-- A timeout enters the next view with the new-view messages of before.
abbrev pub KeepsRecord : BcHotstuff → BcHotstuff → Type 0
KeepsRecord s t =
    (t.new_view_msgs ≡ s.new_view_msgs) × (t.view.view_number ≡ s.view.view_number +ℤ pos 1)

high_msg-none :
    (ms : List Msg)
    → ((ms ≡ []) × (high_msg ms ≡ none)) ⊎ ((h : Msg) × (high_msg ms ≡ some h) × (ms ≢ []))
unfolding high_msg get_high_qc_index
high_msg-none [] = inl (refl, refl)
high_msg-none (m ∷ ms) =
    let (i, h, chosen, at, high, latest) = high_msg_highest (m ∷ ms) (omega arith) in
    inr (h, high, λ e. cc)

-- GenProposal panics exactly when it is told to ignore the threshold and there is no new-view
-- message to build on.
gen_proposal_panics :
    (env : Env) (now : ℤ) (s : BcHotstuff)
    → (gen_proposal env now s ≡ none) ↔ ((s.new_view_msgs ≡ []) × (s.ignore_check_qc ≡ true))
unfolding gen_proposal
gen_proposal_panics env now s = elim (high_msg-none s.new_view_msgs) [
  | inl (empty, fault) ↦ rw (fault, empty) ((λ h. (refl, ground arith)), (λ h. ground arith))
  | inr (h, high, some_msg) ↦ rw high ((λ e. ground arith), (λ e. absurd (some_msg e.0)))
]

-- A vote handler does not look again at the message that it did not log: once more votes than the
-- threshold are logged, a message of another view to the leader is what the certificate is for.
stale_vote_certified :
    (env : Env) (m : Msg) (s : BcHotstuff)
    → s.cur_phase ≡ prepare
    → is_leader s ≡ true
    → matching_msg m prepare_vote s.view.view_number ≡ false
    → threshold s.view.nodes_num < length s.prepare_votes
    → is_nil (combine_sign env.signer s.prepare_votes s) ≡ false
    → let t = (handle_prepare_vote env m s).0 in
      (t.prepare_qc.view_number ≡ m.view_number)
      × (t.prepare_qc.hs_node ≡ m.hs_node)
      × (t.cur_phase ≡ pre_commit)
unfolding handle_prepare_vote
stale_vote_certified env m s phase leads other over signed = ground arith
