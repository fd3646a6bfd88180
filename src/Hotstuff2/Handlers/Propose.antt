-- ===== src/Hotstuff2/Handlers/Propose.antt =====
-- core/propose.go and HandlePropose of core/vote1_commit.go: a proposal and the first vote. A panic
-- on an index out of range is `none`.
use dcschain.Base.{
  Bool, false, ◌&&◌, not, [], Option, none, some, ℤ, pos, ◌-ℤ◌, ◌==◌, eq_ℤ, ltb_ℤ, if◌then◌else◌,
  Bytes, text_eq,
}
use dcschain.Common.Encode.{two_dim_byte_slice_to_string_slice}
use dcschain.Crypto.Tss.{threshold_sign}
use dcschain.Blockchain.{hash, gen_new_block}
use dcschain.BasicHotstuff.Types.{broadcast}
use dcschain.BasicHotstuff.State.{Env}
use dcschain.Hotstuff2.Types.{
  new_view, new_propose, propose, vote1, prepare, is_empty, H2Msg, empty_h2_msg, message_to_byte,
}
use dcschain.Hotstuff2.State.{Hotstuff2, get_node_name, is_leader}
use dcschain.Hotstuff2.Rules.{check_qc, create_leaf}
use dcschain.Hotstuff2.Commit.{commit_locked}
use dcschain.Hotstuff2.Handlers.ViewChange.{HStep}

-- The double certificate that the view was entered by.
unfoldable pub take_double : Env → H2Msg → Hotstuff2 → Hotstuff2
unfolding check_qc
take_double env m s =
    if s.pm.optimistic_flag
      && (not (m.justify2.q_type == new_view)
          && check_qc env.signer m.justify2 prepare m.view_number m.justify2.height)
    then record s { prepare_qc = m.justify2; pm = record (s.pm) { optimistic_flag = false } }
    else s

-- A new block at the time `now`, and the message that proposes it.
unfoldable pub proposed : Env → ℤ → Hotstuff2 → HStep
unfolding create_leaf get_node_name
proposed env now s =
    let v = s.view.view_number in
    let bs =
      gen_new_block env.sum_sm3 now v (two_dim_byte_slice_to_string_slice s.cur_proposal.command) []
        s.blk_store in
    let t = record s {
      blk_store = bs;
      cur_proposal = record (s.cur_proposal) { view_number = v };
    } in
    let u = record t {
      cur_hs2_node = create_leaf t t.proposal_qc.hs2_node.cur_hash;
      cur_phase = propose;
    } in
    (
      u,
      some (record empty_h2_msg {
        m_type = propose;
        view_number = v;
        send_node = get_node_name u;
        reci_node = broadcast;
        block = u.blk_store.cur_proposal_blk;
        hs2_node = u.cur_hs2_node;
        justify1 = u.proposal_qc;
        justify2 = u.prepare_qc;
      }),
    )

-- GenProposal
unfoldable pub gen_proposal : Env → ℤ → H2Msg → Hotstuff2 → Option HStep
unfolding take_double proposed commit_locked is_empty
gen_proposal env now m s =
    let t = take_double env m s in
    if not (s.cur_phase == new_propose)
    then some (s, none)
    else if is_empty t.cur_proposal
    then some (t, none)
    else elim (commit_locked t.prepare_qc t) [ none ↦ none | some u ↦ some (proposed env now u) ]

-- Whether certificates are checked in this view.
unfoldable pub checks_qc : Hotstuff2 → Bool
checks_qc s = not (eq_ℤ s.view.view_number (pos 0)) && not s.ignore_check_qc

-- The check of the single certificate, `none` where it is refused. A leader does not take its own
-- certificate again.
unfoldable pub take_single : Env → H2Msg → Hotstuff2 → Option Hotstuff2
unfolding checks_qc check_qc is_leader get_node_name ◌-ℤ◌
take_single env m s =
    let j = m.justify1 in
    let height = s.blk_store.height in
    if is_leader s && text_eq (get_node_name s) m.send_node
    then if checks_qc s && not (check_qc env.signer j propose j.view_number (height -ℤ pos 1))
      then none
      else some s
    else if checks_qc s && not (check_qc env.signer j propose j.view_number height)
    then none
    else if ltb_ℤ s.proposal_qc.view_number j.view_number
    then some (record s { proposal_qc = j })
    else some s

-- The vote on `m` before it is signed.
abbrev pub vote1_on : H2Msg → H2Msg
vote1_on m = record empty_h2_msg {
  m_type = m.m_type;
  view_number = m.view_number;
  hs2_node = m.hs2_node;
  reci_node = m.send_node;
}

unfoldable pub propose_signed : H2Msg → Option Bytes → Hotstuff2 → HStep
propose_signed m none s = (s, none)
propose_signed m (some sig) s = (
  record s { cur_phase = propose },
  some (record (vote1_on m) { m_type = vote1; cons_sign = sig }),
)

-- HandlePropose from the update of the block on.
unfoldable pub propose_voted : Env → H2Msg → Hotstuff2 → HStep
unfolding propose_signed message_to_byte hash
propose_voted env m s =
    let t = record s {
      ignore_check_qc = false;
      cur_hs2_node = m.hs2_node;
      blk_store = record (s.blk_store) {
        cur_proposal_blk = m.block;
        cur_blk_hash = hash env.sum_sm3 m.block;
      };
    } in
    let u =
      if ltb_ℤ t.view.view_number m.view_number
      then record t { view = record (t.view) { view_number = m.view_number } }
      else t in
    propose_signed m (threshold_sign env.signer (message_to_byte (vote1_on m))) u

-- The part of HandlePropose that commits, once the single certificate is taken.
unfoldable pub propose_committed : Env → H2Msg → Hotstuff2 → Option HStep
unfolding propose_voted checks_qc check_qc commit_locked is_leader
propose_committed env m s =
    let j = m.justify2 in
    if is_leader s
    then some (propose_voted env m s)
    else if checks_qc s && not (check_qc env.signer j prepare j.view_number j.height)
    then some (s, none)
    else elim (commit_locked j s) [ none ↦ none | some t ↦ some (propose_voted env m t) ]

unfoldable pub handle_propose : Env → H2Msg → Hotstuff2 → Option HStep
unfolding take_single propose_committed is_leader
handle_propose env m s =
    if s.cur_phase == propose && not (is_leader s)
    then some (s, none)
    else if not (eq_ℤ s.view.view_number m.view_number)
    then some (s, none)
    else elim (take_single env m s) [ none ↦ some (s, none) | some t ↦ propose_committed env m t ]
