-- ===== src/Hotstuff2/Handlers/Votes.antt =====
-- core/prepare.go and vote2.go: the certificate of the first votes, and the second votes.
use dcschain.Base.{
  ◌&&◌, ◌||◌, not, [], ◌∷◌, ◌++◌, Option, none, some, ◌==◌, eq_ℤ, ltb_ℤ, leb, if◌then◌else◌, Bytes,
  is_nil, length,
}
use dcschain.Common.View
use dcschain.Common.Timer.{stop}
use dcschain.Crypto.Tss.{threshold_sign}
use dcschain.Quorum.{threshold}
use dcschain.BasicHotstuff.Types.{broadcast}
use dcschain.BasicHotstuff.State.{Env}
use dcschain.Hotstuff2.Types
use dcschain.Hotstuff2.Types.{
  new_view, propose, prepare, enter, QuromCert, H2Msg, empty_h2_msg, message_to_byte, StateType,
}
use dcschain.Hotstuff2.State.{Hotstuff2, get_next_leader_name, is_leader}
use dcschain.Hotstuff2.Rules.{check_qc, combine_sign}
use dcschain.Hotstuff2.Handlers.ViewChange.{HStep}

-- What the votes for the current node sign.
abbrev pub voted_msg : StateType → Hotstuff2 → H2Msg
voted_msg code s = record empty_h2_msg {
  m_type = code;
  view_number = s.view.view_number;
  hs2_node = s.cur_hs2_node;
}

-- The certificate of the current node with the combined signature `sig`.
abbrev pub cert_of : StateType → Bytes → Hotstuff2 → QuromCert
cert_of code sig s = record {
  q_type = code;
  view_number = s.view.view_number;
  height = s.blk_store.cur_proposal_blk.blk_hdr.height;
  hs2_node = s.cur_hs2_node;
  sign = sig;
}

unfoldable pub handle_vote1 : Env → H2Msg → Hotstuff2 → HStep
unfolding combine_sign
handle_vote1 env m s =
    let t = record s { vote1 = s.vote1 ++ (m ∷ []) } in
    let qc = cert_of propose (combine_sign env.signer t.vote1 (voted_msg propose t)) t in
    if not (eq_ℤ m.view_number s.view.view_number)
    then (s, none)
    else if not (t.cur_phase == propose)
    then (t, none)
    else if leb (length t.vote1) (threshold t.view.nodes_num)
    then (t, none)
    else (
      record t { proposal_qc = qc; cur_phase = prepare },
      some (record empty_h2_msg {
        m_type = prepare;
        view_number = t.view.view_number;
        hs2_node = t.cur_hs2_node;
        reci_node = broadcast;
        justify1 = qc;
      }),
    )

-- The second vote on `m` before it is signed.
abbrev pub vote2_on : H2Msg → H2Msg
vote2_on m = record empty_h2_msg {
  m_type = m.m_type;
  view_number = m.view_number;
  hs2_node = m.hs2_node;
}

unfoldable pub prepare_signed : H2Msg → Option Bytes → Hotstuff2 → HStep
unfolding stop get_next_leader_name
prepare_signed m none s = (s, none)
prepare_signed m (some sig) s = (
  record s {
    pm = record (s.pm) { view_timer = stop s.pm.view_timer };
    proposal_qc = m.justify1;
    cur_phase = prepare;
  },
  some (record (vote2_on m) {
    m_type = Types.vote2;
    cons_sign = sig;
    reci_node = get_next_leader_name s;
  }),
)

unfoldable pub handle_prepare : Env → H2Msg → Hotstuff2 → HStep
unfolding prepare_signed check_qc message_to_byte is_leader
handle_prepare env m s =
    if ltb_ℤ s.view.view_number m.view_number
    then (s, none)
    else if (is_leader s && not (s.cur_phase == prepare))
        || (not (is_leader s) && not (s.cur_phase == propose))
    then (s, none)
    else if not (
        check_qc env.signer m.justify1 propose s.view.view_number
          s.blk_store.cur_proposal_blk.blk_hdr.height)
    then (s, none)
    else prepare_signed m (threshold_sign env.signer (message_to_byte (vote2_on m))) s

-- HandleVote2 from the combined signature on.
unfoldable pub vote2_certified : Bytes → Hotstuff2 → HStep
vote2_certified sig s =
    let qc = cert_of prepare sig s in
    if is_nil sig then (s, none) else (
      record s { prepare_qc = qc; cur_phase = new_view },
      some (record empty_h2_msg {
        m_type = enter;
        view_number = s.view.view_number;
        reci_node = broadcast;
        justify2 = qc;
      }),
    )

unfoldable pub handle_vote2 : Env → H2Msg → Hotstuff2 → HStep
unfolding combine_sign vote2_certified
handle_vote2 env m s =
    let t = record s { vote2 = s.vote2 ++ (m ∷ []) } in
    if ltb_ℤ m.view_number s.view.view_number
    then (s, none)
    else if not (t.cur_phase == prepare)
    then (t, none)
    else if leb (length t.vote2) (threshold t.view.nodes_num)
    then (t, none)
    else vote2_certified (combine_sign env.signer t.vote2 (voted_msg prepare t)) t

-- NewRound
unfoldable pub new_round : Hotstuff2 → Hotstuff2
unfolding View.next_view
new_round s = record s {
  view = View.next_view s.view;
  last_round_msg = s.cur_round_msgs;
  cur_round_msgs = [];
  new_view_msgs = [];
  vote1 = [];
  vote2 = [];
}
