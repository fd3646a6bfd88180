-- ===== src/Pbft/Redo.antt =====
-- core/new_view.go (HandleNewViewMsg), core/prepare.go (HandleVCPrepareMsg) and core/commit.go (HandleVCCommitMsg): the replicas redo what was prepared.
use dcschain.Base.{
  ℕ, ◌+◌, Bool, true, false, ◌&&◌, ◌||◌, not, List, [], ◌∷◌, Option, none, some, ℤ, pos, ◌+ℤ◌,
  ltb_ℤ, eq_ℤ, ◌==◌, if◌then◌else◌, length, map, is_nil,
}
use dcschain.Common.View
use dcschain.Common.Timer.{start, stop}
use dcschain.Quorum.{threshold}
use dcschain.Blockchain.{gen_empty_block}
use dcschain.BasicHotstuff.Types.{broadcast}
use dcschain.Pbft.Types.{
  new_view, view_change, prepare, commit, reply, vc_prepare, vc_commit, vc_reply, empty_proposal,
  Head, empty_head, PMsg, plain, to_p_msgs, empty_log,
}
use dcschain.Pbft.Encode.{named_to_byte, new_view_to_byte}
use dcschain.Pbft.State.{Env, Pbft, get_node_name}
use dcschain.Pbft.Log.{log_msg}
use dcschain.Pbft.Commit.{Step, sign_named}
use dcschain.Pbft.OSet.{heads, verify_o_set}

-- The message that answers a view-change phase, with its own slice of messages.
abbrev pub phase_msg : Env → Head → List PMsg → PMsg
phase_msg env h os = record (sign_named env h) { o_set = to_p_msgs os }

-- The message for `h`, a message of OSet, in the next phase.
abbrev pub vc_answer : Env → ℕ → Pbft → Head → PMsg
vc_answer env kind p h = sign_named env (record empty_head {
  m_type = kind;
  view_number = p.view.view_number;
  seq_num = h.seq_num;
  send_node = get_node_name p;
  digest = h.digest;
  reci_node = broadcast;
})

abbrev pub vc_head : ℕ → Pbft → Head
vc_head kind p = record empty_head {
  m_type = kind;
  view_number = p.view.view_number;
  send_node = get_node_name p;
  reci_node = broadcast;
}

-- HandleNewViewMsg once the message has passed its checks
unfoldable pub opened : Env → List Head → Pbft → Step
unfolding gen_empty_block start stop
opened env [] p = (
  record p {
    cur_proposal = empty_proposal;
    blk_store = gen_empty_block env.sum_sm3 p.blk_store;
    msg_log = λ k. empty_log;
    msg_log_len = 64;
    cur_phase = new_view;
    p_timer = record (p.p_timer) { timer = start (stop p.p_timer.timer) };
  },
  some (plain (record empty_head { m_type = vc_reply })),
)
opened env (h ∷ hs) p = (
  record p {
    cur_proposal = empty_proposal;
    blk_store = gen_empty_block env.sum_sm3 p.blk_store;
    msg_log = λ k. empty_log;
    msg_log_len = 64;
  },
  some (
      phase_msg env (vc_head vc_prepare p)
        (map (λ (o : Head). vc_answer env prepare p o) (h ∷ hs))),
)

-- HandleNewViewMsg; `none` is a panic
unfoldable pub handle_new_view_msg : Env → PMsg → Pbft → Option Step
unfolding log_msg verify_o_set opened heads new_view_to_byte
handle_new_view_msg env m p =
    let q = log_msg m p in
    if not (env.verify_sign m.head.send_node m.head.signature (new_view_to_byte m))
    then some (p, none)
    else if not (eq_ℤ m.head.view_number q.view.view_number)
    then some (q, none)
    else elim (verify_o_set env m q) [
      | none ↦ none
      | some ok ↦ if ok then some (opened env (heads m.o_set) q) else some (q, none)
    ]

-- The test of both handlers below on each message of OSet.
unfoldable pub all_signed : Env → List Head → Bool
unfolding named_to_byte
all_signed env [] = true
all_signed env (h ∷ hs) =
    env.verify_sign h.send_node h.signature (named_to_byte h) && all_signed env hs

-- The guards that both handlers start with.
unfoldable pub vc_refused : Env → PMsg → Pbft → Bool
unfolding named_to_byte
vc_refused env m p =
    not (p.cur_phase == view_change)
    || (not (eq_ℤ m.head.view_number p.view.view_number)
        || not (env.verify_sign m.head.send_node m.head.signature (named_to_byte m.head)))

-- HandleVCPrepareMsg
unfoldable pub handle_vc_prepare_msg : Env → PMsg → Pbft → Step
unfolding vc_refused log_msg all_signed heads
handle_vc_prepare_msg env m p =
    let q = log_msg m p in
    if vc_refused env m p
    then (p, none)
    else if not (length q.view_change_msgs.prepare_msgs == threshold q.view.nodes_num + 1)
    then (q, none)
    else if not (all_signed env (heads m.o_set))
    then (q, none)
    else (
      q,
      some (
          phase_msg env (vc_head vc_commit q)
            (map (λ (o : Head). vc_answer env commit q o) (heads m.o_set))),
    )

-- GetReplySeqs and IsContain
unfoldable pub get_reply_seqs : Pbft → List ℤ
get_reply_seqs p = map (λ (m : PMsg). m.head.seq_num) p.reply_msgs

unfoldable pub is_contain : List ℤ → ℤ → Bool
is_contain [] v = false
is_contain (x ∷ xs) v = eq_ℤ x v || is_contain xs v

max_of : List Head → ℤ → ℤ
max_of [] s = s
max_of (h ∷ hs) s = max_of hs (if ltb_ℤ s h.seq_num then h.seq_num else s)

max_in_o_sets : List PMsg → ℤ → ℤ
unfolding max_of heads
max_in_o_sets [] s = s
max_in_o_sets (m ∷ ms) s = max_in_o_sets ms (max_of (heads m.o_set) s)

-- GetMaxSeqInOSets
unfoldable pub get_max_seq_in_o_sets : Pbft → ℤ
unfolding max_in_o_sets
get_max_seq_in_o_sets p = max_in_o_sets p.view_change_msgs.commit_msgs (pos 0)

-- The replies to the messages of OSet that have a digest and no reply yet.
unfoldable pub vc_replies : Pbft → List ℤ → List Head → List PMsg
unfolding is_contain
vc_replies p done [] = []
vc_replies p done (h ∷ hs) =
    let rest = vc_replies p done hs in
    if is_contain done h.seq_num || is_nil h.digest
    then rest
    else plain (record empty_head {
      m_type = reply;
      view_number = p.view.view_number;
      seq_num = h.seq_num;
      send_node = get_node_name p;
      digest = h.digest;
    })
      ∷ rest

unfoldable pub vc_reply_msg : Pbft → List Head → PMsg
unfolding vc_replies get_reply_seqs
vc_reply_msg p os =
    record (plain (record empty_head {
      m_type = vc_reply;
      view_number = p.view.view_number;
      send_node = get_node_name p;
    })) { o_set = to_p_msgs (vc_replies p (get_reply_seqs p) os) }

-- HandleVCCommitMsg
unfoldable pub handle_vc_commit_msg : Env → PMsg → Pbft → Step
unfolding vc_refused log_msg all_signed heads vc_reply_msg get_max_seq_in_o_sets start stop
    View.next_view ◌+ℤ◌
handle_vc_commit_msg env m p =
    let q = log_msg m p in
    let r = record q { p_timer = record (q.p_timer) { timer = stop q.p_timer.timer } } in
    if vc_refused env m p
    then (p, none)
    else if not (length q.view_change_msgs.commit_msgs == threshold q.view.nodes_num + 1)
    then (q, none)
    else if not (all_signed env (heads m.o_set))
    then (r, none)
    else (
      record r {
        cur_phase = new_view;
        view = View.next_view r.view;
        sequence_num = get_max_seq_in_o_sets r +ℤ pos 1;
        p_timer = record (r.p_timer) { timer = start r.p_timer.timer };
      },
      some (vc_reply_msg r (heads m.o_set)),
    )
