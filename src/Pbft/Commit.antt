-- ===== src/Pbft/Commit.antt =====
-- core/commit.go, core/new_view.go (Preprepare): what a proposal makes, and what a committed
-- request does.
use dcschain.Base.{
  ℕ, Bool, true, false, not, List, [], ◌∷◌, ◌++◌, Option, none, some, ℤ, pos, ◌+ℤ◌, ◌%ℤ◌, eq_ℤ,
  ◌==◌, if◌then◌else◌, Bytes,
}
use dcschain.Common.View
use dcschain.Common.Timer.{start, stop}
use dcschain.Common.Encode.{two_dim_byte_slice_to_string_slice}
use dcschain.Blockchain.{gen_new_block, store_block}
use dcschain.BasicHotstuff.Types.{broadcast}
use dcschain.Pbft.Types.{
  new_view, preprepare, commit, reply, checkpoint, checkpoint_num, empty_proposal, is_empty, Head,
  empty_head, PMsg, plain,
}
use dcschain.Pbft.Encode.{short_to_byte, named_to_byte}
use dcschain.Pbft.State.{Env, Pbft, get_node_name}
use dcschain.Pbft.Log.{cur_log, put, log_msg}

-- What the handlers answer with; the message is `none` where they return nil.
abbrev pub Step : Type 0
Step = Pbft × Option PMsg

-- A message with the signature of its short form, and of the form with the sender.
abbrev pub sign_short : Env → Head → PMsg
sign_short env h = plain (record h { signature = env.sign (short_to_byte h) })

abbrev pub sign_named : Env → Head → PMsg
sign_named env h = plain (record h { signature = env.sign (named_to_byte h) })

-- Preprepare at the time `now`
unfoldable pub propose : Env → ℤ → Pbft → Step
unfolding is_empty log_msg
propose env now p =
    if is_empty p.cur_proposal
    then (p, none)
    else if not (p.cur_phase == new_view)
    then (p, none)
    else let q = record p {
      blk_store =
          gen_new_block env.sum_sm3 now p.view.view_number
            (two_dim_byte_slice_to_string_slice p.cur_proposal.command) [] p.blk_store;
    } in
      let m = sign_short env (record empty_head {
        m_type = preprepare;
        view_number = q.view.view_number;
        seq_num = q.sequence_num;
        digest = q.blk_store.cur_blk_hash;
        send_node = get_node_name q;
        reci_node = broadcast;
        proposal = q.cur_proposal;
        block = q.blk_store.cur_proposal_blk;
      }) in
      (record (log_msg m q) { cur_phase = preprepare }, some m)

unfoldable pub new_round : Pbft → Pbft
unfolding View.next_view ◌+ℤ◌
new_round p = record p {
  view = View.next_view p.view;
  cur_proposal = empty_proposal;
  sequence_num = p.sequence_num +ℤ pos 1;
}

-- GenCheckPoint
unfoldable pub gen_check_point : Env → PMsg → Pbft → Pbft × Bool
unfolding ◌+ℤ◌ ◌%ℤ◌
gen_check_point env m p =
    let c = p.check_point in
    let cp = sign_named env (record empty_head {
      m_type = checkpoint;
      seq_num = p.sequence_num;
      digest = m.head.digest;
      send_node = get_node_name p;
      reci_node = broadcast;
    }) in
    if eq_ℤ ((m.head.seq_num +ℤ pos 1) %ℤ checkpoint_num) (pos 0)
    then (
      record p {
        check_point = record c {
          cp_msgs_buffer =
              put p.sequence_num (c.cp_msgs_buffer p.sequence_num ++ (cp ∷ [])) c.cp_msgs_buffer;
          wait_seq = p.sequence_num;
        };
      },
      true,
    )
    else (p, false)

checked_phase : Pbft × Bool → Pbft
checked_phase (p, due) = record p { cur_phase = if due then checkpoint else new_view }

bytes_of : Option (List ℕ) → Bytes
bytes_of none = some []
bytes_of (some json) = some json

-- The reply of a committed request.
abbrev pub reply_msg : PMsg → Pbft → PMsg
reply_msg m p = plain (record empty_head {
  m_type = reply;
  view_number = p.view.view_number;
  seq_num = p.sequence_num;
  digest = m.head.digest;
  reci_node = m.head.send_node;
})

-- The block of the view with the commit messages as its validation.
unfoldable pub validated : Env → Pbft → Pbft
unfolding bytes_of
validated env p =
    let b = p.blk_store.cur_proposal_blk in
    record p {
      blk_store = record (p.blk_store) {
        cur_proposal_blk = record b {
          blk_hdr = record (b.blk_hdr) {
            validation = bytes_of (env.marshal (cur_log p).commit_msgs);
          };
        };
      };
    }

-- What HandleCommitMsg and CheckPrepareAndCommit do once a request has committed.
unfoldable pub committed_step : Env → PMsg → Pbft → Step
unfolding validated gen_check_point checked_phase new_round start stop store_block
committed_step env m p =
    let q = validated env (record p {
      p_timer = record (p.p_timer) { timer = stop p.p_timer.timer };
      cur_phase = commit;
    }) in
    let r = reply_msg m q in
    let s = new_round (
      checked_phase (
        gen_check_point env r (record q {
          reply_msgs = q.reply_msgs ++ (r ∷ []);
          blk_store = store_block q.blk_store q.blk_store.cur_proposal_blk;
        }))) in
    (record s { p_timer = record (s.p_timer) { timer = start s.p_timer.timer } }, some r)
