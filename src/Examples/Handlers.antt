-- ===== src/Examples/Handlers.antt =====
-- The handlers of basic HotStuff on replicas in the middle of a view.
use dcschain.Base.{
  ℕ, ◌≡◌, ◌+ℤ◌, ◌%ℤ◌, ◌⊎◌, ◌<◌, ◌<ℤ◌, refl, true, false, List, [], ◌∷◌, none, some, pos, codes,
  elems, length, bytes_equal, text_eq,
}
use dcschain.Blockchain.{write_file}
use dcschain.Common.Name.{node_name}
use dcschain.Crypto.Tss.{threshold_sign, threshold_sign_verify}
use dcschain.BasicHotstuff.Types.{
  new_view, prepare, pre_commit, commit, decide, Qc, empty_qc, Msg, empty_msg,
}
use dcschain.BasicHotstuff.State.{BcHotstuff, new_bc_hotstuff}
use dcschain.BasicHotstuff.Rules.{is_leader, get_node_name, get_leader_name, check_qc}
use dcschain.BasicHotstuff.Handlers.{handle_prepare, handle_decide}
use dcschain.BasicHotstuff.Core.{route_b_msg}
use dcschain.BasicHotstuff.Lock.{
  OptionLock, Verified, route_b_msg-LockChanges, decide_stores, prepare_vote_safe, signed_block,
}
use dcschain.Examples.Replica.{env, replica, node, prepare_msg, vote}

-- A certificate of view 0 for node 7, of this kind.
abbrev qc : ℕ → Qc
qc kind = record empty_qc { q_type = kind; hs_node = node 7; sign = some (1 ∷ []) }

abbrev commit_msg : Msg
commit_msg = record empty_msg { m_type = commit; justify = qc pre_commit }

abbrev before_commit : BcHotstuff
before_commit = record (replica 1) { cur_phase = pre_commit }

route_b_msg-LockChanges_example :
    OptionLock env commit_msg before_commit (route_b_msg env (pos 0) commit_msg before_commit)
route_b_msg-LockChanges_example = route_b_msg-LockChanges env (pos 0) commit_msg before_commit

abbrev decide_msg : Msg
decide_msg = record empty_msg { m_type = decide; justify = qc commit }

abbrev before_decide : BcHotstuff
before_decide = record (replica 1) { cur_phase = commit; prepare_qc = qc prepare }

abbrev decide_answer : Msg
decide_answer = record empty_msg {
  view_number = pos 1;
  send_node = codes "r_1";
  justify = qc prepare;
  reci_node = codes "r_1";
}

decide_answered : (handle_decide env decide_msg before_decide).1 ≡ some decide_answer
unfolding handle_decide new_bc_hotstuff check_qc threshold_sign_verify ◌+ℤ◌ get_node_name
    get_leader_name node_name ◌%ℤ◌
decide_answered = refl

decide_stores_example :
    let t = (handle_decide env decide_msg before_decide).0 in
    (commit ≡ commit)
    × Verified env (qc commit) commit before_decide.view.view_number
    × (t.blk_store.files
        ≡ write_file before_decide.blk_store.cur_proposal_blk.blk_hdr.height
            (signed_block (some (1 ∷ [])) before_decide.blk_store.cur_proposal_blk)
            before_decide.blk_store.files)
    × (t.blk_store.height ≡ before_decide.blk_store.height +ℤ pos 1)
    × (t.view.view_number ≡ before_decide.view.view_number +ℤ pos 1)
    × (new_view ≡ new_view)
    × (pos 1 ≡ t.view.view_number)
    × (qc prepare ≡ qc prepare)
    × (t.commit_votes ≡ [])
decide_stores_example = decide_stores env decide_msg before_decide decide_answered

prepare_answered :
    (handle_prepare env (prepare_msg 7) (replica 1)).1
    ≡ some (record ((vote 1).payload) { send_node = [] })
unfolding handle_prepare new_bc_hotstuff is_leader text_eq get_node_name node_name get_leader_name
    threshold_sign
prepare_answered = refl

prepare_vote_safe_example :
    let s = replica 1 in
    (is_leader s ≡ false)
    × (s.cur_phase ≡ new_view)
    × (pos 0 ≡ s.view.view_number)
    × (pos 0 ≡ pos 0)
    × (node 7 ≡ node 7)
    × (0 < length (elems (prepare_msg 7).proposal.commands))
    × ((s.view.view_number ≡ pos 0)
        ⊎ ((bytes_equal (some []) none ≡ true)
            × ((bytes_equal s.locked_qc.hs_node.cur_hash (some []) ≡ true)
                ⊎ (s.locked_qc.view_number <ℤ pos 0))))
prepare_vote_safe_example = prepare_vote_safe env (prepare_msg 7) (replica 1) prepare_answered

-- A new-view message of a replica whose highest certificate is of this view.
abbrev new_view_msg : ℕ → Msg
new_view_msg v = record empty_msg { justify = record (qc prepare) { view_number = pos v } }

abbrev new_views : List Msg
new_views = new_view_msg 2 ∷ new_view_msg 5 ∷ new_view_msg 3 ∷ []

abbrev leader : BcHotstuff
leader = record (replica 0) { new_view_msgs = new_views; cur_proposal = (prepare_msg 7).proposal }
