-- ===== src/Examples/Pbft.antt =====
-- A PBFT replica of four nodes in view 0, and its checkpoints.
use dcschain.Base.{
  ◌↔◌, length, All, ℕ, ◌≡◌, refl, ◌⊎◌, ◌≢◌, ◌<◌, true, [], ◌∷◌, ◌++◌, none, some, pos, arith, ◌+ℤ◌,
  ◌≤ℤ◌, ◌<ℤ◌, text_eq,
}
use dcschain.Quorum.{threshold}
use dcschain.Pbft.Types.{
  new_view, Pm, p_msg_to_vc_msg, to_p_msgs, preprepare, prepare, commit, reply, view_change,
  checkpoint, empty_head, PMsg, plain, empty_log, MsgsLog, StateType,
}
use dcschain.Pbft.State.{Env, Pbft, new_pbft, is_leader, catch_up}
use dcschain.Pbft.Log.{slot, log_msg}
use dcschain.Pbft.Normal.{handle_prepare_msg, handle_commit_msg, check_prepare_and_commit}
use dcschain.Pbft.ViewChange.{view_change_msg, start_view_change, Proves, start_view_change_lem}
use dcschain.Pbft.Checkpoint.{handle_check_point}
use dcschain.Pbft.Checks.{IsPrepared, IsCommitted}
use dcschain.Pbft.Safety.{handle_prepare_msg_lem, handle_commit_msg_lem}
use dcschain.Pbft.Stable.{handle_check_point_stable}
use dcschain.Pbft.Early.{early_prepare_kept}
use dcschain.Pbft.NewView.{
  get_seq, seqs, all_p_sets, o_set_of, new_view_msg, handle_view_change_msg,
}
use dcschain.Pbft.OSet.{heads, verify_o_set}
use dcschain.Pbft.Core.{SyncMsg, add_sync_info, sync_info}
use dcschain.Pbft.Opening.{Opening}
use dcschain.Pbft.Rejection.{verify_o_set-Refused}
use dcschain.Pbft.Sync.{LowByteOf, sync_info_low_byte}

-- A signer that accepts every signature.
abbrev pub pbft_env : Env
pbft_env = record {
  sum_sm3 = λ m. m;
  sign = λ m. some m;
  verify_sign = λ n sig m. true;
  marshal = λ ms. some [];
}

abbrev pbft_replica : Pbft
pbft_replica = new_pbft (λ m. m) 1000 (pos 1) 4 true

abbrev msg : StateType → ℕ → PMsg
msg kind d = plain (record empty_head { m_type = kind; digest = some (d ∷ []) })

-- The replica with a pre-prepare message and two messages of the others of each kind logged.
abbrev busy_log : MsgsLog
busy_log = record empty_log {
  preprepare_msg = some (msg preprepare 7);
  prepare_msgs = msg prepare 7 ∷ msg prepare 7 ∷ [];
  commit_msgs = msg commit 7 ∷ msg commit 7 ∷ [];
}

abbrev before_prepared : Pbft
before_prepared = record pbft_replica { cur_phase = preprepare; msg_log = λ k. busy_log }

abbrev before_committed : Pbft
before_committed = record before_prepared {
  cur_phase = prepare;
  msg_log =
      λ k. record busy_log { prepare_msgs = msg prepare 7 ∷ msg prepare 7 ∷ msg prepare 7 ∷ [] };
}

prepare_answered :
    (r : PMsg) × ((handle_prepare_msg pbft_env (msg prepare 7) before_prepared).1 ≡ some r)
unfolding handle_prepare_msg new_pbft ◌+ℤ◌ text_eq threshold
prepare_answered = (_, refl)

commit_answered :
    (r : PMsg) × ((handle_commit_msg pbft_env (msg commit 7) before_committed).1 ≡ some r)
unfolding handle_commit_msg new_pbft text_eq threshold
commit_answered = (_, refl)

handle_prepare_msg_lem_example :
    (preprepare ≢ view_change)
    × IsPrepared pbft_env (msg prepare 7) before_prepared
    × (prepare_answered.0.head.m_type ≡ commit)
    × (prepare_answered.0.head.digest ≡ some (7 ∷ []))
    × ((handle_prepare_msg pbft_env (msg prepare 7) before_prepared).0.cur_phase ≡ prepare)
handle_prepare_msg_lem_example =
    handle_prepare_msg_lem pbft_env (msg prepare 7) before_prepared prepare_answered.1

handle_commit_msg_lem_example :
    let t = (handle_commit_msg pbft_env (msg commit 7) before_committed).0 in
    let r = commit_answered.0 in
    (prepare ≢ view_change)
    × IsCommitted pbft_env (msg commit 7) before_committed
    × (r.head.m_type ≡ reply)
    × (r.head.digest ≡ some (7 ∷ []))
    × (r.head.view_number ≡ pos 0)
    × (r.head.seq_num ≡ before_committed.sequence_num)
    × (t.view.view_number ≡ pos 0 +ℤ pos 1)
    × (t.sequence_num ≡ before_committed.sequence_num +ℤ pos 1)
    × (t.reply_msgs ≡ before_committed.reply_msgs ++ (r ∷ []))
handle_commit_msg_lem_example =
    handle_commit_msg_lem pbft_env (msg commit 7) before_committed commit_answered.1

-- The replica has two checkpoint messages of the others for the sequence number 9.
abbrev checkpoint_msg : PMsg
checkpoint_msg = plain (record empty_head { m_type = checkpoint; seq_num = pos 9 })

abbrev before_stable : Pbft
before_stable = record pbft_replica {
  check_point = record (pbft_replica.check_point) {
    cp_msgs_buffer = λ k. checkpoint_msg ∷ checkpoint_msg ∷ [];
  };
}

handle_check_point_stable_example :
    let t = handle_check_point pbft_env checkpoint_msg before_stable in
    (t.check_point.seq ≡ before_stable.check_point.seq)
    ⊎ ((t.check_point.seq ≡ pos 9)
        × (before_stable.check_point.seq <ℤ pos 9)
        × (true ≡ true)
        × (threshold before_stable.view.nodes_num < 3)
        × (t.check_point.cp_msgs_buffer (pos 9) ≡ [])
        × ((k : ℕ) → t.msg_log k ≡ empty_log))
handle_check_point_stable_example =
    handle_check_point_stable pbft_env checkpoint_msg before_stable refl

moved :
    before_stable.check_point.seq
    <ℤ (handle_check_point pbft_env checkpoint_msg before_stable).check_point.seq
unfolding handle_check_point new_pbft threshold
moved = omega arith

early_prepare_kept_example :
    (handle_prepare_msg pbft_env (msg prepare 8) pbft_replica
      ≡ (log_msg (msg prepare 8) pbft_replica, none))
    × (((log_msg (msg prepare 8) pbft_replica).msg_log
          (slot pbft_replica.view.view_number)).prepare_msgs
        ≡ (pbft_replica.msg_log (slot pbft_replica.view.view_number)).prepare_msgs
          ++ (msg prepare 8 ∷ []))
    × ((k : ℕ)
        → ((check_prepare_and_commit pbft_env
              (msg preprepare 7)
              (log_msg (msg prepare 8) pbft_replica)).0.msg_log
            k).prepare_msgs
          ≡ ((log_msg (msg prepare 8) pbft_replica).msg_log k).prepare_msgs)
unfolding new_pbft ◌+ℤ◌
early_prepare_kept_example =
    early_prepare_kept pbft_env (msg prepare 8) (msg preprepare 7) pbft_replica (λ e. ground arith)
      refl refl (omega arith) (omega arith) refl

-- With a full log of one view, the view-change message of the replica carries its proof.
start_view_change_lem_example :
    let t = start_view_change pbft_env before_committed in
    let m = view_change_msg pbft_env before_committed in
    (t.cur_phase ≡ view_change)
    × (t.view ≡ before_committed.view)
    × (m.head.view_number ≡ before_committed.view.view_number +ℤ pos 1)
    × (m.head.seq_num ≡ before_committed.check_point.seq)
    × All (Proves (threshold before_committed.view.nodes_num)) m.p_set
    × (before_committed.has_send_chan ≡ true
        → t.sent
          ≡ before_committed.sent
            ++ (record {
              send_server = m.head.send_node;
              reci_server = m.head.reci_node;
              payload = m;
            }
                ∷ []))
start_view_change_lem_example = start_view_change_lem pbft_env before_committed

-- A proof that a request with the sequence number 10 was prepared.
abbrev proof_of_ten : Pm
proof_of_ten =
    let prepared = record (p_msg_to_vc_msg (msg prepare 7)) { seq_num = pos 11 } in
    record {
      pre_prepare_msg = record (p_msg_to_vc_msg (msg preprepare 7)) { seq_num = pos 10 };
      prepare_msgs = prepared ∷ prepared ∷ prepared ∷ [];
    }

-- Two view-change messages on record, and a third.
abbrev change : PMsg
change = record (msg view_change 7) {
  c_set = to_p_msgs (plain (record empty_head { seq_num = pos 10 }) ∷ []);
  p_set = proof_of_ten ∷ [];
}

abbrev before_opening : Pbft
before_opening = record pbft_replica {
  cons_id = pos 0;
  view_change_msgs = record empty_log { new_view_msgs = change ∷ change ∷ [] };
}

opening_answered :
    (t : Pbft) × (v : PMsg) × (handle_view_change_msg pbft_env change before_opening
      ≡ some (t, some v))
    × (length (heads v.o_set) ≡ 2)
unfolding handle_view_change_msg new_pbft threshold ◌+ℤ◌ catch_up log_msg is_leader get_seq
    new_view_msg o_set_of seqs heads
opening_answered = (_, _, refl, refl)

-- The OSet of the new view for the sequence numbers 10 and 11.
abbrev two_to_redo : PMsg
two_to_redo = record (msg new_view 7) {
  o_set = to_p_msgs (msg preprepare 7 ∷ msg preprepare 8 ∷ []);
}

verify_o_set-Refused_example : verify_o_set pbft_env two_to_redo before_opening ≢ some true
unfolding get_seq seqs ◌+ℤ◌ threshold heads all_p_sets new_pbft
verify_o_set-Refused_example =
    verify_o_set-Refused pbft_env two_to_redo before_opening 10 [] (proof_of_ten ∷ []) proof_of_ten
      [] [] refl refl (omega arith) refl refl refl

abbrev no_sync : SyncMsg
no_sync = record { view_number = pos 0; leader = pos 0; hs_nodes = []; block = [] }

sync_info_low_byte_example :
    (t : Pbft) × (sync_info (add_sync_info none before_committed no_sync) (pos 2) pbft_replica
      ≡ some t)
    × (t.view ≡ record (pbft_replica.view) {
      view_number = before_committed.view.view_number;
      leader = pos 2;
    })
    × LowByteOf before_committed.sequence_num t.sequence_num
    × ((t.sequence_num ≡ before_committed.sequence_num)
        ↔ ((pos 0 ≤ℤ before_committed.sequence_num) × (before_committed.sequence_num <ℤ pos 256)))
    × (t.cur_phase ≡ pbft_replica.cur_phase)
    × (t.msg_log ≡ pbft_replica.msg_log)
sync_info_low_byte_example =
    sync_info_low_byte none before_committed pbft_replica no_sync (pos 2) refl refl
