-- ===== src/Pbft/Checkpoint.antt =====
-- core/checkpoint.go: a checkpoint becomes stable.
use dcschain.Base.{not, List, [], ◌++◌, ltb_ℤ, eq_ℤ, leb, if◌then◌else◌, length, take, drop}
use dcschain.Quorum.{threshold}
use dcschain.Pbft.Types.{new_view, waiting, checkpoint_num, PMsg, empty_log}
use dcschain.Pbft.Encode.{named_to_byte}
use dcschain.Pbft.State.{Env, Pbft, is_leader}
use dcschain.Pbft.Log.{put, log_msg}

-- Go's `copy`, which keeps the length of the destination.
abbrev pub copy_onto : List PMsg → List PMsg → List PMsg
copy_onto dst source = take (length dst) source ++ drop (length source) dst

-- HandleCheckPoint, which never answers
unfoldable pub handle_check_point : Env → PMsg → Pbft → Pbft
unfolding log_msg
handle_check_point env m p =
    if not (env.verify_sign m.head.send_node m.head.signature (named_to_byte m.head))
    then p
    else if ltb_ℤ m.head.seq_num p.check_point.seq
    then p
    else if eq_ℤ m.head.seq_num p.check_point.seq
    then p
    else let q = log_msg m p in
      let c = q.check_point in
      let logged = c.cp_msgs_buffer m.head.seq_num in
      if leb (length logged) (threshold q.view.nodes_num) then q else record q {
        check_point = record c {
          seq = m.head.seq_num;
          cp_msgs = copy_onto c.cp_msgs logged;
          cp_msgs_buffer = put m.head.seq_num [] c.cp_msgs_buffer;
        };
        msg_log = λ k. empty_log;
        msg_log_len = checkpoint_num;
        cur_phase = if is_leader q then waiting else new_view;
      }
