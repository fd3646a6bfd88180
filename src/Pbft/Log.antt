-- ===== src/Pbft/Log.antt =====
-- core/utils.go: the log of messages and the checks on it.
use dcschain.Base.{
  ℕ, ◌%◌, Bool, true, false, ◌&&◌, not, [], ◌∷◌, ◌++◌, Option, none, some, ℤ, pos, ◌+ℤ◌, pos_part,
  ltb_ℤ, eq_ℤ, ◌==◌, ltb, if◌then◌else◌, length, bytes_equal,
}
use dcschain.Quorum.{threshold}
use dcschain.Pbft.Types.{
  new_view, preprepare, prepare, commit, view_change, checkpoint, vc_prepare, vc_commit,
  checkpoint_num, PMsg, MsgsLog,
}
use dcschain.Pbft.Encode.{named_to_byte}
use dcschain.Pbft.State.{Env, Pbft}

-- The slot of a view in MsgLog. Views are not negative: a replica starts in view 0, and HandlePMsg
-- drops what is of an earlier view than its own.
abbrev pub slot : ℤ → ℕ
slot v = pos_part v % checkpoint_num

abbrev pub cur_log : Pbft → MsgsLog
cur_log p = p.msg_log (slot p.view.view_number)

-- MsgLog with its current slot replaced.
abbrev pub set_log : MsgsLog → Pbft → Pbft
set_log l p = record p {
  msg_log = λ (k : ℕ). if k == slot p.view.view_number then l else p.msg_log k;
}

abbrev pub put : {A : Type 0} → ℤ → A → (ℤ → A) → ℤ → A
put k a f i = if eq_ℤ i k then a else f i

-- LogMsg of a new-view message.
unfoldable pub log_new_view : PMsg → Pbft → Pbft
log_new_view m p =
    let v = m.head.view_number in
    let q = record p { new_view_msgs = put v (p.new_view_msgs v ++ (m ∷ [])) p.new_view_msgs } in
    if ltb (threshold p.view.nodes_num) (length (q.new_view_msgs v))
      && length (cur_log p).new_view_msgs == 0
    then record (set_log
        (record (cur_log p) { new_view_msgs = (cur_log p).new_view_msgs ++ q.new_view_msgs v }) q) {
          new_view_msgs = put v [] q.new_view_msgs;
        }
    else q

-- LogMsg, a `switch` on the type
unfoldable pub log_msg : PMsg → Pbft → Pbft
unfolding log_new_view
log_msg m p =
    let t = m.head.m_type in
    let l = cur_log p in
    let c = p.check_point in
    let w = p.view_change_msgs in
    if t == new_view
    then log_new_view m p
    else if t == preprepare
    then set_log (record l { preprepare_msg = some m }) p
    else if t == prepare
    then set_log (record l { prepare_msgs = l.prepare_msgs ++ (m ∷ []) }) p
    else if t == commit
    then set_log (record l { commit_msgs = l.commit_msgs ++ (m ∷ []) }) p
    else if t == checkpoint
    then record p {
      check_point = record c {
        cp_msgs_buffer =
            put m.head.seq_num (c.cp_msgs_buffer m.head.seq_num ++ (m ∷ [])) c.cp_msgs_buffer;
      };
    }
    else if t == view_change
    then record p { view_change_msgs = record w { new_view_msgs = w.new_view_msgs ++ (m ∷ []) } }
    else if t == vc_prepare
    then record p { view_change_msgs = record w { prepare_msgs = w.prepare_msgs ++ (m ∷ []) } }
    else if t == vc_commit
    then record p { view_change_msgs = record w { commit_msgs = w.commit_msgs ++ (m ∷ []) } }
    else p

-- The same view, sequence number and digest.
abbrev pub matches : PMsg → PMsg → Bool
matches m n =
    eq_ℤ m.head.view_number n.head.view_number
    && (eq_ℤ m.head.seq_num n.head.seq_num && bytes_equal m.head.digest n.head.digest)

match_logged : PMsg → Option PMsg → Pbft → Pbft × Bool
unfolding log_msg
match_logged m none p = (log_msg m p, false)
match_logged m (some pp) p = (p, matches m pp)

-- MatchPrePrepareMsg, which logs the message where there is no pre-prepare message yet
unfoldable pub match_pre_prepare_msg : PMsg → Pbft → Pbft × Bool
unfolding match_logged
match_pre_prepare_msg m p = match_logged m (p.msg_log (slot m.head.view_number)).preprepare_msg p

-- CheckMsg
unfoldable pub check_msg : Env → PMsg → Pbft → Pbft × Bool
unfolding match_pre_prepare_msg
check_msg env m p =
    if ltb_ℤ m.head.view_number p.view.view_number
    then (p, false)
    else if ltb_ℤ (p.check_point.seq +ℤ pos checkpoint_num) m.head.seq_num
    then (p, false)
    else if not (env.verify_sign m.head.send_node m.head.signature (named_to_byte m.head))
    then (p, false)
    else if m.head.m_type == preprepare
    then (p, true)
    else match_pre_prepare_msg m p
