-- ===== src/Pbft/ViewChange.antt =====
-- core/view_change.go (StartViewChange) and core/pbft.go (HandleReq), and the proof of what is
-- prepared that a view-change message carries.
use dcschain.Base.{
  ℕ, zero, suc, ◌<◌, ◌≡◌, refl, ap, true, List, [], ◌∷◌, ◌++◌, none, some, arith, ℤ, pos, ◌+ℤ◌,
  if◌then◌else◌, length, map, leb, Bool-cases, Option-cases, inl, inr, if_elim, All, Bytes,
}
use dcschain.Quorum.{threshold}
use dcschain.BasicHotstuff.Types.{broadcast}
use dcschain.BasicHotstuff.Core.{BcRequest}
use dcschain.Pbft.Types.{
  new_view, view_change, empty_head, PMsg, to_p_msgs, nil, Pm, MsgsLog, log_is_empty,
  p_msg_to_vc_msg,
}
use dcschain.Pbft.Encode.{view_change_to_byte}
use dcschain.Pbft.State.{Env, Pbft, get_node_name, get_valid_msgs, valid_from, send_ser_msg}
use dcschain.Pbft.Commit.{Step, propose}

-- The view-change message of a replica, signed.
unfoldable pub view_change_msg : Env → Pbft → PMsg
unfolding get_valid_msgs ◌+ℤ◌
view_change_msg env p =
    let m : PMsg = record {
      head = record empty_head {
        m_type = view_change;
        view_number = p.view.view_number +ℤ pos 1;
        seq_num = p.check_point.seq;
        send_node = get_node_name p;
        reci_node = broadcast;
      };
      p_set = get_valid_msgs p;
      c_set = to_p_msgs p.check_point.cp_msgs;
      v_set = nil;
      o_set = nil;
    } in
    record m { head = record (m.head) { signature = env.sign (view_change_to_byte m) } }

forward : PMsg → Pbft → Pbft
forward m p = if p.has_forward_chan then record p { forwarded = p.forwarded ++ (m ∷ []) } else p

-- StartViewChange; json is taken to carry the message
unfoldable pub start_view_change : Env → Pbft → Pbft
unfolding view_change_msg forward send_ser_msg
start_view_change env p =
    let q = record p {
      cur_phase = view_change;
      p_timer = record (p.p_timer) { vc_msg_send_flag = true };
    } in
    let m = view_change_msg env q in
    let r = forward m q in if r.has_send_chan then send_ser_msg m r else r

sent_proposal : Step → Pbft
unfolding send_ser_msg
sent_proposal (p, none) = p
sent_proposal (p, some m) = send_ser_msg m p

-- HandleReq; nothing else runs between its write of the phase and its test of it
unfoldable pub handle_req : Env → ℤ → ℤ → Bytes → Bytes → List BcRequest → Pbft → Pbft
unfolding sent_proposal propose
handle_req env now height pre_hash cur_hash req p = sent_proposal (
    propose env now (record p {
      cur_proposal = record {
        height = height;
        view_number = pos 0;
        pre_blk_hash = pre_hash;
        cur_blk_hash = cur_hash;
        command = some (map (λ r. r.cmd) req);
      };
      cur_phase = new_view;
    }))

-- A proof of more prepare messages than `t`.
abbrev pub Proves : ℕ → Pm → Type 0
Proves t pm = t < length pm.prepare_msgs

length-map : {A B : Type 0} (f : A → B) (xs : List A) → length (map f xs) ≡ length xs
length-map f [] = refl
length-map f (x ∷ xs) = ap suc (length-map f xs)

valid_from-Proves : (n i t : ℕ) (logs : ℕ → MsgsLog) → All (Proves t) (valid_from n i t logs)
unfolding valid_from
valid_from-Proves zero i t logs = tt
valid_from-Proves (suc n) i t logs = elim (Option-cases (logs i).preprepare_msg) [
  | inl missing ↦ rw (missing, All) tt
  | inr (pp, at) ↦
      rw (at, All)
        (if_elim (All (Proves t)) (log_is_empty (logs i)) tt
          (elim (Bool-cases (leb (length (logs i).prepare_msgs) t)) [
            | inl few ↦ rw few tt
            | inr many ↦ rw many (
              ground (arith, length-map (λ (m : PMsg). p_msg_to_vc_msg m) (logs i).prepare_msgs),
              valid_from-Proves n (suc i) t logs,
            )
          ]))
]

-- A view change stops the normal case, announces the next view with the sequence number of the last
-- stable checkpoint, and carries for each request that it names more prepare messages than the
-- threshold; the announcement is sent where there is a channel for it.
pub start_view_change_lem :
    (env : Env) (p : Pbft)
    → let t = start_view_change env p in
      let m = view_change_msg env p in
      (t.cur_phase ≡ view_change)
      × (t.view ≡ p.view)
      × (m.head.view_number ≡ p.view.view_number +ℤ pos 1)
      × (m.head.seq_num ≡ p.check_point.seq)
      × All (Proves (threshold p.view.nodes_num)) m.p_set
      × (p.has_send_chan ≡ true
          → t.sent
            ≡ p.sent
              ++ (record {
                send_server = m.head.send_node;
                reci_server = m.head.reci_node;
                payload = m;
              }
                  ∷ []))
unfolding start_view_change get_valid_msgs get_node_name
start_view_change_lem env p = (
  ground arith,
  ground arith,
  refl,
  refl,
  valid_from-Proves p.msg_log_len 0 (threshold p.view.nodes_num) p.msg_log,
  (λ h. elim (Bool-cases p.has_forward_chan) [
    | inl forwards ↦ rw (forwards, h) refl
    | inr silent ↦ rw (silent, h) refl
  ]),
)
