-- ===== src/Pbft/Stable.antt =====
-- What a stable checkpoint changes, and what it forgets.
use dcschain.Base.{
  ℕ, ◌<◌, ◌≡◌, refl, ◌⊎◌, inl, inr, true, [], ◌∷◌, ◌++◌, arith, ◌≤ℤ◌, ◌<ℤ◌, length, Bool-cases,
  ltb_ℤ, eq_ℤ, leb, ap,
}
use dcschain.Quorum.{threshold}
use dcschain.Pbft.Types.{checkpoint, PMsg, empty_log}
use dcschain.Pbft.Encode.{named_to_byte, short_to_byte}
use dcschain.Pbft.State.{Env, Pbft}
use dcschain.Pbft.Log.{slot, log_msg}
use dcschain.Pbft.Normal.{pre_prepare_ok, check_pre_prepare_msg}
use dcschain.Pbft.Checks.{log_msg_keeps}
use dcschain.Pbft.Checkpoint.{handle_check_point}

logged_check_point :
    (m : PMsg) (p : Pbft)
    → m.head.m_type ≡ checkpoint
    → ((log_msg m p).check_point.cp_msgs_buffer m.head.seq_num
        ≡ p.check_point.cp_msgs_buffer m.head.seq_num ++ (m ∷ []))
      × ((log_msg m p).check_point.seq ≡ p.check_point.seq)
      × ((log_msg m p).view ≡ p.view)
unfolding log_msg
logged_check_point m p h = rw h (ground arith, refl, refl)

-- A checkpoint message moves the checkpoint of a replica only to its own, later sequence number, and
-- only if it is signed and, with it, more checkpoint messages than the threshold are logged for that
-- number; what was logged of the views is then forgotten. Otherwise the checkpoint stays.
pub handle_check_point_stable :
    (env : Env) (m : PMsg) (p : Pbft)
    → m.head.m_type ≡ checkpoint
    → let t = handle_check_point env m p in
      (t.check_point.seq ≡ p.check_point.seq)
      ⊎ ((t.check_point.seq ≡ m.head.seq_num)
          × (p.check_point.seq <ℤ m.head.seq_num)
          × (env.verify_sign m.head.send_node m.head.signature (named_to_byte m.head) ≡ true)
          × (threshold p.view.nodes_num
              < length (p.check_point.cp_msgs_buffer m.head.seq_num ++ (m ∷ [])))
          × (t.check_point.cp_msgs_buffer m.head.seq_num ≡ [])
          × ((k : ℕ) → t.msg_log k ≡ empty_log))
unfolding handle_check_point
handle_check_point_stable env m p h =
    let (buffer, seq, view) = logged_check_point m p h in
    elim (Bool-cases (env.verify_sign m.head.send_node m.head.signature (named_to_byte m.head))) [
      | inr bad ↦ rw bad (inl refl)
      | inl signed ↦ elim (Bool-cases (ltb_ℤ m.head.seq_num p.check_point.seq)) [
        | inl past ↦ rw (signed, past) (inl refl)
        | inr not_past ↦ elim (Bool-cases (eq_ℤ m.head.seq_num p.check_point.seq)) [
          | inl same ↦ rw (signed, not_past, same) (inl refl)
          | inr other ↦
              elim (Bool-cases (
                leb (length ((log_msg m p).check_point.cp_msgs_buffer m.head.seq_num))
                  (threshold (log_msg m p).view.nodes_num))) [
                    | inl few ↦ rw (signed, not_past, other, few) (inl seq)
                    | inr many ↦
                        rw (signed, not_past, other, many)
                          (inr (refl, ground arith, refl, ground arith, ground arith, (λ k. refl)))
                  ]
        ]
      ]
    ]

check_point_keeps :
    (env : Env) (m : PMsg) (p : Pbft)
    → ((handle_check_point env m p).view ≡ p.view)
      × ((handle_check_point env m p).sequence_num ≡ p.sequence_num)
unfolding handle_check_point
check_point_keeps env m p =
    let (view, seq, replies, phase) = log_msg_keeps m p in (ground arith, ground arith)

accepts_any :
    (env : Env) (m : PMsg) (t : Pbft)
    → ((k : ℕ) → t.msg_log k ≡ empty_log)
    → m.head.view_number ≡ t.view.view_number
    → t.sequence_num ≤ℤ m.head.seq_num
    → env.verify_sign m.head.send_node m.head.signature (short_to_byte m.head) ≡ true
    → check_pre_prepare_msg env m t ≡ (log_msg m t, true)
unfolding check_pre_prepare_msg pre_prepare_ok
accepts_any env m t forgot now ahead signed =
    let free = forgot (slot t.view.view_number) in ground arith

-- A checkpoint message that moves the checkpoint makes the replica forget the pre-prepare messages of
-- every view, its own included: it then accepts any signed pre-prepare message of its view at a
-- sequence number that is not behind, whatever digest it had accepted there before.
checkpoint_forgets :
    (env : Env) (c m : PMsg) (p : Pbft)
    → c.head.m_type ≡ checkpoint
    → p.check_point.seq <ℤ (handle_check_point env c p).check_point.seq
    → m.head.view_number ≡ p.view.view_number
    → p.sequence_num ≤ℤ m.head.seq_num
    → env.verify_sign m.head.send_node m.head.signature (short_to_byte m.head) ≡ true
    → (check_pre_prepare_msg env m (handle_check_point env c p)).1 ≡ true
checkpoint_forgets env c m p kind moved now ahead signed =
    let (view, seq) = check_point_keeps env c p in
    elim (handle_check_point_stable env c p kind) [
      | inl stays ↦ absurd (ground arith)
      | inr (to, later, proved, many, cleared, forgot) ↦
          ap (λ r. r.1)
            (accepts_any env m (handle_check_point env c p) forgot (rw view now) (rw seq ahead)
              signed)
    ]
