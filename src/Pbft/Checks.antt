-- ===== src/Pbft/Checks.antt =====
-- What the checks of a PBFT replica let pass, and the loop that catches up with a view.
use mathlib.Core.Path.{subst}
use dcschain.Base.{
  ◌<◌, ◌≡◌, refl, ap, ◌∙◌, ◌⊎◌, ◌≢◌, Bool, inl, inr, true, false, none, some, arith, ℤ, pos, ◌+ℤ◌,
  ◌≤ℤ◌, length, Bool-cases, Option-cases,
}
use dcschain.Common.View.{View}
use dcschain.Common.View
use dcschain.Quorum.{threshold}
use dcschain.Pbft.Types.{prepare, preprepare, checkpoint_num, PMsg, MsgsLog}
use dcschain.Pbft.Encode.{named_to_byte, short_to_byte}
use dcschain.Pbft.State.{Env, Pbft, catch_up}
use dcschain.Pbft.Log.{slot, cur_log, log_msg, matches, check_msg, match_pre_prepare_msg}
use dcschain.Pbft.Normal.{
  handle_pre_prepare_msg, pre_prepare_ok, check_pre_prepare_msg, prepared, prepared_checked,
  commited_checked, commited,
}

-- The loop that catches up with the view of a message ends in that view, and it does nothing where
-- the replica is there or further.
pub catch_up_lem :
    (n : ℤ) (p : Pbft)
    → (p.view.view_number ≤ℤ n → (catch_up n p).view.view_number ≡ n)
      × (n ≤ℤ p.view.view_number → (catch_up n p).view ≡ p.view)
unfolding catch_up
catch_up_lem n p = View.catch_up_view_lem n p.view

pre_prepare_ok_parts :
    (env : Env) (m : PMsg) (p : Pbft)
    → pre_prepare_ok env m p ≡ true
    → (m.head.view_number ≡ p.view.view_number)
      × (p.sequence_num ≤ℤ m.head.seq_num)
      × (env.verify_sign m.head.send_node m.head.signature (short_to_byte m.head) ≡ true)
unfolding pre_prepare_ok
pre_prepare_ok_parts env m p h = ground arith

-- A pre-prepare message is taken only as the first of its slot, in the view of the replica, at a
-- sequence number that is not behind, and properly signed; any other changes nothing.
pre_prepare_guarded :
    (env : Env) (m : PMsg) (p : Pbft)
    → (handle_pre_prepare_msg env m p ≡ (p, none))
      ⊎ (((p.msg_log (slot m.head.view_number)).preprepare_msg ≡ none)
          × (m.head.view_number ≡ p.view.view_number)
          × (p.sequence_num ≤ℤ m.head.seq_num)
          × (env.verify_sign m.head.send_node m.head.signature (short_to_byte m.head) ≡ true))
unfolding handle_pre_prepare_msg check_pre_prepare_msg
pre_prepare_guarded env m p =
    elim (Option-cases (p.msg_log (slot m.head.view_number)).preprepare_msg) [
      | inr (pp, full) ↦ rw full (inl refl)
      | inl free ↦ elim (Bool-cases (pre_prepare_ok env m p)) [
        | inl good ↦
            let (now, ahead, signed) = pre_prepare_ok_parts env m p good in
            inr (free, now, ahead, signed)
        | inr bad ↦ rw (free, bad) (inl refl)
      ]
    ]

-- What CheckMsg asks of a message: a view that is not past, a sequence number up to the high mark, a
-- signature, and, unless it is a pre-prepare message, the match with the one that is logged.
abbrev pub Checked : Env → PMsg → Pbft → Type 0
Checked env m p =
    (p.view.view_number ≤ℤ m.head.view_number)
    × (m.head.seq_num ≤ℤ p.check_point.seq +ℤ pos checkpoint_num)
    × (env.verify_sign m.head.send_node m.head.signature (named_to_byte m.head) ≡ true)
    × ((m.head.m_type ≡ preprepare)
        ⊎ ((pp : PMsg) × ((p.msg_log (slot m.head.view_number)).preprepare_msg ≡ some pp)
            × (matches m pp ≡ true)))

match_pre_prepare_msg_lem :
    (m : PMsg) (p : Pbft)
    → (match_pre_prepare_msg m p).1 ≡ true
    → ((pp : PMsg) × ((p.msg_log (slot m.head.view_number)).preprepare_msg ≡ some pp)
        × (matches m pp ≡ true))
      × ((match_pre_prepare_msg m p).0 ≡ p)
unfolding match_pre_prepare_msg
match_pre_prepare_msg_lem m p h =
    elim (Option-cases (p.msg_log (slot m.head.view_number)).preprepare_msg) [
      | inr (pp, logged) ↦ rw logged ((pp, refl, ground arith), refl)
      | inl missing ↦ absurd (ground arith)
    ]

check_msg_parts :
    (env : Env) (m : PMsg) (p : Pbft)
    → (check_msg env m p).1 ≡ true
    → (p.view.view_number ≤ℤ m.head.view_number)
      × (m.head.seq_num ≤ℤ p.check_point.seq +ℤ pos checkpoint_num)
      × (env.verify_sign m.head.send_node m.head.signature (named_to_byte m.head) ≡ true)
      × (((m.head.m_type ≡ preprepare) × ((check_msg env m p).0 ≡ p))
          ⊎ (((match_pre_prepare_msg m p).1 ≡ true)
              × ((check_msg env m p).0 ≡ (match_pre_prepare_msg m p).0)))
unfolding check_msg
check_msg_parts env m p h = ground arith

pub check_msg-Checked :
    (env : Env) (m : PMsg) (p : Pbft)
    → (check_msg env m p).1 ≡ true
    → Checked env m p × ((check_msg env m p).0 ≡ p)
check_msg-Checked env m p h =
    let (ahead, low, signed, kind) = check_msg_parts env m p h in
    elim kind [
      | inl (first, same) ↦ ((ahead, low, signed, inl first), same)
      | inr (matched, same) ↦
          let (logged, kept) = match_pre_prepare_msg_lem m p matched in
          ((ahead, low, signed, inr logged), same ∙ kept)
    ]

-- The log of the slot of the replica, once a message is logged.
abbrev pub logged : PMsg → Pbft → MsgsLog
logged m p = cur_log (log_msg m p)

-- The replica has logged more prepare messages, and more commit messages, than the threshold.
abbrev pub ManyPrepares : Pbft → Type 0
ManyPrepares p = threshold p.view.nodes_num < length (cur_log p).prepare_msgs

abbrev pub ManyCommits : Pbft → Type 0
ManyCommits p = threshold p.view.nodes_num < length (cur_log p).commit_msgs

prepared_checked_parts :
    (m : PMsg) (r : Pbft × Bool)
    → (prepared_checked m r).1 ≡ true
    → (r.1 ≡ true)
      × ((prepared_checked m r).0 ≡ log_msg m r.0)
      × ((log_msg m r.0).cur_phase ≢ prepare)
      × ManyPrepares (log_msg m r.0)
unfolding prepared_checked
prepared_checked_parts m (p, false) h = cc
prepared_checked_parts m (p, true) h = (refl, refl, ground arith, ground arith)

commited_checked_parts :
    (m : PMsg) (r : Pbft × Bool)
    → (commited_checked m r).1 ≡ true
    → (r.1 ≡ true)
      × ((commited_checked m r).0 ≡ log_msg m r.0)
      × ManyPrepares (log_msg m r.0)
      × ManyCommits (log_msg m r.0)
unfolding commited_checked
commited_checked_parts m (p, false) h = cc
commited_checked_parts m (p, true) h = (refl, refl, ground arith, ground arith)

-- The message is checked, and with it in the log there are more prepare messages than the
-- threshold; the replica has not entered the prepare phase.
abbrev pub IsPrepared : Env → PMsg → Pbft → Type 0
IsPrepared env m p =
    Checked env m p × ((log_msg m p).cur_phase ≢ prepare) × ManyPrepares (log_msg m p)

pub prepared-IsPrepared :
    (env : Env) (m : PMsg) (p : Pbft) → (prepared env m p).1 ≡ true → IsPrepared env m p
unfolding prepared
prepared-IsPrepared env m p h =
    let (good, result, phase, many) = prepared_checked_parts m (check_msg env m p) h in
    let (checked, kept) = check_msg-Checked env m p good in
    (
      checked,
      subst (λ q. (log_msg m q).cur_phase ≢ prepare) kept phase,
      subst (λ q. ManyPrepares (log_msg m q)) kept many,
    )

-- The same of commit messages, of which there are more than the threshold too.
abbrev pub IsCommitted : Env → PMsg → Pbft → Type 0
IsCommitted env m p = Checked env m p × ManyPrepares (log_msg m p) × ManyCommits (log_msg m p)

pub commited-IsCommitted :
    (env : Env) (m : PMsg) (p : Pbft)
    → (commited env m p).1 ≡ true
    → IsCommitted env m p × ((commited env m p).0 ≡ log_msg m p)
unfolding commited
commited-IsCommitted env m p h =
    let (good, result, prepares, commits) = commited_checked_parts m (check_msg env m p) h in
    let (checked, kept) = check_msg-Checked env m p good in
    (
      (
        checked,
        subst (λ q. ManyPrepares (log_msg m q)) kept prepares,
        subst (λ q. ManyCommits (log_msg m q)) kept commits,
      ),
      result ∙ ap (log_msg m) kept,
    )

-- What logging a message leaves alone.
pub log_msg_keeps :
    (m : PMsg) (p : Pbft)
    → ((log_msg m p).view ≡ p.view)
      × ((log_msg m p).sequence_num ≡ p.sequence_num)
      × ((log_msg m p).reply_msgs ≡ p.reply_msgs)
      × ((log_msg m p).cur_phase ≡ p.cur_phase)
unfolding log_msg
log_msg_keeps m p = (ground arith, ground arith, ground arith, ground arith)
