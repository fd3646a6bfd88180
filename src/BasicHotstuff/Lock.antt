-- ===== src/BasicHotstuff/Lock.antt =====
-- What a replica of basic HotStuff votes for, and what it locks and stores.
use dcschain.Base.{
  ℕ, ◌≡◌, refl, ◌⊎◌, ◌<◌, true, false, Option, none, some, arith, ℤ, pos, ◌<ℤ◌, ◌+ℤ◌, elems, length,
  Bytes, bytes_equal, [], is_nil, map,
}
use dcschain.Crypto.Tss.{threshold_sign_verify, combine_sig}
use dcschain.Quorum.{threshold}
use dcschain.Blockchain.{Block, store_block, write_file}
use dcschain.BasicHotstuff.Types.{
  new_view, pre_commit, commit, Qc, qc_to_sign_msg_byte, Msg, empty_msg, message_to_byte,
}
use dcschain.BasicHotstuff.State.{Env, BcHotstuff}
use dcschain.BasicHotstuff.Rules.{is_leader, check_qc, check_new_hs_node, combine_sign, or_nil}
use dcschain.BasicHotstuff.Handlers.{
  Step, handle_new_view, handle_prepare, handle_prepare_vote, handle_pre_commit,
  handle_pre_commit_vote, handle_commit, handle_commit_vote, handle_decide, store_decided,
  log_pre_commit_vote,
}
use dcschain.BasicHotstuff.Core.{route_b_msg}

-- A prepare vote answers a proposal of the current view that carries commands; its node is the
-- proposal's. After view 0 the node extends the node that the proposal justifies, and either its
-- parent is the locked node or the justification is of a later view than the lock.
pub prepare_vote_safe :
    (env : Env) (m : Msg) (s : BcHotstuff) {r : Msg}
    → (handle_prepare env m s).1 ≡ some r
    → (is_leader s ≡ false)
      × (s.cur_phase ≡ new_view)
      × (m.view_number ≡ s.view.view_number)
      × (r.view_number ≡ m.view_number)
      × (r.hs_node ≡ m.hs_node)
      × (0 < length (elems m.proposal.commands))
      × ((s.view.view_number ≡ pos 0)
          ⊎ ((bytes_equal m.hs_node.parent_hash m.justify.hs_node.cur_hash ≡ true)
              × ((bytes_equal s.locked_qc.hs_node.cur_hash m.hs_node.parent_hash ≡ true)
                  ⊎ (s.locked_qc.view_number <ℤ m.justify.view_number))))
unfolding handle_prepare check_new_hs_node
prepare_vote_safe env m s h = ground arith

-- A certificate of this kind and view, whose threshold signature the replica has verified.
abbrev pub Verified : Env → Qc → ℕ → ℤ → Type 0
Verified env q code v =
    (q.q_type ≡ code)
    × (q.view_number ≡ v)
    × (threshold_sign_verify env.signer (qc_to_sign_msg_byte q) q.sign ≡ true)

-- The lock is a pre-commit certificate for the view and the node of the message `m`, and its signature,
-- which is there, combines the part signatures of the logged votes over a pre-commit vote for the
-- leader's own view and node.
abbrev pub Combined : Env → Msg → BcHotstuff → Type 0
Combined env m t =
    (t.locked_qc.q_type ≡ pre_commit)
    × (t.locked_qc.view_number ≡ m.view_number)
    × (t.locked_qc.hs_node ≡ m.hs_node)
    × (is_nil t.locked_qc.sign ≡ false)
    × (combine_sig env.signer
          (message_to_byte (record empty_msg {
            m_type = pre_commit;
            view_number = t.view.view_number;
            hs_node = t.hs_node;
          }))
          (map (λ v. v.partial_sig) t.pre_commit_votes)
        ≡ some t.locked_qc.sign)

-- The reasons for which a step may replace the lock: a replica has verified a pre-commit
-- certificate of its view, or a leader has collected more votes than the threshold.
abbrev pub LockChanges : Env → Msg → BcHotstuff → BcHotstuff → Type 0
LockChanges env m s t =
    (t.locked_qc ≡ s.locked_qc)
    ⊎ ((is_leader s ≡ false)
        × (t.locked_qc ≡ m.justify)
        × Verified env t.locked_qc pre_commit s.view.view_number)
    ⊎ ((is_leader s ≡ true)
        × (s.cur_phase ≡ pre_commit)
        × (threshold s.view.nodes_num < length t.pre_commit_votes)
        × Combined env m t)

abbrev pub OptionLock : Env → Msg → BcHotstuff → Option Step → Type 0
OptionLock env m s none = Unit
OptionLock env m s (some (t, r)) = LockChanges env m s t

new_view_keeps_lock :
    (env : Env) (now : ℤ) (m : Msg) (s : BcHotstuff)
    → OptionLock env m s (handle_new_view env now m s)
unfolding handle_new_view
new_view_keeps_lock env now m s = ground arith

decide_keeps_lock :
    (env : Env) (m : Msg) (s : BcHotstuff) → (handle_decide env m s).0.locked_qc ≡ s.locked_qc
unfolding handle_decide
decide_keeps_lock env m s = ground arith

votes_keep_lock :
    (env : Env) (m : Msg) (s : BcHotstuff)
    → ((handle_prepare env m s).0.locked_qc ≡ s.locked_qc)
      × ((handle_prepare_vote env m s).0.locked_qc ≡ s.locked_qc)
      × ((handle_pre_commit env m s).0.locked_qc ≡ s.locked_qc)
      × ((handle_commit_vote env m s).0.locked_qc ≡ s.locked_qc)
unfolding handle_prepare handle_prepare_vote handle_pre_commit handle_commit_vote
votes_keep_lock env m s = (ground arith, ground arith, ground arith, ground arith)

-- A combined signature that is not nil is one that the signer gave.
combined_sign :
    (env : Env) (t : BcHotstuff)
    → t.cur_phase ≡ pre_commit
    → is_nil (combine_sign env.signer t.pre_commit_votes t) ≡ false
    → combine_sig env.signer
        (message_to_byte (record empty_msg {
          m_type = pre_commit;
          view_number = t.view.view_number;
          hs_node = t.hs_node;
        }))
        (map (λ v. v.partial_sig) t.pre_commit_votes)
      ≡ some (combine_sign env.signer t.pre_commit_votes t)
unfolding combine_sign or_nil
combined_sign env t phase there = rw phase (given _ (rw phase at there))
  where
    given : (o : Option Bytes) → is_nil (or_nil o) ≡ false → o ≡ some (or_nil o)
    given none h = absurd (cc)
    given (some b) h = refl

log_pre_commit_vote_kept :
    (m : Msg) (s : BcHotstuff)
    → let t = log_pre_commit_vote m s in
      (t.cur_phase ≡ s.cur_phase)
      × (t.view ≡ s.view)
      × (t.hs_node ≡ s.hs_node)
      × (t.locked_qc ≡ s.locked_qc)
unfolding log_pre_commit_vote
log_pre_commit_vote_kept m s = (ground arith, ground arith, ground arith, ground arith)

pre_commit_vote_locks :
    (env : Env) (m : Msg) (s : BcHotstuff) → LockChanges env m s (handle_pre_commit_vote env m s).0
unfolding handle_pre_commit_vote
pre_commit_vote_locks env m s =
    let t = log_pre_commit_vote m s in
    ground (arith, log_pre_commit_vote_kept m s, combined_sign env t)

commit_locks :
    (env : Env) (m : Msg) (s : BcHotstuff) → LockChanges env m s (handle_commit env m s).0
unfolding handle_commit check_qc
commit_locks env m s = ground arith

-- Whatever message arrives, the lock changes only to a pre-commit certificate. At a replica it is
-- one of its current view that it has verified. At a leader it names the view and the node of the
-- message that came last, and its signature, which is not nil, combines the logged votes, more
-- than the threshold, over a pre-commit vote of the leader's own view and node.
pub route_b_msg-LockChanges :
    (env : Env) (now : ℤ) (m : Msg) (s : BcHotstuff) → OptionLock env m s (route_b_msg env now m s)
unfolding route_b_msg
route_b_msg-LockChanges env now m s = ground (
  arith,
  new_view_keeps_lock env now m s,
  votes_keep_lock env m s,
  pre_commit_vote_locks env m s,
  commit_locks env m s,
  decide_keeps_lock env m s,
)

-- The block with a signature as its validation.
abbrev pub signed_block : Bytes → Block → Block
signed_block sig b = record b { blk_hdr = record (b.blk_hdr) { validation = sig } }

-- A decision is taken in the commit phase, on a verified commit certificate of the current view.
-- It writes the block of the view, with the certificate's signature as its validation, to the
-- file of its height, counts the height up by one, enters the next view with no commit votes, and
-- announces the prepare certificate there.
pub decide_stores :
    (env : Env) (m : Msg) (s : BcHotstuff) {r : Msg}
    → (handle_decide env m s).1 ≡ some r
    → let t = (handle_decide env m s).0 in
      (s.cur_phase ≡ commit)
      × Verified env m.justify commit s.view.view_number
      × (t.blk_store.files
          ≡ write_file s.blk_store.cur_proposal_blk.blk_hdr.height
              (signed_block m.justify.sign s.blk_store.cur_proposal_blk)
              s.blk_store.files)
      × (t.blk_store.height ≡ s.blk_store.height +ℤ pos 1)
      × (t.view.view_number ≡ s.view.view_number +ℤ pos 1)
      × (r.m_type ≡ new_view)
      × (r.view_number ≡ t.view.view_number)
      × (r.justify ≡ s.prepare_qc)
      × (t.commit_votes ≡ [])
unfolding handle_decide check_qc store_decided store_block
decide_stores env m s h = ground arith
