-- ===== src/Examples/Hotstuff2.antt =====
-- HotStuff-2 replicas, of four nodes.
use dcschain.Base.{ℕ, ◌≡◌, refl, ◌↔◌, true, List, [], ◌∷◌, some, pos, arith, length, text_eq}
use dcschain.Common.Encode.{HsNode}
use dcschain.Blockchain.{Block, empty_block}
use dcschain.Crypto.Tss.{threshold_sign_verify}
use dcschain.Hotstuff2.Types.{
  propose, wish, tc_msg, empty_cert, H2Msg, empty_h2_msg, message_to_byte,
}
use dcschain.Hotstuff2.State.{Hotstuff2, new_hotstuff2}
use dcschain.Hotstuff2.Commit.{add_validation_to_blk, commit_locked, gen_commit_blk_index}
use dcschain.Hotstuff2.Handlers.{handle_propose, handle_wish, handle_tc, wish_for}
use dcschain.Hotstuff2.Core.{add_sync_info, sync_info}
use dcschain.Hotstuff2.Run.{Event, deliver, timeout, entering, run}
use dcschain.Hotstuff2.Aligned.{IsAligned}
use dcschain.Hotstuff2.Ledger.{Refines, commit_locked-Refines}
use dcschain.Hotstuff2.FirstVote.{VotesOn, handle_propose-VotesOn}
use dcschain.Hotstuff2.Timeouts.{WishStep, handle_wish-WishStep, Entered, handle_tc-Entered}
use dcschain.Hotstuff2.Runs.{run_returns}
use dcschain.Hotstuff2.Sync.{blank, sync_info-IsAligned}
use dcschain.Examples.Replica.{env, node}

abbrev replica : ℕ → Hotstuff2
replica i = new_hotstuff2 100 1000 (pos i) 4 true

-- The block of the view `v`, and the node with the hash `h` under the one with the hash `p`.
abbrev block : ℕ → Block
block v = record empty_block {
  blk_hdr = record (empty_block.blk_hdr) { height = pos v; view_number = pos v };
}

abbrev link : ℕ → ℕ → HsNode
link h p = record { cur_hash = some (h ∷ []); parent_hash = some (p ∷ []) }

-- Three locked blocks, and a double certificate for the second.
abbrev locked : Hotstuff2
locked = record (replica 1) {
  lock_blk = block 1 ∷ block 2 ∷ block 3 ∷ [];
  lock_hs2_node = link 1 0 ∷ link 2 1 ∷ link 3 2 ∷ [];
  prepare_qc = record empty_cert { view_number = pos 2; sign = some (9 ∷ []) };
}

-- The first two blocks are a chain that ends in the certified one.
first_two : gen_commit_blk_index locked ≡ some (some (0, 1))
unfolding gen_commit_blk_index text_eq
first_two = refl

commit_locked-Refines_example :
    Refines
      (add_validation_to_blk locked.prepare_qc locked)
      (commit_locked locked.prepare_qc locked)
commit_locked-Refines_example = commit_locked-Refines locked.prepare_qc locked refl

abbrev proposal : H2Msg
proposal = record empty_h2_msg { m_type = propose; hs2_node = node 7; block = block 0 }

handle_propose-VotesOn_example :
    VotesOn env proposal (replica 1) (handle_propose env proposal (replica 1))
handle_propose-VotesOn_example = handle_propose-VotesOn env proposal (replica 1)

abbrev a_wish : H2Msg
a_wish = record empty_h2_msg { m_type = wish; view_number = pos 1; cons_sign = some (1 ∷ []) }

handle_wish-WishStep_example : WishStep env a_wish (replica 1) (handle_wish env a_wish (replica 1))
handle_wish-WishStep_example = handle_wish-WishStep env a_wish (replica 1)

-- A timeout certificate for view 3.
abbrev certificate : H2Msg
certificate = record empty_h2_msg {
  m_type = tc_msg;
  view_number = pos 3;
  cons_sign = some (1 ∷ []);
}

verifies :
    threshold_sign_verify env.signer (message_to_byte (wish_for (pos 3))) certificate.cons_sign
    ≡ true
unfolding threshold_sign_verify
verifies = refl

handle_tc-Entered_example : Entered certificate (replica 1) (handle_tc env certificate (replica 1))
unfolding new_hotstuff2
handle_tc-Entered_example = handle_tc-Entered env certificate (replica 1) verifies (omega arith)

abbrev es : List Event
es = deliver (pos 0) (some proposal) ∷ timeout ∷ deliver (pos 1) (some certificate) ∷ entering ∷ []

run_returns_example : (t : Hotstuff2) × (run env es (replica 1) ≡ some t) × IsAligned t
unfolding new_hotstuff2
run_returns_example = run_returns env es (replica 1) (omega arith) refl refl

sync_info-IsAligned_example :
    IsAligned (sync_info (add_sync_info locked blank) (pos 0) (replica 2))
    ↔ (length (replica 2).lock_blk ≡ 1)
sync_info-IsAligned_example = sync_info-IsAligned locked (replica 2) (pos 0) (omega arith) refl
