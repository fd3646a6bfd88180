-- ===== src/ChainedHotstuff/Chain.antt =====
-- What a proposal does to a replica of the chained protocol: its checks, its certificates, and the
-- block that is stored.
use dcschain.Base.{
  ◌≡◌, refl, sym, ◌∙◌, if_elim, inl, inr, Bool, true, ◌&&◌, not, [], ◌∷◌, some, arith, eq_ℤ,
  eq_ℤ_iff, if◌then◌else◌, Bool-cases, Option-cases, bytes_equal, Bytes, get_elem?,
}
use dcschain.Crypto.Tss.{threshold_sign}
use dcschain.Blockchain.{Block, hash, store_block, write_file}
use dcschain.Blockchain
use dcschain.BasicHotstuff.Types.{generic_vote}
use dcschain.BasicHotstuff.State.{Env}
use dcschain.ChainedHotstuff.Types.{CMsg, chained_message_to_byte}
use dcschain.ChainedHotstuff.State.{CHotstuff, update_block}
use dcschain.ChainedHotstuff.Rules.{
  is_leader, safe_node, check_new_c_hs_node, get_node_name, get_leader_name,
}
use dcschain.ChainedHotstuff.Handlers.{
  CStep, vote_for, generic_received, store_three_chain, update_chain, generic_voted,
  c_handle_generic,
}

-- Whether the nodes of a message chain two, and three, deep below its new node.
abbrev pub two_chain : CMsg → Bool
two_chain m = bytes_equal m.hs_nodes.at1.parent_hash m.hs_nodes.at2.cur_hash

abbrev pub three_chain : CMsg → Bool
three_chain m = two_chain m && bytes_equal m.hs_nodes.at2.parent_hash m.hs_nodes.at3.cur_hash

-- Whether a replica holds the block of the last node of a message, and it is not empty.
abbrev pub holds_block : Env → CMsg → Block → Bool
holds_block env m b =
    not (Blockchain.is_empty b) && bytes_equal (hash env.sum_sm3 b) m.hs_nodes.at3.cur_hash

-- The block with a signature as its validation.
abbrev pub validated : Bytes → Block → Block
validated sig b = record b { blk_hdr = record (b.blk_hdr) { validation = sig } }

-- What a voting replica makes of the chain of nodes in `m`.
abbrev pub Commits : Env → CMsg → CHotstuff → CHotstuff → Type 0
Commits env m s t =
    let b = s.blocks.at3 in
    (t.generic_qc ≡ m.justify)
    × (t.locked_qc ≡ (if two_chain m then m.justify else s.locked_qc))
    × (t.hs_nodes ≡ s.hs_nodes)
    × ((t.blocks.at0 ≡ s.blocks.at0)
        × (t.blocks.at1 ≡ s.blocks.at1)
        × (t.blocks.at2 ≡ s.blocks.at2))
    × (t.blk_store.files ≡ (
        if three_chain m && holds_block env m b
        then write_file b.blk_hdr.height (validated m.justify.sign b) s.blk_store.files
        else s.blk_store.files))
    × (t.execute_state ≡ (if three_chain m then true else s.execute_state))

update_chain-Commits :
    (env : Env) (m : CMsg) (s : CHotstuff)
    → s.hs_nodes ≡ m.hs_nodes
    → bytes_equal m.hs_nodes.at0.parent_hash m.hs_nodes.at1.cur_hash ≡ true
    → Commits env m s (update_chain env m s)
unfolding update_chain store_three_chain store_block
update_chain-Commits env m s nodes parent = elim (Bool-cases (two_chain m)) [
  | inr one ↦ rw (parent, one) (refl, refl, refl, (refl, refl, refl), refl, refl)
  | inl two ↦ elim (Bool-cases (bytes_equal m.hs_nodes.at2.parent_hash m.hs_nodes.at3.cur_hash)) [
    | inr short ↦ rw (parent, two, short) (refl, refl, refl, (refl, refl, refl), refl, refl)
    | inl long ↦ elim (Bool-cases (holds_block env m s.blocks.at3)) [
      | inl held ↦
          rw (parent, two, long, nodes, held) (refl, refl, refl, (refl, refl, refl), refl, refl)
      | inr missing ↦
          rw (parent, two, long, nodes, missing) (refl, refl, refl, (refl, refl, refl), refl, refl)
    ]
  ]
]

-- The replica `u` is `s` with the nodes of the message `m` and, unless it leads, with the block of `m`
-- put before its own, which move on by one.
abbrev pub Received : CMsg → CHotstuff → CHotstuff → Type 0
Received m s u =
    (u.hs_nodes ≡ m.hs_nodes)
    × (u.blocks ≡ (
        if is_leader s
        then s.blocks
        else record { at0 = m.blk; at1 = s.blocks.at0; at2 = s.blocks.at1; at3 = s.blocks.at2 }))
    × (u.locked_qc ≡ s.locked_qc)
    × (u.execute_state ≡ s.execute_state)
    × (u.blk_store.files ≡ s.blk_store.files)

-- A vote of the message `m`, signed over its bytes.
abbrev pub IsVoteOn : Env → CMsg → CMsg → Type 0
IsVoteOn env m v =
    (v.m_type ≡ generic_vote)
    × (v.view_number ≡ m.view_number)
    × (v.hs_nodes ≡ m.hs_nodes)
    × (threshold_sign env.signer (chained_message_to_byte m) ≡ some v.partial_sig)

-- What CHandleGeneric gives: nothing, or a vote whose message was safe and is committed to.
abbrev pub VotesFor : Env → CMsg → CHotstuff → CStep → Type 0
VotesFor env m s (t, []) = t.blk_store.files ≡ s.blk_store.files
VotesFor env m s (t, v ∷ rs) =
    (m.view_number ≡ s.view.view_number)
    × (check_new_c_hs_node s m ≡ true)
    × IsVoteOn env m v
    × ((u : CHotstuff) × Received m s u × Commits env m u t)

generic_received-Received :
    (env : Env) (m : CMsg) (s : CHotstuff) → Received m s (generic_received env m s)
unfolding generic_received update_block is_leader get_node_name get_leader_name
generic_received-Received env m s = elim (Bool-cases (is_leader s)) [
  | inl leads ↦ rw (generic_received, leads) (refl, refl, refl, refl, refl)
  | inr follows ↦ rw (generic_received, follows) (refl, refl, refl, refl, refl)
]

check_parent :
    (s : CHotstuff) (m : CMsg)
    → check_new_c_hs_node s m ≡ true
    → bytes_equal m.hs_nodes.at0.parent_hash m.hs_nodes.at1.cur_hash ≡ true
unfolding check_new_c_hs_node
check_parent s m h = ground arith

-- CHandleGeneric votes only on a message of the view whose nodes pass its checks. The vote is the
-- part signature of the message. It takes over the message's nodes and its certificate; unless it
-- leads, it also puts the block of the message before its own. It locks the certificate if the
-- nodes chain two deep, and stores the block of the last node, with the certificate's signature,
-- exactly if they chain three deep and it holds that block and it is not empty. Without a vote
-- nothing is stored.
pub c_handle_generic-VotesFor :
    (env : Env) (m : CMsg) (s : CHotstuff) → VotesFor env m s (c_handle_generic env m s)
unfolding c_handle_generic generic_voted vote_for
c_handle_generic-VotesFor env m s = elim (Bool-cases (eq_ℤ m.view_number s.view.view_number)) [
  | inr other ↦ rw other refl
  | inl same ↦ elim (Bool-cases (check_new_c_hs_node s m)) [
    | inr unsafe ↦ rw (same, unsafe) refl
    | inl safe ↦ elim (Option-cases (threshold_sign env.signer (chained_message_to_byte m))) [
      | inl failed ↦ rw (same, safe, failed) (generic_received-Received env m s).4
      | inr (sig, signed) ↦
          rw (same, safe, signed)
            (voted sig signed safe ((eq_ℤ_iff m.view_number s.view.view_number).0 same))
    ]
  ]
]
  where
    t : CHotstuff
    t = generic_received env m s

    voted :
        (sig : Bytes)
        → threshold_sign env.signer (chained_message_to_byte m) ≡ some sig
        → check_new_c_hs_node s m ≡ true
        → m.view_number ≡ s.view.view_number
        → VotesFor env m s (generic_voted env m (some sig) t)
    voted sig signed safe same =
        let c : (u : CHotstuff) × Received m s u × Commits env m u (update_chain env m t) = (
          t,
          generic_received-Received env m s,
          update_chain-Commits env m t (generic_received-Received env m s).0
              (check_parent s m safe),
        ) in
        if_elim (VotesFor env m s)
          (is_leader (record (update_chain env m t) { new_view_msgs = [] }))
          (same, safe, (refl, refl, refl, signed), c) (same, safe, (refl, refl, refl, signed), c)

-- The lock is not asked: on a message whose new node is under the node of its own certificate, the
-- checks of replicas with any two locks agree.
pub check_new_c_hs_node-unlocked :
    (s u : CHotstuff) (m : CMsg)
    → bytes_equal m.justify.hs_nodes.at0.cur_hash m.hs_nodes.at0.parent_hash ≡ true
    → check_new_c_hs_node s m ≡ check_new_c_hs_node u m
unfolding check_new_c_hs_node safe_node
check_new_c_hs_node-unlocked s u m own = rw own refl

-- The message with another signature on its certificate.
abbrev pub resigned : Bytes → CMsg → CMsg
resigned sig m = record m { justify = record (m.justify) { sign = sig } }

voted_first :
    (env : Env) (m : CMsg) (sig : Bytes) (s : CHotstuff)
    → get_elem? (generic_voted env m (some sig) s).1 0 ≡ some (vote_for m sig s)
unfolding generic_voted
voted_first env m sig s =
    if_elim (λ (r : CStep). get_elem? r.1 0 ≡ some (vote_for m sig s))
      (is_leader (record (update_chain env m s) { new_view_msgs = [] })) refl refl

resigned_first :
    (env : Env) (sig : Bytes) (m : CMsg) (s : CHotstuff) (p : Bytes)
    → let n = resigned sig m in
      get_elem? (generic_voted env n (some p) (generic_received env n s)).1 0
      ≡ get_elem? (generic_voted env m (some p) (generic_received env m s)).1 0
unfolding vote_for generic_received update_block
resigned_first env sig m s p =
    voted_first env (resigned sig m) p (generic_received env (resigned sig m) s)
    ∙ sym (voted_first env m p (generic_received env m s))

-- The signature of a certificate is not checked: a replica answers a message with the same vote,
-- whatever signature the certificate of the message carries.
c_handle_generic-resigned :
    (env : Env) (sig : Bytes) (m : CMsg) (s : CHotstuff)
    → get_elem? (c_handle_generic env (resigned sig m) s).1 0
      ≡ get_elem? (c_handle_generic env m s).1 0
unfolding c_handle_generic check_new_c_hs_node safe_node chained_message_to_byte
c_handle_generic-resigned env sig m s = elim (Bool-cases (eq_ℤ m.view_number s.view.view_number)) [
  | inr other ↦ rw other refl
  | inl same ↦ elim (Bool-cases (check_new_c_hs_node s m)) [
    | inr unsafe ↦ rw (same, unsafe) refl
    | inl safe ↦ elim (Option-cases (threshold_sign env.signer (chained_message_to_byte m))) [
      | inl failed ↦ rw (same, safe, failed) refl
      | inr (p, signed) ↦ rw (same, safe, signed) (resigned_first env sig m s p)
    ]
  ]
]
