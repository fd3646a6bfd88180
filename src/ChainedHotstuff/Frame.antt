-- ===== src/ChainedHotstuff/Frame.antt =====
-- What the handling of a generic message leaves as it was, and when it moves to the next view.
use dcschain.Base.{
  sym, ◌∙◌, ap, ◌≡◌, refl, ◌⊎◌, inl, inr, true, false, ◌&&◌, not, [], Option, none, some,
  Bool-cases, if_elim, Bytes, bytes_equal, eq_ℤ,
}
use dcschain.Common.View
use dcschain.Crypto.Tss.{threshold_sign}
use dcschain.Blockchain.{hash}
use dcschain.Blockchain
use dcschain.BasicHotstuff.State.{Env}
use dcschain.ChainedHotstuff.Types.{CMsg, chained_message_to_byte}
use dcschain.ChainedHotstuff.State.{CHotstuff}
use dcschain.ChainedHotstuff.Rules.{is_leader, get_node_name, get_leader_name, check_new_c_hs_node}
use dcschain.ChainedHotstuff.Handlers.{
  CStep, generic_received, store_three_chain, update_chain, generic_voted, c_handle_generic,
}

-- The parts that the protocol's other handlers own.
abbrev pub Keeps : CHotstuff → CHotstuff → Type 0
Keeps s t =
    (t.cur_phase ≡ s.cur_phase)
    × (t.cons_id ≡ s.cons_id)
    × (t.generic_vote_msgs ≡ s.generic_vote_msgs)
    × (t.cur_round_msg ≡ s.cur_round_msg)
    × (t.sent ≡ s.sent)

abbrev pub Unmoved : CHotstuff → CHotstuff → Type 0
Unmoved s t = Keeps s t × (t.view ≡ s.view)

pub kept : (s : CHotstuff) → Unmoved s s
kept s = ((refl, refl, refl, refl, refl), refl)

Keeps-trans : (s t u : CHotstuff) → Keeps s t → Keeps t u → Keeps s u
Keeps-trans s t u h k = (k.0 ∙ h.0, k.1 ∙ h.1, k.2 ∙ h.2, k.3 ∙ h.3, k.4 ∙ h.4)

store_three_chain-Unmoved :
    (env : Env) (sig : Bytes) (s : CHotstuff) → Unmoved s (store_three_chain env sig s)
unfolding store_three_chain
store_three_chain-Unmoved env sig s =
    if_elim (Unmoved s)
      (not (Blockchain.is_empty s.blocks.at3)
        && bytes_equal (hash env.sum_sm3 s.blocks.at3) s.hs_nodes.at3.cur_hash)
      (kept s) (kept s)

pub update_chain-Unmoved : (env : Env) (m : CMsg) (s : CHotstuff) → Unmoved s (update_chain env m s)
unfolding update_chain
update_chain-Unmoved env m s =
    let n = m.hs_nodes in
    if_elim (Unmoved s) (not (bytes_equal n.at0.parent_hash n.at1.cur_hash)) (kept s) (
      if_elim (Unmoved s) (not (bytes_equal n.at1.parent_hash n.at2.cur_hash)) (kept s) (
        if_elim (Unmoved s) (not (bytes_equal n.at2.parent_hash n.at3.cur_hash)) (kept s) (
          store_three_chain-Unmoved env m.justify.sign
            (record s { generic_qc = m.justify; locked_qc = m.justify }))))

pub generic_received-Unmoved :
    (env : Env) (m : CMsg) (s : CHotstuff) → Unmoved s (generic_received env m s)
unfolding generic_received
generic_received-Unmoved env m s =
    if_elim (Unmoved s) (is_leader (record s { view_change_flag = false })) (kept s) (kept s)

-- Either the view stays, and the replica leads it or does not vote; or a replica that does not lead
-- it enters the next view.
abbrev pub Moves : CHotstuff → CStep → Type 0
Moves s (t, r) =
    Keeps s t
    × (((t.view ≡ s.view) × ((is_leader s ≡ true) ⊎ (r ≡ [])))
        ⊎ ((t.view ≡ View.next_view s.view) × (is_leader s ≡ false)))

-- Whether a replica leads depends on its number and its view.
pub is_leader_same :
    (s t : CHotstuff) → t.cons_id ≡ s.cons_id → t.view ≡ s.view → is_leader t ≡ is_leader s
unfolding is_leader get_node_name get_leader_name
is_leader_same s t c v = rw (c, v) refl

pub is_leader-Unmoved : (s t : CHotstuff) → Unmoved s t → is_leader t ≡ is_leader s
is_leader-Unmoved s t u = is_leader_same s t u.0.1 u.1

generic_voted-Moves :
    (env : Env) (m : CMsg) (sig : Option Bytes) (s : CHotstuff)
    → Moves s (generic_voted env m sig s)
unfolding generic_voted
generic_voted-Moves env m none s = ((kept s).0, inl (refl, inr refl))
generic_voted-Moves env m (some sig) s =
    let u = update_chain-Unmoved env m s in
    let t = record (update_chain env m s) { new_view_msgs = [] } in
    let same = is_leader-Unmoved s t u in
    elim (Bool-cases (is_leader t)) [
      | inl leads ↦ rw leads (u.0, inl (u.1, inl (sym same ∙ leads)))
      | inr follows ↦ rw follows (u.0, inr (ap View.next_view u.1, sym same ∙ follows))
    ]

pub c_handle_generic-Moves :
    (env : Env) (m : CMsg) (s : CHotstuff) → Moves s (c_handle_generic env m s)
unfolding c_handle_generic
c_handle_generic-Moves env m s =
    if_elim (Moves s) (not (eq_ℤ m.view_number s.view.view_number)) stays (
      if_elim (Moves s) (not (check_new_c_hs_node s m)) stays
        (moved (generic_voted env m sig t) (generic_voted-Moves env m sig t)))
  where
    stays : Moves s (s, [])
    stays = ((kept s).0, inl (refl, inr refl))

    t : CHotstuff
    t = generic_received env m s

    sig : Option Bytes
    sig = threshold_sign env.signer (chained_message_to_byte m)

    moved : (r : CStep) → Moves t r → Moves s r
    moved (u, r) h =
        let before = generic_received-Unmoved env m s in
        let lead = is_leader-Unmoved s t before in
        (
          Keeps-trans s t u before.0 h.0,
          elim h.1 [
            | inl (v, inl leads) ↦ inl (v ∙ before.1, inl (sym lead ∙ leads))
            | inl (v, inr silent) ↦ inl (v ∙ before.1, inr silent)
            | inr (v, follows) ↦ inr (v ∙ ap View.next_view before.1, sym lead ∙ follows)
          ],
        )
