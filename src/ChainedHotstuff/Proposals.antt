-- ===== src/ChainedHotstuff/Proposals.antt =====
-- What the leader of the chained protocol proposes, and when.
use dcschain.Base.{
  ◌<◌, ◌≡◌, refl, sym, ◌⊎◌, inl, inr, Bool, true, false, not, ◌&&◌, List, [], ◌∷◌, Option, none,
  some, arith, ℤ, pos, length, leb, Bool-cases, ◌==◌, eq_ℤ, if_elim, ◌++◌, ◌+ℤ◌,
}
use dcschain.Common.View
use dcschain.Common.Highest.{NotAbove, high_index_from-highest}
use dcschain.Quorum.{threshold}
use dcschain.BasicHotstuff.Types.{new_view, generic, half_generic, waiting, is_empty}
use dcschain.BasicHotstuff.State.{Env}
use dcschain.ChainedHotstuff.Types.{CMsg}
use dcschain.ChainedHotstuff.State.{CHotstuff}
use dcschain.ChainedHotstuff.Rules.{
  is_leader, get_node_name, get_high_chained_qc, exist_not_execute_block, create_leaf,
  matching_c_msg,
}
use dcschain.ChainedHotstuff.Handlers.{
  CStep, propose_c, log_new_view, new_view_quorum, c_handle_new_view, gen_proposal,
}
use dcschain.ChainedHotstuff.Frame.{Unmoved, kept}

-- GetHighChainedQC panics on no messages, and otherwise picks one whose certificate is of the latest
-- view of all.
abbrev pub PicksHighest : List CMsg → Option CMsg → Type 0
PicksHighest ms none = ms ≡ []
PicksHighest ms (some h) =
    (0 < length ms) × NotAbove (λ (m : CMsg). m.justify.view_number) ms h.justify.view_number

pub get_high_chained_qc-PicksHighest : (ms : List CMsg) → PicksHighest ms (get_high_chained_qc ms)
unfolding get_high_chained_qc
get_high_chained_qc-PicksHighest [] = refl
get_high_chained_qc-PicksHighest (m ∷ ms) =
    let (i, h, e, at, a) = high_index_from-highest (λ n. n.justify.view_number) m ms in
    rw (e, at) (omega arith, a)

-- A proposal `r` on the certificate of `h`: a new node under that certificate's node, over the last
-- nodes of the leader, who starts to collect votes and leaves its nodes and its lock as they are.
abbrev pub BuiltOn : CHotstuff → CMsg → CHotstuff → CMsg → Type 0
BuiltOn s h t r =
    ((r.m_type ≡ generic)
      × (r.view_number ≡ s.view.view_number)
      × (r.justify ≡ h.justify)
      × (r.hs_nodes.at0.parent_hash ≡ h.justify.hs_nodes.at0.cur_hash)
      × (r.hs_nodes.at1 ≡ s.hs_nodes.at0)
      × (r.blk ≡ t.blocks.at0))
    × ((t.cur_phase ≡ half_generic)
        × (t.view ≡ s.view)
        × (t.cons_id ≡ s.cons_id)
        × (t.generic_vote_msgs ≡ [])
        × (t.new_view_msgs ≡ [])
        × (t.cur_round_msg ≡ s.cur_round_msg)
        × (t.sent ≡ s.sent))
    × ((t.generic_qc ≡ h.justify) × (t.hs_nodes ≡ s.hs_nodes) × (t.locked_qc ≡ s.locked_qc))

pub propose_c-BuiltOn :
    (env : Env) (now : ℤ) (count : Bool) (h : CMsg) (s : CHotstuff)
    → let p = propose_c env now count h s in BuiltOn s h p.0 p.1
unfolding propose_c create_leaf
propose_c-BuiltOn env now count h s = (
  (refl, refl, refl, refl, refl, refl),
  (refl, refl, refl, refl, refl, refl, refl),
  (refl, refl, refl),
)

-- The view, the votes, the leader's number and what is sent stay as they were.
abbrev pub Still : CHotstuff → CHotstuff → Type 0
Still s t =
    (t.view ≡ s.view)
    × (t.cons_id ≡ s.cons_id)
    × (t.generic_vote_msgs ≡ s.generic_vote_msgs)
    × (t.cur_round_msg ≡ s.cur_round_msg)
    × (t.sent ≡ s.sent)

-- What CHandleNewView gives from the check of the threshold on: no panic, and a proposal only as it
-- is to be.
abbrev pub Proposes : CHotstuff → Option CStep → Type 0
Proposes s none = ⊥
Proposes s (some (t, [])) =
    Still s t × ((t.cur_phase ≡ s.cur_phase) ⊎ ((t.cur_phase ≡ waiting) × (is_leader s ≡ true)))
Proposes s (some (t, r ∷ rs)) =
    (rs ≡ [])
    × (is_leader s ≡ true)
    × (threshold s.view.nodes_num < length s.new_view_msgs)
    × ((s.last_leader_state ≡ true) ⊎ (s.view_change_flag ≡ true))
    × (is_empty s.cur_proposal ≡ false)
    × ((h : CMsg) × (get_high_chained_qc s.new_view_msgs ≡ some h)
        × PicksHighest s.new_view_msgs (some h)
        × BuiltOn s h t r)

new_view_quorum-Proposes :
    (env : Env) (now : ℤ) (s : CHotstuff)
    → is_leader s ≡ true
    → Proposes s (new_view_quorum env now s)
unfolding new_view_quorum exist_not_execute_block
new_view_quorum-Proposes env now s leads =
    elim (Bool-cases (leb (length s.new_view_msgs) (threshold s.view.nodes_num))) [
      | inl few ↦ rw few ((refl, refl, refl, refl, refl), inl refl)
      | inr over ↦ elim (Bool-cases (not s.last_leader_state && not s.view_change_flag)) [
        | inl early ↦ rw (over, early) ((refl, refl, refl, refl, refl), inl refl)
        | inr due ↦ elim (Bool-cases (is_empty s.cur_proposal)) [
          | inl idle ↦ rw (over, due, idle) ((refl, refl, refl, refl, refl), inr (refl, leads))
          | inr busy ↦
              rw (over, due, busy)
                (built (get_high_chained_qc s.new_view_msgs)
                  (get_high_chained_qc-PicksHighest s.new_view_msgs) refl busy (ground arith)
                  (ground arith))
        ]
      ]
    ]
  where
    t : CHotstuff
    t = record s { last_leader_state = false; view_change_flag = false; cur_phase = waiting }

    built :
        (o : Option CMsg)
        → PicksHighest s.new_view_msgs o
        → get_high_chained_qc s.new_view_msgs ≡ o
        → is_empty s.cur_proposal ≡ false
        → threshold s.view.nodes_num < length s.new_view_msgs
        → (s.last_leader_state ≡ true) ⊎ (s.view_change_flag ≡ true)
        → Proposes s (elim o [
          | none ↦ none
          | some high ↦ let (u, m) = propose_c env now true high t in some (u, m ∷ [])
        ])
    built none p e busy over due = absurd (ground arith)
    built (some h) p e busy over due =
        (refl, leads, over, due, busy, (h, e, p, propose_c-BuiltOn env now true h t))

pub log_new_view-Unmoved : (m : CMsg) (s : CHotstuff) → Unmoved s (log_new_view m s)
unfolding log_new_view
log_new_view-Unmoved m s =
    if_elim (Unmoved s) (matching_c_msg m new_view s.view.view_number) (kept s) (kept s)

pub new_view-Proposes :
    (env : Env) (now : ℤ) (m : CMsg) (s : CHotstuff)
    → Proposes (log_new_view m s) (c_handle_new_view env now m s)
unfolding c_handle_new_view
new_view-Proposes env now m s =
    let ((phase, number, votes, round, sent), view) = log_new_view-Unmoved m s in
    elim (Bool-cases (not (s.cur_phase == new_view))) [
      | inl other ↦
          rw other ((sym view, sym number, sym votes, sym round, sym sent), inl (sym phase))
      | inr early ↦ elim (Bool-cases (is_leader (log_new_view m s))) [
        | inl leads ↦ rw (early, leads) (new_view_quorum-Proposes env now (log_new_view m s) leads)
        | inr follows ↦ rw (early, follows) ((refl, refl, refl, refl, refl), inl refl)
      ]
    ]

-- What is on record of the new-view messages once `m` has been looked at, and whether one of them is
-- of the leader of the view before.
abbrev pub Records : CMsg → CHotstuff → CHotstuff → Type 0
Records m s t =
    ((t.new_view_msgs ≡ s.new_view_msgs) × (t.last_leader_state ≡ s.last_leader_state))
    ⊎ ((m.m_type ≡ new_view)
        × (m.view_number ≡ s.view.view_number)
        × (t.new_view_msgs ≡ s.new_view_msgs ++ (m ∷ []))
        × ((t.last_leader_state ≡ s.last_leader_state)
            ⊎ ((t.last_leader_state ≡ true) × (m.send_node ≡ View.last_leader_name s.view))))

-- A timeout enters the next view with the new-view messages of before.
abbrev pub KeepsRecord : CHotstuff → CHotstuff → Type 0
KeepsRecord s t =
    (t.new_view_msgs ≡ s.new_view_msgs)
    × (t.view.view_number ≡ s.view.view_number +ℤ pos 1)
    × (t.view_change_flag ≡ true)

-- What GenProposal gives: a proposal on the certificate of a highest new-view message, more of them
-- than the threshold unless the view is the first; its panic is on no messages in the first view.
abbrev pub Generates : CHotstuff → Option CStep → Type 0
Generates s none = (s.new_view_msgs ≡ []) × (eq_ℤ s.view.view_number (pos 0) ≡ true)
Generates s (some (t, [])) = t ≡ s
Generates s (some (t, r ∷ rs)) =
    (rs ≡ [])
    × ((threshold s.view.nodes_num < length s.new_view_msgs)
        ⊎ (eq_ℤ s.view.view_number (pos 0) ≡ true))
    × ((h : CMsg) × PicksHighest s.new_view_msgs (some h) × BuiltOn s h t r)

pub gen_proposal-Generates :
    (env : Env) (now : ℤ) (s : CHotstuff) → Generates s (gen_proposal env now s)
unfolding gen_proposal
gen_proposal-Generates env now s =
    elim (Bool-cases (
      leb (length s.new_view_msgs) (threshold s.view.nodes_num)
      && not (eq_ℤ s.view.view_number (pos 0)))) [
        | inl few ↦ rw few refl
        | inr over ↦ rw over (
            built (get_high_chained_qc s.new_view_msgs)
              (get_high_chained_qc-PicksHighest s.new_view_msgs) over)
      ]
  where
    built :
        (o : Option CMsg)
        → PicksHighest s.new_view_msgs o
        → (leb (length s.new_view_msgs) (threshold s.view.nodes_num)
            && not (eq_ℤ s.view.view_number (pos 0)))
          ≡ false
        → Generates s (elim o [
          | none ↦ none
          | some high ↦
              let (u, m) = propose_c env now false high s in
              some (u, record m { send_node = get_node_name u } ∷ [])
        ])
    built none p over = let none_left : length s.new_view_msgs ≡ 0 = rw p refl in (p, ground arith)
    built (some h) p over = (refl, ground arith, (h, p, propose_c-BuiltOn env now false h s))
