-- ===== src/Pbft/OSet.antt =====
-- core/view_change.go (VerifyOSet): the test of what a new-view message is to redo.
use dcschain.Base.{
  ℕ, zero, suc, Bool, true, false, ◌&&◌, not, List, [], ◌∷◌, Option, none, some, ℤ, pos, negsuc,
  ◌+ℤ◌, ◌-ℤ◌, eq_ℤ, ◌==◌, if◌then◌else◌, length, bytes_equal, Bytes,
}
use dcschain.Quorum.{threshold}
use dcschain.Pbft.Types.{Pm, Head, PMsgs, nil, cons, PMsg}
use dcschain.Pbft.Encode.{short_to_byte}
use dcschain.Pbft.State.{Env, Pbft}
use dcschain.Pbft.NewView.{get_seq, seqs, all_p_sets, proves_seq}

unfoldable pub heads : PMsgs → List Head
heads nil = []
heads (cons h ps cs vs os ms) = h ∷ heads ms

unfoldable pub nth : ℕ → List Head → Option Head
nth i [] = none
nth zero (h ∷ hs) = some h
nth (suc i) (h ∷ hs) = nth i hs

-- OSet[i]; `none` is the panic on an index out of range
unfoldable pub o_at : ℤ → List Head → Option Head
unfolding nth
o_at (pos i) hs = nth i hs
o_at (negsuc i) hs = none

-- A round of the loop of VerifyOSet over its index; `d` is the digest of the first message of OSet,
-- since `j` stays 0, and `none` is a panic
unfoldable pub verify_pms : Env → PMsg → ℕ → Bytes → ℤ → List Pm → Option Bool
unfolding o_at heads short_to_byte
verify_pms env m t d i [] = some true
verify_pms env m t d i (pm ∷ pms) =
    let rest = verify_pms env m t d i pms in
    if not (proves_seq t i pm)
    then rest
    else if not (bytes_equal d pm.pre_prepare_msg.digest)
    then some false
    else elim (o_at i (heads m.o_set)) [
      | none ↦ none
      | some h ↦
          if env.verify_sign m.head.send_node h.signature (short_to_byte h)
          then rest
          else some false
    ]

unfoldable pub verify_seqs : Env → PMsg → ℕ → Bytes → List Pm → List ℤ → Option Bool
unfolding verify_pms
verify_seqs env m t d pms [] = some true
verify_seqs env m t d pms (i ∷ is) =
    let rest = verify_seqs env m t d pms is in
    elim (verify_pms env m t d i pms) [ none ↦ none | some b ↦ if b then rest else some false ]

no_p_sets : List PMsg → Bool
no_p_sets [] = true
no_p_sets (m ∷ ms) = length m.p_set == 0 && no_p_sets ms

-- VerifyOSet once GetSeq has returned
unfoldable pub verify_range : Env → PMsg → Pbft → List Head → ℤ → ℤ → Option Bool
unfolding verify_seqs no_p_sets seqs all_p_sets
verify_range env m p [] min_s max_s = some (no_p_sets p.view_change_msgs.new_view_msgs)
verify_range env m p (h ∷ hs) min_s max_s =
    if not (eq_ℤ (pos (length (h ∷ hs))) (max_s -ℤ min_s +ℤ pos 1))
    then some false
    else verify_seqs env m (threshold p.view.nodes_num) h.digest
        (all_p_sets p.view_change_msgs.new_view_msgs) (seqs min_s max_s)

-- VerifyOSet; `none` is a panic
unfoldable pub verify_o_set : Env → PMsg → Pbft → Option Bool
unfolding get_seq verify_range heads
verify_o_set env m p = elim (get_seq p.view_change_msgs.new_view_msgs) [
  | none ↦ none
  | some r ↦ verify_range env m p (heads m.o_set) r.0 r.1
]
