-- ===== src/Pbft/Rejection.antt =====
-- core/view_change.go: where VerifyOSet cannot accept.
use dcschain.Base.{
  ℕ, ◌≤◌, ◌≡◌, ◌≢◌, ◌⊎◌, refl, zero, suc, Bool, true, false, not, List, [], ◌∷◌, ◌++◌, Option, none,
  some, ℤ, pos, arith, length, inl, inr, if_elim, ◌-ℤ◌, ◌+ℤ◌, Bytes, bytes_equal, eq_ℤ,
  if◌then◌else◌,
}
use dcschain.Quorum.{threshold}
use dcschain.Pbft.Types.{Pm, Head, PMsg}
use dcschain.Pbft.State.{Env, Pbft}
use dcschain.Pbft.NewView.{get_seq, seqs, all_p_sets, proves_seq}
use dcschain.Pbft.OSet.{heads, nth, o_at, verify_pms, verify_seqs, verify_range, verify_o_set}

abbrev Refused : Option Bool → Type 0
Refused o = o ≢ some true

nth_out_of_range : (k : ℕ) (hs : List Head) → length hs ≤ k → nth k hs ≡ none
unfolding nth
nth_out_of_range k [] h = refl
nth_out_of_range zero (x ∷ hs) h = absurd (omega arith)
nth_out_of_range (suc k) (x ∷ hs) h = nth_out_of_range k hs (omega arith)

module _ (env : Env) (m : PMsg) (t : ℕ) (d : Bytes) (i : ℤ)
    (out : o_at i (heads m.o_set) ≡ none) where
  verify_pms-Refused :
      (xs ys : List Pm) (pm : Pm)
      → proves_seq t i pm ≡ true
      → Refused (verify_pms env m t d i (xs ++ (pm ∷ ys)))
  unfolding verify_pms
  verify_pms-Refused [] ys pm proved =
      rw (proved, out)
        (if_elim Refused (not (bytes_equal d pm.pre_prepare_msg.digest)) (λ e. cc) (λ e. cc))
  verify_pms-Refused (x ∷ xs) ys pm proved =
      if_elim Refused (not (proves_seq t i x)) (verify_pms-Refused xs ys pm proved) (
        if_elim Refused (not (bytes_equal d x.pre_prepare_msg.digest)) (λ e. cc) (rw out (λ e. cc)))

  then-Refused :
      (o r : Option Bool)
      → Refused o ⊎ Refused r
      → Refused (elim o [ none ↦ none | some b ↦ if b then r else some false ])
  then-Refused none r h = λ e. cc
  then-Refused (some false) r h = λ e. cc
  then-Refused (some true) r (inl h) = absurd (h refl)
  then-Refused (some true) r (inr h) = h

  verify_seqs-Refused :
      (pms : List Pm) (js ks : List ℤ)
      → Refused (verify_pms env m t d i pms)
      → Refused (verify_seqs env m t d pms (js ++ (i ∷ ks)))
  unfolding verify_seqs
  verify_seqs-Refused pms [] ks h =
      then-Refused (verify_pms env m t d i pms) (verify_seqs env m t d pms ks) (inl h)
  verify_seqs-Refused pms (j ∷ js) ks h =
      then-Refused (verify_pms env m t d j pms) (verify_seqs env m t d pms (js ++ (i ∷ ks)))
        (inr (verify_seqs-Refused pms js ks h))

-- VerifyOSet reads OSet at the sequence number: it never accepts a non-empty OSet of at most `k`
-- messages where a proof of a request with the sequence number `k`, which lies from the lowest
-- sequence number on and below the highest, is in the view-change messages, however correct OSet is.
pub verify_o_set-Refused :
    (env : Env) (m : PMsg) (p : Pbft) (k : ℕ) {a b : ℤ} {h : Head} {hs : List Head}
    (xs ys : List Pm) (pm : Pm) (js ks : List ℤ)
    → get_seq p.view_change_msgs.new_view_msgs ≡ some (a, b)
    → heads m.o_set ≡ h ∷ hs
    → length (h ∷ hs) ≤ k
    → all_p_sets p.view_change_msgs.new_view_msgs ≡ xs ++ (pm ∷ ys)
    → seqs a b ≡ js ++ (pos k ∷ ks)
    → proves_seq (threshold p.view.nodes_num) (pos k) pm ≡ true
    → verify_o_set env m p ≢ some true
unfolding verify_o_set verify_range o_at
verify_o_set-Refused env m p k {a} {b} {h} {hs} xs ys pm js ks range os few proofs covers proved =
    let t = threshold p.view.nodes_num in
    let out : o_at (pos k) (heads m.o_set) ≡ none = rw os (nth_out_of_range k (h ∷ hs) few) in
    rw (range, verify_o_set, os, proofs, covers, verify_range)
      (if_elim Refused (not (eq_ℤ (pos (length (h ∷ hs))) (b -ℤ a +ℤ pos 1)))
        (λ (e : some false ≡ some true). cc)
        (verify_seqs-Refused env m t h.digest (pos k) out (xs ++ (pm ∷ ys)) js ks
          (verify_pms-Refused env m t h.digest (pos k) out xs ys pm proved)))
