-- ===== src/ChainedHotstuff/Certificate.antt =====
-- The certificates that a leader of the chained protocol makes of votes.
use dcschain.Base.{
  ◌<◌, ◌≡◌, refl, sym, ◌∙◌, ap, ◌≢◌, if_elim, inl, inr, true, false, [], ◌∷◌, Option, none, some,
  arith, ◌==◌, ==_iff, leb, Bool-cases, Option-cases, is_nil, length, All, map, Bytes,
}
use dcschain.Common.View
use dcschain.Crypto.Tss.{combine_sig}
use dcschain.Quorum.{threshold}
use dcschain.BasicHotstuff.Types.{new_view, generic, half_generic, generic_vote}
use dcschain.BasicHotstuff.State.{Env}
use dcschain.BasicHotstuff.Rules.{or_nil}
use dcschain.ChainedHotstuff.Types.{CMsg, chained_message_to_byte}
use dcschain.ChainedHotstuff.State.{CHotstuff}
use dcschain.ChainedHotstuff.Rules.{check_c_msg, get_leader_name, combine_sign}
use dcschain.ChainedHotstuff.Handlers.{
  CStep, log_generic_vote, generic_certified, generic_quorum, c_handle_generic_vote, new_view_msg,
}
use dcschain.ChainedHotstuff.Collecting.{IsCollecting, IsVote, has_proposal, not_false}
use dcschain.ChainedHotstuff.Routed.{log_generic_vote-IsCollecting, log_generic_vote_phase}

-- A certificate made by the leader `s`, whose last vote is `m`.
abbrev pub Certifies : Env → CMsg → CHotstuff → CHotstuff → CMsg → Type 0
Certifies env m s t r =
    ((threshold s.view.nodes_num < length s.generic_vote_msgs)
      × All (IsVote s.view.view_number) s.generic_vote_msgs
      × ((p : CMsg) × (s.cur_round_msg ≡ some p)
          × (p.m_type ≡ generic)
          × (combine_sig env.signer (chained_message_to_byte p)
                (map (λ v. v.partial_sig) s.generic_vote_msgs)
              ≡ some t.generic_qc.sign))
      × (is_nil t.generic_qc.sign ≡ false))
    × ((t.generic_qc.view_number ≡ m.view_number) × (t.generic_qc.hs_nodes ≡ m.hs_nodes))
    × ((t.view ≡ View.next_view s.view) × (t.cur_phase ≡ new_view) × (t.locked_qc ≡ s.locked_qc))
    × ((r.justify ≡ t.generic_qc)
        × (r.reci_node ≡ get_leader_name t)
        × (r.view_number ≡ t.view.view_number))

-- What CHandleGenericVote gives on the state with the vote logged: no panic, and either a certificate
-- or the same certificate, view and phase as before.
abbrev pub MayCertify : Env → CMsg → CHotstuff → Option CStep → Type 0
MayCertify env m s none = ⊥
MayCertify env m s (some (t, [])) =
    (t.generic_qc ≡ s.generic_qc) × (t.view ≡ s.view) × (t.cur_phase ≡ s.cur_phase)
MayCertify env m s (some (t, r ∷ rs)) = (rs ≡ []) × Certifies env m s t r

combine_sign-over :
    (env : Env) (s : CHotstuff) (sig : Bytes)
    → has_proposal s.cur_round_msg ≡ true
    → combine_sign env.signer s.generic_vote_msgs s ≡ some sig
    → is_nil sig ≡ false
    → (p : CMsg) × (s.cur_round_msg ≡ some p)
      × (p.m_type ≡ generic)
      × (combine_sig env.signer
            (chained_message_to_byte p)
            (map (λ v. v.partial_sig) s.generic_vote_msgs)
          ≡ some sig)
unfolding combine_sign or_nil
combine_sign-over env s sig known made there = elim (Option-cases s.cur_round_msg) [
  | inl e ↦ absurd (not_false (sym known ∙ ap (λ o. has_proposal o) e))
  | inr (p, e) ↦
      let proposal : (p.m_type == generic) ≡ true = rw e at known in
      (p, e, (==_iff p.m_type generic).0 proposal, given _ (rw e at made))
]
  where
    given : (o : Option Bytes) → some (or_nil o) ≡ some sig → o ≡ some sig
    given none h = absurd (ground arith)
    given (some b) h = h

combine_sign-made :
    (env : Env) (s : CHotstuff)
    → has_proposal s.cur_round_msg ≡ true
    → combine_sign env.signer s.generic_vote_msgs s ≢ none
unfolding combine_sign
combine_sign-made env s known lost = elim (Option-cases s.cur_round_msg) [
  | inl e ↦ absurd (not_false (sym known ∙ ap (λ o. has_proposal o) e))
  | inr (r, e) ↦ let l = rw e at lost in cc
]

generic_quorum-MayCertify :
    (env : Env) (m : CMsg) (s : CHotstuff)
    → IsCollecting s
    → s.cur_phase ≡ half_generic
    → MayCertify env m s (generic_quorum env m s)
unfolding generic_quorum generic_certified combine_sign new_view_msg
generic_quorum-MayCertify env m s h half =
    elim (Bool-cases (leb (length s.generic_vote_msgs) (threshold s.view.nodes_num))) [
      | inl few ↦ rw few (refl, refl, refl)
      | inr over ↦ elim (Option-cases (combine_sign env.signer s.generic_vote_msgs s)) [
        | inl lost ↦ absurd (combine_sign-made env s (h.round half) lost)
        | inr (sig, made) ↦ elim (Bool-cases (is_nil sig)) [
          | inl failed ↦ rw (over, made, failed) (refl, refl, refl)
          | inr signed ↦
              rw (over, made, signed)
                (
                  refl,
                  (
                    (
                      ground arith,
                      h.votes half,
                      combine_sign-over env s sig (h.round half) made signed,
                      signed,
                    ),
                    (refl, refl),
                    (refl, refl, refl),
                    (refl, refl, refl),
                  ),
                )
        ]
      ]
    ]

logged_kept :
    (m : CMsg) (s : CHotstuff)
    → let t = log_generic_vote m s in
      (s.generic_qc ≡ t.generic_qc) × (s.view ≡ t.view) × (s.cur_phase ≡ t.cur_phase)
unfolding log_generic_vote
logged_kept m s =
    if_elim
      (λ (t : CHotstuff).
        (s.generic_qc ≡ t.generic_qc) × (s.view ≡ t.view) × (s.cur_phase ≡ t.cur_phase))
      (check_c_msg m generic_vote s.view.view_number) (refl, refl, refl) (refl, refl, refl)

-- Where there are nodes, a leader that collects makes a certificate, whatever vote arrives, only
-- in the half-generic phase and of more votes than the threshold, all for its view, out of their
-- part signatures over the generic message that it remembers as its proposal; the combined
-- signature is not nil. It enters the next view and sends the certificate to the leader there.
-- The view and the nodes in the certificate are those of the message that came last. Otherwise
-- certificate, view and phase stay, and there is never a panic.
pub c_handle_generic_vote-MayCertify :
    (env : Env) (m : CMsg) (s : CHotstuff)
    → 0 < s.view.nodes_num
    → IsCollecting s
    → MayCertify env m (log_generic_vote m s) (c_handle_generic_vote env m s)
unfolding c_handle_generic_vote
c_handle_generic_vote-MayCertify env m s nodes h = elim (Bool-cases (s.cur_phase == half_generic)) [
  | inl half ↦ rw half (
      generic_quorum-MayCertify env m (log_generic_vote m s) (log_generic_vote-IsCollecting m s h)
        (log_generic_vote_phase m s ∙ (==_iff s.cur_phase half_generic).0 half))
  | inr other ↦ rw other (logged_kept m s)
]
