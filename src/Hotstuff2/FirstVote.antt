-- ===== src/Hotstuff2/FirstVote.antt =====
-- When a replica gives its first vote (HandlePropose).
use mathlib.Core.Path.{subst}
use dcschain.Base.{
  ◌<◌, ◌≡◌, refl, sym, ◌∙◌, ap, inl, inr, if_elim, Bool, true, false, ◌&&◌, not, Option, none, some,
  arith, ◌==◌, ◌≤ℤ◌, pos, ◌-ℤ◌, eq_ℤ, eq_ℤ_iff, ltb_ℤ, Bool-cases, Option-cases, length, text_eq,
}
use dcschain.Common.View.{View}
use dcschain.Crypto.Tss.{threshold_sign}
use dcschain.BasicHotstuff.State.{Env}
use dcschain.Hotstuff2.Types.{propose, vote1, prepare, QuromCert, H2Msg, message_to_byte}
use dcschain.Hotstuff2.State.{Hotstuff2, is_leader, get_leader_num, get_node_name}
use dcschain.Hotstuff2.Rules.{check_qc}
use dcschain.Hotstuff2.Commit.{commit_locked}
use dcschain.Hotstuff2.Handlers.{
  HStep, checks_qc, take_single, vote1_on, propose_signed, propose_voted, propose_committed,
  handle_propose,
}
use dcschain.Hotstuff2.Kept.{KeepsOr, commit_locked-KeepsOr}

-- The single certificate of `t` is not of an earlier view than that of `s`.
abbrev pub NotBack : Hotstuff2 → Hotstuff2 → Type 0
NotBack s t = s.proposal_qc.view_number ≤ℤ t.proposal_qc.view_number

-- A vote for `m`, and the replica that has given it.
abbrev pub Voted : Env → H2Msg → Hotstuff2 → H2Msg → Type 0
Voted env m t v =
    (v.m_type ≡ vote1)
    × (v.view_number ≡ m.view_number)
    × (v.hs2_node ≡ m.hs2_node)
    × (v.reci_node ≡ m.send_node)
    × (threshold_sign env.signer (message_to_byte (vote1_on m)) ≡ some v.cons_sign)
    × (t.cur_phase ≡ propose)
    × (t.cur_hs2_node ≡ m.hs2_node)
    × (t.blk_store.cur_proposal_blk ≡ m.block)

-- From the update of the block on, in a state that is in the view of the message.
abbrev VotedOr : Env → H2Msg → Hotstuff2 → HStep → Type 0
VotedOr env m s (t, none) = NotBack s t × (t.view.view_number ≡ s.view.view_number)
VotedOr env m s (t, some v) =
    NotBack s t × (t.view.view_number ≡ s.view.view_number) × Voted env m t v

propose_voted-VotedOr :
    (env : Env) (m : H2Msg) (s : Hotstuff2)
    → s.view.view_number ≡ m.view_number
    → VotedOr env m s (propose_voted env m s)
unfolding propose_voted propose_signed
propose_voted-VotedOr env m s same =
    let here : ltb_ℤ s.view.view_number m.view_number ≡ false = rw same (ground arith) in
    elim (Option-cases (threshold_sign env.signer (message_to_byte (vote1_on m)))) [
      | inl failed ↦ rw (here, failed) (omega arith, refl)
      | inr (sig, signed) ↦
          rw (here, signed) (omega arith, refl, (refl, refl, refl, refl, signed, refl, refl, refl))
    ]

abbrev single_ok : Env → H2Msg → Hotstuff2 → Bool
single_ok env m s = check_qc env.signer m.justify1 propose m.justify1.view_number s.blk_store.height

abbrev double_ok : Env → H2Msg → Bool
double_ok env m = check_qc env.signer m.justify2 prepare m.justify2.view_number m.justify2.height

-- A replica that differs from `s` only in a single certificate that is not earlier.
abbrev Taken : Env → H2Msg → Hotstuff2 → Option Hotstuff2 → Type 0
Taken env m s none = Unit
Taken env m s (some t) =
    NotBack s t
    × (t ≡ record s { proposal_qc = t.proposal_qc })
    × (checks_qc s ≡ true → is_leader s ≡ false → single_ok env m s ≡ true)

take_single-Taken : (env : Env) (m : H2Msg) (s : Hotstuff2) → Taken env m s (take_single env m s)
unfolding take_single
take_single-Taken env m s =
    elim (Bool-cases (is_leader s && text_eq (get_node_name s) m.send_node)) [
      | inl own ↦ rw own (
          if_elim (Taken env m s)
            (checks_qc s
              && not (
                  check_qc env.signer m.justify1 propose m.justify1.view_number
                    (s.blk_store.height -ℤ pos 1)))
            tt (omega arith, refl, λ c f. ground arith))
      | inr other ↦ elim (Bool-cases (checks_qc s && not (single_ok env m s))) [
        | inl refused ↦ rw (other, refused) tt
        | inr passed ↦
            let ok : checks_qc s ≡ true → is_leader s ≡ false → single_ok env m s ≡ true =
              λ c f. ground arith in
            elim (Bool-cases (ltb_ℤ s.proposal_qc.view_number m.justify1.view_number)) [
              | inl later ↦ rw (other, passed, later) (ground arith, refl, ok)
              | inr kept ↦ rw (other, passed, kept) (omega arith, refl, ok)
            ]
      ]
    ]

-- What HandlePropose gives.
abbrev pub VotesOn : Env → H2Msg → Hotstuff2 → Option HStep → Type 0
VotesOn env m s none = length s.lock_hs2_node < length s.lock_blk
VotesOn env m s (some (t, none)) = NotBack s t × (t.view.view_number ≡ s.view.view_number)
VotesOn env m s (some (t, some v)) =
    NotBack s t
    × (t.view.view_number ≡ s.view.view_number)
    × (m.view_number ≡ s.view.view_number)
    × (checks_qc s ≡ true
        → is_leader s ≡ false
        → (single_ok env m s ≡ true) × (double_ok env m ≡ true))
    × Voted env m t v

voted_on :
    (env : Env) (m : H2Msg) (s t : Hotstuff2) (r : HStep)
    → NotBack s t
    → t.view.view_number ≡ s.view.view_number
    → s.view.view_number ≡ m.view_number
    → (checks_qc s ≡ true
        → is_leader s ≡ false
        → (single_ok env m s ≡ true) × (double_ok env m ≡ true))
    → VotedOr env m t r
    → VotesOn env m s (some r)
voted_on env m s t (u, none) b v same ok (n, w) = (omega arith, w ∙ v)
voted_on env m s t (u, some a) b v same ok (n, w, voted) = (omega arith, w ∙ v, sym same, ok, voted)

apart : {b : Bool} → b ≡ true → ¬ (b ≡ false)
apart e f = let k : true ≡ false = sym e ∙ f in cc

passes : {a b : Bool} → (a && not b) ≡ false → a ≡ true → b ≡ true
passes h e = ground arith

propose_committed-VotesOn :
    (env : Env) (m : H2Msg) (s : Hotstuff2) (q : QuromCert)
    → s.proposal_qc.view_number ≤ℤ q.view_number
    → s.view.view_number ≡ m.view_number
    → (checks_qc s ≡ true → is_leader s ≡ false → single_ok env m s ≡ true)
    → VotesOn env m s (propose_committed env m (record s { proposal_qc = q }))
unfolding propose_committed is_leader get_leader_num checks_qc
propose_committed-VotesOn env m s q later same single = elim (Bool-cases (is_leader s)) [
  | inl leads ↦ rw leads (
      voted_on env m s t (propose_voted env m t) later refl same (λ c f. absurd (apart leads f))
        (propose_voted-VotedOr env m t same))
  | inr follows ↦ elim (Bool-cases (checks_qc s && not (double_ok env m))) [
    | inl refused ↦ rw (follows, refused) (later, refl)
    | inr passed ↦
        rw (follows, passed)
          (committed (commit_locked m.justify2 t) (commit_locked-KeepsOr m.justify2 t)
            (λ c f. (single c f, passes passed c)))
  ]
]
  where
    t : Hotstuff2
    t = record s { proposal_qc = q }

    committed :
        (o : Option Hotstuff2)
        → KeepsOr t o
        → (checks_qc s ≡ true
            → is_leader s ≡ false
            → (single_ok env m s ≡ true) × (double_ok env m ≡ true))
        → VotesOn env m s (elim o [ none ↦ none | some u ↦ some (propose_voted env m u) ])
    committed none few ok = few
    committed (some u) (v, phase, number, cert) ok =
        let view : u.view.view_number ≡ s.view.view_number = ap (λ (w : View). w.view_number) v in
        voted_on env m s u (propose_voted env m u) (rw cert later) view same ok
          (propose_voted-VotedOr env m u (view ∙ same))

-- HandlePropose votes only in the view of the proposal. Where certificates are checked, a vote of a
-- replica that does not lead has both certificates of the proposal verified. The vote is the part
-- signature of the proposal, whose block and node the replica takes over, and the propose phase
-- begins. The single certificate of the replica never goes back to an earlier view, and the view
-- stays. The only panic is on fewer locked nodes than locked blocks.
pub handle_propose-VotesOn :
    (env : Env) (m : H2Msg) (s : Hotstuff2) → VotesOn env m s (handle_propose env m s)
unfolding handle_propose
handle_propose-VotesOn env m s =
    if_elim (VotesOn env m s) (s.cur_phase == propose && not (is_leader s)) stays
      (elim (Bool-cases (eq_ℤ s.view.view_number m.view_number)) [
        | inr other ↦ rw other stays
        | inl same ↦ rw same (
            taken (take_single env m s) (take_single-Taken env m s)
              ((eq_ℤ_iff s.view.view_number m.view_number).0 same))
      ])
  where
    stays : NotBack s s × (s.view.view_number ≡ s.view.view_number)
    stays = (omega arith, refl)

    taken :
        (o : Option Hotstuff2)
        → Taken env m s o
        → s.view.view_number ≡ m.view_number
        → VotesOn env m s (elim o [ none ↦ some (s, none) | some t ↦ propose_committed env m t ])
    taken none k same = stays
    taken (some t) (later, e, ok) same =
        subst (λ (u : Hotstuff2). VotesOn env m s (propose_committed env m u)) (sym e)
          (propose_committed-VotesOn env m s t.proposal_qc later same ok)
