-- ===== src/Hotstuff2/Aligned.antt =====
-- The locked nodes and blocks of a HotStuff-2 replica stay one for one, message by message.
use mathlib.Core.Path.{subst}
use dcschain.Base.{
  ℕ, suc, ◌≡◌, refl, sym, ◌∙◌, ap, inl, inr, true, List, [], ◌∷◌, Option, none, some, arith, Bytes,
  length, length-append, length-take, length-drop, Bool-cases, take, drop,
}
use dcschain.Common.View
use dcschain.Crypto.Tss.{threshold_sign}
use dcschain.BasicHotstuff.State.{Env}
use dcschain.Hotstuff2.Types.{QuromCert, H2Msg, message_to_byte}
use dcschain.Hotstuff2.State.{Hotstuff2}
use dcschain.Hotstuff2.Commit.{commit_locked, add_validation_to_blk}
use dcschain.Hotstuff2.Handlers.{
  HStep, handle_wish, handle_new_view, update_consensus, start_view_timer, handle_optimistic_enter,
  tc_entered, handle_tc, handle_vote1, prepare_signed, handle_prepare, vote2_certified,
  handle_vote2, vote2_on,
}
use dcschain.Hotstuff2.Removal.{without}
use dcschain.Hotstuff2.Kept.{length-add_validation}
use dcschain.Hotstuff2.Ledger.{Refines, stays, commit_locked-Refines}

-- There is a locked node for each locked block.
abbrev pub IsAligned : Hotstuff2 → Type 0
IsAligned s = length s.lock_hs2_node ≡ length s.lock_blk

abbrev pub StepAligned : HStep → Type 0
StepAligned r = IsAligned r.0

-- No panic, and an aligned result.
abbrev pub OptionAligned : Option HStep → Type 0
OptionAligned none = ⊥
OptionAligned (some r) = StepAligned r

abbrev pub StateAligned : Option Hotstuff2 → Type 0
StateAligned none = ⊥
StateAligned (some t) = IsAligned t

length-without :
    {A B : Type 0} (start last : ℕ) (xs : List A) (ys : List B)
    → length xs ≡ length ys
    → length (without start last xs) ≡ length (without start last ys)
length-without start last xs ys e = omega (
  arith,
  e,
  length-append (take start xs) (drop (suc last) xs),
  length-append (take start ys) (drop (suc last) ys),
  length-take start xs,
  length-take start ys,
  length-drop (suc last) xs,
  length-drop (suc last) ys,
)

Refines-Aligned :
    (s : Hotstuff2) (o : Option Hotstuff2) → IsAligned s → Refines s o → StateAligned o
Refines-Aligned s none h r = r
Refines-Aligned s (some t) h (inl (f, e)) = subst IsAligned (sym e) h
Refines-Aligned s (some t) h (inr (start, last, f, c, (l, blks, nodes, p))) =
    elim (Bool-cases (stays start last s)) [
      | inl kept ↦ ap length (nodes ∙ rw kept refl) ∙ h ∙ sym (ap length (blks ∙ rw kept refl))
      | inr gone ↦
          ap length (nodes ∙ rw gone refl)
          ∙ length-without start last s.lock_hs2_node s.lock_blk h
          ∙ sym (ap length (blks ∙ rw gone refl))
    ]

validated : (q : QuromCert) (s : Hotstuff2) → IsAligned s → IsAligned (add_validation_to_blk q s)
unfolding add_validation_to_blk
validated q s h = h ∙ sym (length-add_validation q s.lock_blk)

pub commit_locked-Aligned :
    (q : QuromCert) (s : Hotstuff2) → IsAligned s → StateAligned (commit_locked q s)
commit_locked-Aligned q s h =
    Refines-Aligned (add_validation_to_blk q s) (commit_locked q s) (validated q s h)
      (commit_locked-Refines q s h)

pub handle_new_view-Aligned :
    (env : Env) (m : H2Msg) (s : Hotstuff2) → IsAligned s → StepAligned (handle_new_view env m s)
unfolding handle_new_view
handle_new_view-Aligned env m s h = ground arith

pub handle_wish-Aligned :
    (env : Env) (m : H2Msg) (s : Hotstuff2) → IsAligned s → StepAligned (handle_wish env m s)
unfolding handle_wish
handle_wish-Aligned env m s h = ground arith

pub update_consensus-Aligned :
    (env : Env) (s : Hotstuff2) → IsAligned s → IsAligned (update_consensus env s)
unfolding update_consensus
update_consensus-Aligned env s h = omega (
  arith,
  h,
  length-append s.lock_hs2_node (s.cur_hs2_node ∷ []),
  length-append s.lock_blk (s.blk_store.cur_proposal_blk ∷ []),
)

pub handle_optimistic_enter-Aligned :
    (env : Env) (m : H2Msg) (s : Hotstuff2)
    → IsAligned s
    → StepAligned (handle_optimistic_enter env m s)
unfolding handle_optimistic_enter start_view_timer
handle_optimistic_enter-Aligned env m s h =
    let more =
      update_consensus-Aligned env (record s { pm = record (s.pm) { optimistic_flag = true } }) h in
    ground (arith, more)

tc_entered-Aligned : (m : H2Msg) (s : Hotstuff2) → IsAligned s → StepAligned (tc_entered m s)
unfolding tc_entered start_view_timer
tc_entered-Aligned m s h = ground arith

pub handle_tc-Aligned :
    (env : Env) (m : H2Msg) (s : Hotstuff2) → IsAligned s → StepAligned (handle_tc env m s)
unfolding handle_tc
handle_tc-Aligned env m s h =
    ground
      (arith, tc_entered-Aligned m (record s { view = View.catch_up_view m.view_number s.view }) h)

pub handle_vote1-Aligned :
    (env : Env) (m : H2Msg) (s : Hotstuff2) → IsAligned s → StepAligned (handle_vote1 env m s)
unfolding handle_vote1
handle_vote1-Aligned env m s h = ground arith

pub prepare_signed-Aligned :
    (m : H2Msg) (o : Option Bytes) (s : Hotstuff2)
    → IsAligned s
    → StepAligned (prepare_signed m o s)
unfolding prepare_signed
prepare_signed-Aligned m none s h = h
prepare_signed-Aligned m (some sig) s h = h

pub handle_prepare-Aligned :
    (env : Env) (m : H2Msg) (s : Hotstuff2) → IsAligned s → StepAligned (handle_prepare env m s)
unfolding handle_prepare
handle_prepare-Aligned env m s h =
    ground (
      arith,
      prepare_signed-Aligned m (threshold_sign env.signer (message_to_byte (vote2_on m))) s h,
    )

pub handle_vote2-Aligned :
    (env : Env) (m : H2Msg) (s : Hotstuff2) → IsAligned s → StepAligned (handle_vote2 env m s)
unfolding handle_vote2 vote2_certified
handle_vote2-Aligned env m s h = ground arith
