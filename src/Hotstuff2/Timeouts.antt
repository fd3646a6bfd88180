-- ===== src/Hotstuff2/Timeouts.antt =====
-- Wishes and timeout certificates (HandleWish, HandleTC).
use dcschain.Base.{
  Slice, suc, ◌+◌, ◌≡◌, refl, sym, ◌∙◌, ap, ◌≢◌, ◌⊎◌, inl, inr, true, false, List, [], ◌∷◌, ◌++◌,
  none, some, arith, ◌==◌, ==_iff, ℤ, pos, ◌-ℤ◌, ◌≤ℤ◌, eq_ℤ, eq_ℤ_iff, ltb_ℤ, Bool-cases, elems,
  length,
}
use dcschain.Common.View
use dcschain.Common.Timer.{Timer, start}
use dcschain.Crypto.Tss.{threshold_sign_verify}
use dcschain.Quorum.{threshold}
use dcschain.Common.Name.{node_name}
use dcschain.BasicHotstuff.State.{Env}
use dcschain.Hotstuff2.Types.{new_view, new_propose, tc_msg, H2Msg, message_to_byte}
use dcschain.Hotstuff2.State.{Hotstuff2, WishMap, set_wish, is_leader, get_leader_num}
use dcschain.Hotstuff2.Rules.{combine_sign}
use dcschain.Hotstuff2.Handlers.{
  HStep, wish_for, log_wish, handle_wish, new_view_msg, start_view_timer, tc_entered, handle_tc,
}

set_wish-same : (v : ℤ) (ms : Slice H2Msg) (w : WishMap) → set_wish v ms w v ≡ ms
unfolding set_wish
set_wish-same v ms w = let e : eq_ℤ v v ≡ true = (eq_ℤ_iff v v).1 refl in rw e refl

set_wish-other : (v k : ℤ) (ms : Slice H2Msg) (w : WishMap) → k ≢ v → set_wish v ms w k ≡ w k
unfolding set_wish
set_wish-other v k ms w n = elim (Bool-cases (eq_ℤ k v)) [
  | inl e ↦ absurd (n ((eq_ℤ_iff k v).0 e))
  | inr e ↦ rw e refl
]

-- The wishes of other views are those of before.
abbrev OthersKept : ℤ → WishMap → WishMap → Type 0
OthersKept v w u = (k : ℤ) → k ≢ v → u k ≡ w k

-- What HandleWish gives on the wish `m`.
abbrev pub WishStep : Env → H2Msg → Hotstuff2 → HStep → Type 0
WishStep env m s (t, none) =
    (length (elems (s.pm.wish_msgs m.view_number)) ≢ threshold s.view.nodes_num)
    × (t.pm.wish_msgs m.view_number ≡ some (elems (s.pm.wish_msgs m.view_number) ++ (m ∷ [])))
    × OthersKept m.view_number s.pm.wish_msgs t.pm.wish_msgs
    × (t.view ≡ s.view)
WishStep env m s (t, some r) =
    (length (elems (s.pm.wish_msgs m.view_number)) ≡ threshold s.view.nodes_num)
    × (t.pm.wish_msgs m.view_number ≡ none)
    × OthersKept m.view_number s.pm.wish_msgs t.pm.wish_msgs
    × (t.view ≡ s.view)
    × (r.m_type ≡ tc_msg)
    × (r.view_number ≡ m.view_number)
    × (r.cons_sign
        ≡ combine_sign env.signer (elems (s.pm.wish_msgs m.view_number) ++ (m ∷ []))
            (wish_for m.view_number))

length-snoc : {A : Type 0} (xs : List A) (x : A) → length (xs ++ (x ∷ [])) ≡ suc (length xs)
length-snoc [] x = refl
length-snoc (y ∷ xs) x = ap suc (length-snoc xs x)

-- HandleWish logs every wish under its view and leaves the others alone. With the wish that comes on
-- top of exactly the threshold it makes a timeout certificate for that view out of all its wishes,
-- and forgets them.
pub handle_wish-WishStep :
    (env : Env) (m : H2Msg) (s : Hotstuff2) → WishStep env m s (handle_wish env m s)
unfolding handle_wish log_wish
handle_wish-WishStep env m s =
    let v = m.view_number in
    let old = elems (s.pm.wish_msgs v) in
    let more : Slice H2Msg = some (old ++ (m ∷ [])) in
    let logged = set_wish-same v more s.pm.wish_msgs in
    let counted = length-snoc old m in
    elim (Bool-cases (length (old ++ (m ∷ [])) == threshold s.view.nodes_num + 1)) [
      | inl full ↦
          let e = (==_iff _ _).0 full in
          rw (logged, full)
            (
              omega (arith, e, counted),
              set_wish-same v none (set_wish v more s.pm.wish_msgs),
              (λ k n.
                  set_wish-other v k none (set_wish v more s.pm.wish_msgs) n
                  ∙ set_wish-other v k more s.pm.wish_msgs n),
              refl,
              refl,
              refl,
              refl,
            )
      | inr few ↦
          rw (logged, few)
            (
              (λ e.
                  let full : length (old ++ (m ∷ [])) ≡ threshold s.view.nodes_num + 1 =
                    omega (arith, e, counted) in
                  let k : true ≡ false = sym ((==_iff _ _).1 full) ∙ few in cc),
              logged,
              (λ k n. set_wish-other v k more s.pm.wish_msgs n),
              refl,
            )
    ]

start_runs : (t : Timer) → (start t).is_stopped ≡ false
unfolding start
start_runs t = elim (Bool-cases t.is_stopped) [
  | inl stopped ↦ rw stopped refl
  | inr running ↦ rw running refl
]

-- A new-view message to the leader of the view of `t`, for the view before it, that carries the
-- proposal and the prepare certificate of `s`.
abbrev pub Carries : Hotstuff2 → Hotstuff2 → H2Msg → Type 0
Carries s t v =
    (v.m_type ≡ new_view)
    × (v.view_number ≡ t.view.view_number -ℤ pos 1)
    × (v.reci_node ≡ node_name t.view.leader)
    × (v.justify1 ≡ s.proposal_qc)
    × (v.justify2 ≡ s.prepare_qc)

-- A replica that has entered the view of the timeout certificate `m`: its view timer runs, a leader
-- also waits for certificates and keeps its own, and any other sends its own to the leader.
abbrev pub Entered : H2Msg → Hotstuff2 → HStep → Type 0
Entered m s (t, r) =
    (t.view.view_number ≡ m.view_number)
    × (t.pm.view_timer.is_stopped ≡ false)
    × (t.proposal_qc ≡ s.proposal_qc)
    × (t.prepare_qc ≡ s.prepare_qc)
    × (((is_leader t ≡ true)
          × (r ≡ none)
          × (t.cur_phase ≡ new_view)
          × (t.pm.enter_timer.is_stopped ≡ false)
          × ((v : H2Msg) × (t.new_view_msgs ≡ s.new_view_msgs ++ (v ∷ [])) × Carries s t v))
        ⊎ ((is_leader t ≡ false)
            × (t.cur_phase ≡ new_propose)
            × ((v : H2Msg) × (r ≡ some v) × Carries s t v)))

tc_entered-Entered :
    (m : H2Msg) (s : Hotstuff2) → s.view.view_number ≡ m.view_number → Entered m s (tc_entered m s)
unfolding tc_entered start_view_timer new_view_msg is_leader get_leader_num
tc_entered-Entered m s same =
    let current : ltb_ℤ m.view_number s.view.view_number ≡ false = rw same (ground arith) in
    elim (Bool-cases (is_leader s)) [
      | inl leads ↦
          rw (leads, current)
            (
              same,
              start_runs s.pm.view_timer,
              refl,
              refl,
              inl (
                leads,
                refl,
                refl,
                start_runs s.pm.enter_timer,
                (_, refl, (refl, refl, refl, refl, refl)),
              ),
            )
      | inr follows ↦ rw follows (
        same,
        start_runs s.pm.view_timer,
        refl,
        refl,
        inr (follows, refl, (_, refl, (refl, refl, refl, refl, refl))),
      )
    ]

-- Every replica that is not ahead enters the view of a timeout certificate that verifies, with
-- its certificates as they were and its view timer running. The leader of that view waits, with
-- the enter timer running and its own certificates logged; any other replica sends its
-- certificates to the leader.
pub handle_tc-Entered :
    (env : Env) (m : H2Msg) (s : Hotstuff2)
    → threshold_sign_verify env.signer (message_to_byte (wish_for m.view_number)) m.cons_sign ≡ true
    → s.view.view_number ≤ℤ m.view_number
    → Entered m s (handle_tc env m s)
unfolding handle_tc
handle_tc-Entered env m s verified behind = rw verified (
    tc_entered-Entered m (record s { view = View.catch_up_view m.view_number s.view })
      ((View.catch_up_view_lem m.view_number s.view).0 behind))
