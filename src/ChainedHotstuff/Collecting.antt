-- ===== src/ChainedHotstuff/Collecting.antt =====
-- What holds of a replica of the chained protocol while it waits for requests or collects votes,
-- over any run.
use dcschain.Base.{
  ◌≡◌, refl, sym, ◌∙◌, ◌⊎◌, inl, inr, Bool, true, false, ◌||◌, List, [], ◌∷◌, Option, none, some,
  arith, ◌==◌, ℤ, All,
}
use dcschain.BasicHotstuff.Types.{new_view, generic, generic_vote, half_generic, waiting}
use dcschain.BasicHotstuff.State.{Env}
use dcschain.ChainedHotstuff.Types.{CMsg}
use dcschain.ChainedHotstuff.State.{CHotstuff}
use dcschain.ChainedHotstuff.Rules.{is_leader, matching_c_msg}
use dcschain.ChainedHotstuff.Handlers.{CStep, log_new_view, c_handle_new_view}
use dcschain.ChainedHotstuff.Frame.{Moves, is_leader_same, is_leader-Unmoved}
use dcschain.ChainedHotstuff.Proposals.{
  BuiltOn, Still, Proposes, log_new_view-Unmoved, new_view-Proposes,
}

-- Whether there is a message, and it is a proposal.
abbrev pub has_proposal : Option CMsg → Bool
has_proposal none = false
has_proposal (some m) = m.m_type == generic

abbrev pub IsVote : ℤ → CMsg → Type 0
IsVote v m = matching_c_msg m generic_vote v ≡ true

-- A replica waits for requests, or collects votes, only as the leader of its view; what it collects
-- are votes of that view, for a proposal that it remembers.
pub record IsCollecting (s : CHotstuff) : Type 0 where
  pub waits : s.cur_phase ≡ waiting → is_leader s ≡ true
  pub leads : s.cur_phase ≡ half_generic → is_leader s ≡ true
  pub votes : s.cur_phase ≡ half_generic → All (IsVote s.view.view_number) s.generic_vote_msgs
  pub round : s.cur_phase ≡ half_generic → has_proposal s.cur_round_msg ≡ true

-- The first answer is a proposal.
abbrev pub proposes : List CMsg → Bool
proposes [] = false
proposes (m ∷ ms) = m.m_type == generic

-- The same of a handler's result, whose proposal is not remembered before it is sent.
pub record Collects (s : CHotstuff) (r : List CMsg) : Type 0 where
  pub waits : s.cur_phase ≡ waiting → is_leader s ≡ true
  pub leads : s.cur_phase ≡ half_generic → is_leader s ≡ true
  pub votes : s.cur_phase ≡ half_generic → All (IsVote s.view.view_number) s.generic_vote_msgs
  pub round : s.cur_phase ≡ half_generic → (proposes r || has_proposal s.cur_round_msg) ≡ true

abbrev pub StepCollects : CStep → Type 0
StepCollects (t, r) = Collects t r

abbrev pub OptionCollects : Option CStep → Type 0
OptionCollects none = ⊥
OptionCollects (some r) = StepCollects r

pub IsCollecting-idle : (s : CHotstuff) → IsCollecting s → Collects s []
IsCollecting-idle s h = record {
  waits = h.waits;
  leads = h.leads;
  votes = h.votes;
  round = λ p. h.round p;
}

pub or_true : (b : Bool) → (b || true) ≡ true
or_true true = refl
or_true false = refl

-- A step that keeps the phase, the votes and the proposal keeps them right if it keeps the view or
-- is one of a replica that does not lead.
pub Collects-Moves : (s : CHotstuff) (r : CStep) → IsCollecting s → Moves s r → StepCollects r
Collects-Moves s (t, r) h (k, inl (v, w)) =
    let lead = is_leader-Unmoved s t (k, v) in
    record {
      waits = λ p. lead ∙ h.waits (sym k.0 ∙ p);
      leads = λ p. lead ∙ h.leads (sym k.0 ∙ p);
      votes = λ p. rw (k.2, v) (h.votes (sym k.0 ∙ p));
      round = λ p. rw k.3 (rw (h.round (sym k.0 ∙ p)) (or_true (proposes r)));
    }
Collects-Moves s (t, r) h (k, inr (v, follows)) = record {
  waits = λ p. absurd (apart (sym (h.waits (sym k.0 ∙ p)) ∙ follows));
  leads = λ p. absurd (apart (sym (h.leads (sym k.0 ∙ p)) ∙ follows));
  votes = λ p. absurd (apart (sym (h.leads (sym k.0 ∙ p)) ∙ follows));
  round = λ p. absurd (apart (sym (h.leads (sym k.0 ∙ p)) ∙ follows));
}
  where
    apart : ¬ (true ≡ false)
    apart e = cc

pub not_false : ¬ (true ≡ false)
not_false e = cc

pub not_waiting : ¬ (new_view ≡ waiting)
not_waiting e = omega arith

pub not_half : ¬ (new_view ≡ half_generic)
not_half e = omega arith

-- In the new-view phase nothing is asked.
pub Collects-early : (t : CHotstuff) (r : List CMsg) → t.cur_phase ≡ new_view → Collects t r
Collects-early t r e = record {
  waits = λ p. absurd (not_waiting (sym e ∙ p));
  leads = λ p. absurd (not_half (sym e ∙ p));
  votes = λ p. absurd (not_half (sym e ∙ p));
  round = λ p. absurd (not_half (sym e ∙ p));
}

-- A proposal of a leader.
pub Collects-built :
    (s : CHotstuff) (h : CMsg) (t : CHotstuff) (r : CMsg) (rs : List CMsg)
    → is_leader s ≡ true
    → BuiltOn s h t r
    → Collects t (r ∷ rs)
Collects-built s h t r rs leads b =
    let (
      (type, of_view, on, parent, chain, blk),
      (phase, view, number, votes, msgs, round, sent),
      kept,
    ) =
      b in
    let lead = is_leader_same s t number view ∙ leads in
    record {
      waits = λ p. lead;
      leads = λ p. lead;
      votes = λ p. rw votes tt;
      round = λ p. rw type refl;
    }

log_new_view-IsCollecting :
    (m : CMsg) (s : CHotstuff) → IsCollecting s → StepCollects (log_new_view m s, [])
log_new_view-IsCollecting m s h =
    let (k, v) = log_new_view-Unmoved m s in
    Collects-Moves s (log_new_view m s, []) h (k, inl (v, inr refl))

-- What a step without answers keeps, the phase being the old one or that of a waiting leader.
Collects-Still :
    (s t : CHotstuff)
    → Collects s []
    → Still s t
    → (t.cur_phase ≡ s.cur_phase) ⊎ ((t.cur_phase ≡ waiting) × (is_leader s ≡ true))
    → Collects t []
Collects-Still s t h (view, number, votes, round, sent) (inl e) =
    let lead = is_leader_same s t number view in
    record {
      waits = λ p. lead ∙ h.waits (sym e ∙ p);
      leads = λ p. lead ∙ h.leads (sym e ∙ p);
      votes = λ p. rw (votes, view) (h.votes (sym e ∙ p));
      round = λ p. rw round (h.round (sym e ∙ p));
    }
Collects-Still s t h (view, number, votes, round, sent) (inr (e, leads)) =
    let other : ¬ (t.cur_phase ≡ half_generic) = λ p. omega (arith, e, p) in
    record {
      waits = λ p. is_leader_same s t number view ∙ leads;
      leads = λ p. absurd (other p);
      votes = λ p. absurd (other p);
      round = λ p. absurd (other p);
    }

Collects-Proposes :
    (s : CHotstuff) (o : Option CStep) → Collects s [] → Proposes s o → OptionCollects o
Collects-Proposes s none h p = p
Collects-Proposes s (some (t, [])) h (still, phase) = Collects-Still s t h still phase
Collects-Proposes s (some (t, r ∷ rs)) h (one, leads, over, due, busy, (m, e, high, b)) =
    Collects-built s m t r rs leads b

pub c_handle_new_view-Collects :
    (env : Env) (now : ℤ) (m : CMsg) (s : CHotstuff)
    → IsCollecting s
    → OptionCollects (c_handle_new_view env now m s)
c_handle_new_view-Collects env now m s h =
    Collects-Proposes (log_new_view m s) (c_handle_new_view env now m s)
      (log_new_view-IsCollecting m s h) (new_view-Proposes env now m s)
