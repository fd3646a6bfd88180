-- ===== src/Examples/Chained.antt =====
-- Replicas of the chained protocol, of four nodes.
use dcschain.Base.{
  ℕ, ◌≡◌, refl, ◌≢◌, true, false, List, [], ◌∷◌, some, pos, ◌%ℤ◌, ◌+ℤ◌, ◌<ℤ◌, arith, replicate,
  length, ap, text_eq,
}
use dcschain.Common.Encode.{HsNode}
use dcschain.Common.Name.{node_name}
use dcschain.Blockchain
use dcschain.Crypto.Tss.{threshold_sign}
use dcschain.BasicHotstuff.Types.{new_view, generic, generic_vote, half_generic, empty_proposal}
use dcschain.ChainedHotstuff.Types.{Four, four, ChainedQc, CMsg, empty_c_msg, empty_chained_qc}
use dcschain.ChainedHotstuff.State.{CHotstuff, new_chained_hotstuff}
use dcschain.ChainedHotstuff.Rules.{is_leader, get_node_name, get_leader_name, matching_c_msg}
use dcschain.ChainedHotstuff.Handlers.{
  CStep, c_handle_generic, log_generic_vote, c_handle_generic_vote,
}
use dcschain.ChainedHotstuff.Core.{send_answers}
use dcschain.ChainedHotstuff.Run.{Event, deliver, timeout, run}
use dcschain.ChainedHotstuff.Collecting.{IsCollecting}
use dcschain.ChainedHotstuff.Runs.{run-IsCollecting, quiet_run_returns}
use dcschain.ChainedHotstuff.Votes.{later_vote_later}
use dcschain.ChainedHotstuff.Chain.{VotesFor, c_handle_generic-VotesFor}
use dcschain.ChainedHotstuff.Certificate.{MayCertify, c_handle_generic_vote-MayCertify}
use dcschain.Examples.Replica.{env}

abbrev replica : ℕ → CHotstuff
replica i = new_chained_hotstuff (λ m. m) 1000 (pos i) 4 true

abbrev hash_node : ℕ → ℕ → HsNode
hash_node h p = record { cur_hash = some (h ∷ []); parent_hash = some (p ∷ []) }

-- Nodes that chain three deep under node 4, and a certificate for the one below it.
abbrev chain : Four HsNode
chain = record {
  at0 = hash_node 4 3;
  at1 = hash_node 3 2;
  at2 = hash_node 2 1;
  at3 = hash_node 1 0;
}

abbrev chain_qc : ChainedQc
chain_qc = record empty_chained_qc { hs_nodes = four (hash_node 3 2); sign = some (9 ∷ []) }

abbrev proposal : CMsg
proposal = record empty_c_msg { m_type = generic; hs_nodes = chain; justify = chain_qc }

-- The replica 1, which does not lead view 0, after the proposal.
abbrev answered : CStep
answered = c_handle_generic env proposal (replica 1)

abbrev after : CHotstuff
after = send_answers answered.1 answered.0

abbrev es : List Event
es = deliver (pos 0) (some proposal) ∷ []

done : run env es (replica 1) ≡ some after
unfolding run
done = refl

run-IsCollecting_example : IsCollecting after
run-IsCollecting_example = run-IsCollecting env 1000 (pos 1) 4 true es after done

after_nodes : (after.view.nodes_num ≡ 4) × (after.has_send_chan ≡ true)
unfolding send_answers c_handle_generic new_chained_hotstuff text_eq threshold_sign get_node_name
    node_name Blockchain.is_empty
after_nodes = (refl, refl)

quiet_run_returns_example :
    (t : CHotstuff) × (run env (timeout ∷ es) after ≡ some t) × IsCollecting t
quiet_run_returns_example =
    quiet_run_returns env (timeout ∷ es) after (omega (arith, after_nodes.0)) after_nodes.1
      (tt, (tt, tt)) run-IsCollecting_example

-- The same proposal in view 1.
abbrev next_proposal : CMsg
next_proposal = record proposal { view_number = pos 1 }

follows : is_leader (replica 1) ≡ false
unfolding is_leader text_eq get_node_name node_name get_leader_name new_chained_hotstuff
follows = refl

two_votes : length answered.1 ≡ 2
unfolding c_handle_generic new_chained_hotstuff text_eq threshold_sign get_node_name node_name
    Blockchain.is_empty
two_votes = refl

votes : answered.1 ≢ []
votes e = omega (arith, two_votes, ap length e)

one_vote_again : length (c_handle_generic env next_proposal after).1 ≡ 1
unfolding c_handle_generic send_answers new_chained_hotstuff text_eq threshold_sign get_node_name
    node_name Blockchain.is_empty ◌%ℤ◌ ◌+ℤ◌ get_leader_name is_leader
one_vote_again = refl

votes_again : (c_handle_generic env next_proposal after).1 ≢ []
votes_again e = omega (arith, one_vote_again, ap length e)

later_vote_later_example : proposal.view_number <ℤ next_proposal.view_number
later_vote_later_example =
    later_vote_later env (pos 0) proposal next_proposal (replica 1) after [] refl follows votes done
      votes_again

c_handle_generic-VotesFor_example : VotesFor env proposal (replica 1) answered
c_handle_generic-VotesFor_example = c_handle_generic-VotesFor env proposal (replica 1)

-- The leader of view 0 with three new-view messages and something to propose.
abbrev waiting_leader : CHotstuff
waiting_leader = record (replica 0) {
  new_view_msgs = replicate 2 (record empty_c_msg { justify = chain_qc });
  cur_proposal = record empty_proposal { commands = some (some (7 ∷ []) ∷ []) };
  view_change_flag = true;
}

abbrev new_view_0 : CMsg
new_view_0 = record empty_c_msg { m_type = new_view; justify = chain_qc }

-- The leader with two votes for its proposal.
abbrev a_vote : CMsg
a_vote = record empty_c_msg { m_type = generic_vote; hs_nodes = chain; partial_sig = some (1 ∷ []) }

abbrev collector : CHotstuff
collector = record (replica 0) {
  cur_phase = half_generic;
  cur_round_msg = some proposal;
  generic_vote_msgs = a_vote ∷ a_vote ∷ [];
}

collector_collects : IsCollecting collector
unfolding is_leader new_chained_hotstuff text_eq get_node_name node_name get_leader_name
    matching_c_msg
collector_collects = record {
  waits = λ p. refl;
  leads = λ p. refl;
  votes = λ p. (refl, (refl, tt));
  round = λ p. refl;
}

c_handle_generic_vote-MayCertify_example :
    MayCertify env a_vote
      (log_generic_vote a_vote collector)
      (c_handle_generic_vote env a_vote collector)
unfolding new_chained_hotstuff
c_handle_generic_vote-MayCertify_example =
    c_handle_generic_vote-MayCertify env a_vote collector (omega arith) collector_collects
