-- ===== src/Examples/Replica.antt =====
-- Replicas of basic HotStuff in view 0, of four nodes, and what they do.
use dcschain.Base.{
  ℕ, zero, suc, ◌≡◌, refl, Bool, true, false, List, [], ◌∷◌, some, pos, arith, leb, codes, is_nil,
  not, text_eq, inl,
}
use dcschain.Common.Encode.{HsNode}
use dcschain.Crypto.Tss.{threshold_sign, Signer}
use dcschain.BasicHotstuff.Types.{
  prepare, prepare_vote, Msg, empty_msg, empty_proposal, message_to_byte,
}
use dcschain.BasicHotstuff.State.{Env, ServerMsg, BcHotstuff, new_bc_hotstuff, server_msg}
use dcschain.Common.Name.{node_name}
use dcschain.Quorum.{threshold, max_faulty}
use dcschain.Quorum.Count.{count}
use dcschain.BasicHotstuff.Rules.{is_leader, get_node_name, get_leader_name}
use dcschain.BasicHotstuff.Handlers.{handle_prepare, vote_on}
use dcschain.BasicHotstuff.Core.{Event, deliver, step, run, answer, signed_by}
use dcschain.BasicHotstuff.Votes.{run_votes_once, In}
use dcschain.BasicHotstuff.Agreement.{VotedFor, Certified, prepare_agreement}

-- A signer for which a signature is the message itself.
abbrev pub signer : Signer
signer = record {
  tbls_sign = λ m. some (some m);
  tbls_recover = λ m shares. some (some m);
  bdn_verify = λ m sig. not (is_nil sig);
  sign_num = 4;
  threshold = 3;
}

abbrev pub env : Env
env = record { sum_sm3 = λ m. m; signer = signer }

abbrev pub replica : ℕ → BcHotstuff
replica i = new_bc_hotstuff (λ m. m) 1000 (pos i) 4 true

abbrev pub node : ℕ → HsNode
node h = record { cur_hash = some (h ∷ []); parent_hash = some [] }

abbrev pub prepare_msg : ℕ → Msg
prepare_msg h = record empty_msg {
  m_type = prepare;
  hs_node = node h;
  proposal = record empty_proposal { commands = some (some (h ∷ []) ∷ []) };
}

-- The replica after a proposal of the leader.
abbrev pub voted : ℕ → BcHotstuff
voted i = answer (handle_prepare env (prepare_msg 7) (replica i))

abbrev pub two_proposals : List Event
two_proposals = deliver (pos 0) (some (prepare_msg 7)) ∷ deliver (pos 0) (some (prepare_msg 8)) ∷ []

abbrev pub vote : ℕ → ServerMsg
vote i = server_msg (
    signed_by (replica i) (record empty_msg {
      m_type = prepare_vote;
      hs_node = node 7;
      reci_node = codes "r_0";
      partial_sig = some (message_to_byte (vote_on (prepare_msg 7) (replica i)));
    }))

-- Of two proposals in one view the replica votes for the first alone.
run_1 : run env two_proposals (replica 1) ≡ some (voted 1)
unfolding run step answer handle_prepare new_bc_hotstuff is_leader text_eq get_node_name node_name
    get_leader_name threshold_sign
run_1 = refl

run_2 : run env two_proposals (replica 2) ≡ some (voted 2)
unfolding run step answer handle_prepare new_bc_hotstuff is_leader text_eq get_node_name node_name
    get_leader_name threshold_sign
run_2 = refl

sent_1 : (voted 1).sent ≡ vote 1 ∷ []
unfolding answer handle_prepare new_bc_hotstuff is_leader text_eq get_node_name node_name
    get_leader_name threshold_sign
sent_1 = refl

sent_2 : (voted 2).sent ≡ vote 2 ∷ []
unfolding answer handle_prepare new_bc_hotstuff is_leader text_eq get_node_name node_name
    get_leader_name threshold_sign
sent_2 = refl

replica_sent : (i : ℕ) → (replica i).sent ≡ []
unfolding new_bc_hotstuff
replica_sent i = refl

In-singleton : {A : Type 0} {a : A} {xs : List A} → xs ≡ a ∷ [] → In a xs
In-singleton e = rw e (inl refl)

run_votes_once_example : vote 1 ≡ vote 1
run_votes_once_example =
    run_votes_once env two_proposals (replica 1) (voted 1) (replica_sent 1) run_1 (vote 1) (vote 1)
      (In-singleton sent_1) (In-singleton sent_1) refl refl refl

-- All but the first three nodes are faulty.
abbrev faulty : ℕ → Bool
faulty i = leb 3 i

abbrev events : ℕ → List Event
events zero = []
events (suc i) = two_proposals

abbrev final : ℕ → BcHotstuff
final zero = replica 0
final (suc i) = voted (suc i)

all_run : (i : ℕ) → faulty i ≡ false → run env (events i) (replica i) ≡ some (final i)
unfolding run
all_run zero h = refl
all_run (suc zero) h = run_1
all_run (suc (suc zero)) h = run_2
all_run (suc (suc (suc i))) h = ground arith

abbrev signers : ℕ → Bool
signers i = leb 1 i

certified : Certified 4 faulty final (pos 0) (node 7)
unfolding threshold count
certified = (signers, omega arith, votes)
  where
    votes : (i : ℕ) → signers i ≡ true → faulty i ≡ false → VotedFor (final i).sent (pos 0) (node 7)
    votes zero h k = cc
    votes (suc zero) h k = (vote 1, In-singleton sent_1, refl, refl, refl)
    votes (suc (suc zero)) h k = (vote 2, In-singleton sent_2, refl, refl, refl)
    votes (suc (suc (suc i))) h k = ground arith

prepare_agreement_example : node 7 ≡ node 7
unfolding max_faulty count
prepare_agreement_example =
    prepare_agreement 4 faulty (λ i. env) events replica final (pos 0) (node 7) (node 7) refl
      (omega arith) (λ i h. replica_sent i) all_run certified certified
