-- ===== src/Orderer/State.antt =====
-- orderer/core/orderer.go: the orderer's structure. Of its four pointers only the one of the
-- protocol in use is not nil, so the four are one value.
use dcschain.Base.{
  ℕ, Bool, true, Option, none, some, ℤ, Bytes, Text, codes, text_eq, if◌then◌else◌, ◌==◌,
}
use dcschain.Common.View.{View, leader_name}
use dcschain.BasicHotstuff
use dcschain.ChainedHotstuff
use dcschain.Hotstuff2
use dcschain.Pbft

-- The protocol in use, with its state.
pub data Cons : Type 0 where
  basic : BasicHotstuff.State.BcHotstuff → Cons
  chained : ChainedHotstuff.State.CHotstuff → Cons
  hotstuff2 : Hotstuff2.State.Hotstuff2 → Cons
  pbft : Pbft.State.Pbft → Cons

pub record Orderer : Type 0 where
  pub cons : Cons
  pub handle_state : Bool  -- consensus messages are accepted
  pub req_state : Bool  -- requests are accepted

-- common.ConsensusType
abbrev pub ConsensusType : Type 0
ConsensusType = Text

-- What the protocols take from outside, with the public key of the SM2 signer.
pub record Env : Type 0 where
  pub hs : BasicHotstuff.State.Env
  pub pb : Pbft.State.Env
  pub pk : Bytes

-- The signer that a server is started with; the wrong one makes InitConsensus panic.
pub data Signer : Type 0 where
  tss : Signer
  sm2 : Signer

new_cons : Env → ConsensusType → ℤ → ℕ → Signer → Option Cons
unfolding text_eq BasicHotstuff.State.new_bc_hotstuff ChainedHotstuff.State.new_chained_hotstuff
    Hotstuff2.State.new_hotstuff2 Pbft.State.new_pbft
new_cons env kind id node_num tss =
    let h = env.hs.sum_sm3 in
    if text_eq kind (codes "basic")
    then some (basic (BasicHotstuff.State.new_bc_hotstuff h 5000 id node_num true))
    else if text_eq kind (codes "chained")
    then some (chained (ChainedHotstuff.State.new_chained_hotstuff h 2000 id node_num true))
    else if text_eq kind (codes "hotstuff2")
    then some (hotstuff2 (Hotstuff2.State.new_hotstuff2 500 2000 id node_num true))
    else none
new_cons env kind id node_num sm2 =
    if text_eq kind (codes "pbft")
    then some (pbft (Pbft.State.new_pbft env.pb.sum_sm3 10000 id node_num true))
    else none

-- IsLeader
unfoldable pub is_leader : Cons → Bool
unfolding BasicHotstuff.Rules.is_leader ChainedHotstuff.Rules.is_leader Hotstuff2.State.is_leader
    Pbft.State.is_leader
is_leader (basic s) = BasicHotstuff.Rules.is_leader s
is_leader (chained s) = ChainedHotstuff.Rules.is_leader s
is_leader (hotstuff2 s) = Hotstuff2.State.is_leader s
is_leader (pbft s) = Pbft.State.is_leader s

-- InitLeader
unfoldable pub init_leader : Env → Cons → Cons
unfolding BasicHotstuff.Core.init_leader ChainedHotstuff.Core.init_leader Hotstuff2.Core.init_leader
    Pbft.State.init_leader
init_leader env (basic s) = basic (BasicHotstuff.Core.init_leader env.hs s)
init_leader env (chained s) = chained (ChainedHotstuff.Core.init_leader env.hs s)
init_leader env (hotstuff2 s) = hotstuff2 (Hotstuff2.Core.init_leader s)
init_leader env (pbft s) = pbft (Pbft.State.init_leader s)

-- InitConsensus; `none` is a panic
unfoldable pub init_consensus : Env → ConsensusType → ℤ → ℕ → Signer → Option Orderer
unfolding new_cons is_leader init_leader
init_consensus env kind id node_num signer = elim (new_cons env kind id node_num signer) [
  | none ↦ none
  | some c ↦ some (record {
    cons = if is_leader c then init_leader env c else c;
    handle_state = true;
    req_state = true;
  })
]

-- The view of the protocol in use.
unfoldable pub view_of : Cons → View
view_of (basic s) = s.view
view_of (chained s) = s.view
view_of (hotstuff2 s) = s.view
view_of (pbft s) = s.view

-- IsWaitingReq
unfoldable pub is_waiting_req : Cons → Bool
is_waiting_req (basic s) = s.cur_phase == BasicHotstuff.Types.waiting
is_waiting_req (chained s) = s.cur_phase == BasicHotstuff.Types.waiting
is_waiting_req (hotstuff2 s) = s.cur_phase == Hotstuff2.Types.new_propose
is_waiting_req (pbft s) = s.cur_phase == Pbft.Types.waiting

-- GetLeaderName
unfoldable pub get_leader_name : Cons → Text
unfolding view_of leader_name
get_leader_name c = leader_name (view_of c)
