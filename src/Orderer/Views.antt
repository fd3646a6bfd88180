-- ===== src/Orderer/Views.antt =====
-- A new node takes over the view of another, whatever the protocol.
use dcschain.Base.{ℕ, suc, arith, ◌≡◌, refl, false, [], Option, some, ℤ, ◌==◌, length}
use dcschain.Common.View.{View}
use dcschain.Mgmt.Types.{NodeMgmtMsg}
use dcschain.BasicHotstuff
use dcschain.ChainedHotstuff
use dcschain.Hotstuff2
use dcschain.Pbft
use dcschain.Orderer.State.{Cons, basic, chained, hotstuff2, pbft, Env, view_of}
use dcschain.Orderer.Core.{update_nodes_num}
use dcschain.Orderer.Sync.{
  add_sync_info, sync_info, basic_part, chained_part, hotstuff2_part, pbft_part,
}

-- The two run the same protocol, and `s` has something that a HotStuff-2 replica can take over.
pub data CanSync : Cons → Cons → Type 0 where
  both_basic : {s u : BasicHotstuff.State.BcHotstuff} → CanSync (basic s) (basic u)
  both_chained : {s u : ChainedHotstuff.State.CHotstuff} → CanSync (chained s) (chained u)
  both_hotstuff2 :
      {s u : Hotstuff2.State.Hotstuff2}
      → (length s.lock_blk == 0) ≡ false
      → CanSync (hotstuff2 s) (hotstuff2 u)
  both_pbft : {s u : Pbft.State.Pbft} → CanSync (pbft s) (pbft u)

-- The view `v` under the number of the view `w` and the given leader.
abbrev pub taken_view : View → View → ℤ → View
taken_view v w leader = record v { view_number = w.view_number; leader = leader }

abbrev pub TakesView : Cons → View → ℤ → Option Cons → Type 0
TakesView u w leader o = (t : Cons) × (o ≡ some t) × (view_of t ≡ taken_view (view_of u) w leader)

-- SyncInfo on what AddSyncInfo wrote to a message without blocks and nodes: a replica of the same
-- protocol takes the number of the writer's view and the given leader, and keeps its number of nodes.
-- In HotStuff-2 the writer has to have a locked block.
pub sync_info-TakesView :
    (env : Env) (m : NodeMgmtMsg) {s u : Cons} (leader : ℤ)
    → m.block ≡ []
    → m.hs_nodes ≡ []
    → CanSync s u
    → TakesView u (view_of s) leader (sync_info (add_sync_info env s m) leader u)
unfolding sync_info add_sync_info basic_part chained_part hotstuff2_part pbft_part view_of
    Hotstuff2.Core.sync_info Hotstuff2.Core.add_sync_info Hotstuff2.Handlers.new_round
sync_info-TakesView env m leader b n (both_basic {s} {u}) =
    let (t, e, synced) = BasicHotstuff.Sync.sync_info_taken s u (basic_part m) leader b n in
    rw e (basic t, refl, synced.view_taken)
sync_info-TakesView env m leader b n (both_chained {s} {u}) =
    let synced = (ChainedHotstuff.Sync.sync_info-add_sync_info s u (chained_part m) leader).0 b n in
    (_, refl, synced.view_taken)
sync_info-TakesView env m leader b n (both_hotstuff2 {s} {u} locked) =
    let some_node : (suc (length s.lock_hs2_node) == 0) ≡ false = ground arith in
    rw (b, n, locked, some_node) (_, refl, refl)
sync_info-TakesView env m leader b n (both_pbft {s} {u}) =
    let (t, e, same, low, seq, phase, log) =
      Pbft.Sync.sync_info_low_byte env.pk s u (pbft_part m) leader b n in
    rw e (pbft t, refl, same)

-- AddSyncInfo writes the leader of the view, and leaves the types and names of the message.
pub add_sync_info_leader :
    (env : Env) (m : NodeMgmtMsg) (c : Cons) → (add_sync_info env c m).leader ≡ (view_of c).leader
unfolding add_sync_info view_of
add_sync_info_leader env m (basic s) = refl
add_sync_info_leader env m (chained s) = refl
add_sync_info_leader env m (hotstuff2 s) = refl
add_sync_info_leader env m (pbft s) = refl

pub update_nodes_num-CanSync : (n : ℕ) {s u : Cons} → CanSync s u → CanSync s (update_nodes_num n u)
unfolding update_nodes_num
update_nodes_num-CanSync n both_basic = both_basic
update_nodes_num-CanSync n both_chained = both_chained
update_nodes_num-CanSync n (both_hotstuff2 locked) = both_hotstuff2 locked
update_nodes_num-CanSync n both_pbft = both_pbft

pub view-update_nodes_num :
    (n : ℕ) (c : Cons) → view_of (update_nodes_num n c) ≡ record (view_of c) { nodes_num = n }
unfolding update_nodes_num view_of
view-update_nodes_num n (basic s) = refl
view-update_nodes_num n (chained s) = refl
view-update_nodes_num n (hotstuff2 s) = refl
view-update_nodes_num n (pbft s) = refl
