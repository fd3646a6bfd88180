-- ===== src/Orderer/Sync.antt =====
-- orderer/core/orderer.go: AddSyncInfo and SyncInfo, by which a new node takes over a state.
use dcschain.Base.{Option, some, ℤ}
use dcschain.Mgmt.Types.{NodeMgmtMsg}
use dcschain.BasicHotstuff
use dcschain.ChainedHotstuff
use dcschain.Hotstuff2
use dcschain.Pbft
use dcschain.Orderer.State.{Cons, basic, chained, hotstuff2, pbft, Env}
use dcschain.Orderer.Core.{under}

-- What each protocol reads of a message of the node manager.
unfoldable pub basic_part : NodeMgmtMsg → BasicHotstuff.Sync.SyncMsg
basic_part m = record {
  view_number = m.view_number;
  leader = m.leader;
  hs_nodes = m.hs_nodes;
  justify = m.justify;
  block = m.block;
}

unfoldable pub chained_part : NodeMgmtMsg → ChainedHotstuff.Core.SyncMsg
chained_part m = record {
  view_number = m.view_number;
  leader = m.leader;
  hs_nodes = m.hs_nodes;
  c_justify = m.c_justify;
  block = m.block;
}

unfoldable pub hotstuff2_part : NodeMgmtMsg → Hotstuff2.Core.SyncMsg
hotstuff2_part m = record {
  view_number = m.view_number;
  leader = m.leader;
  hs_nodes = m.hs_nodes;
  h2_justify = m.h2_justify;
  block = m.block;
}

unfoldable pub pbft_part : NodeMgmtMsg → Pbft.Core.SyncMsg
pbft_part m = record {
  view_number = m.view_number;
  leader = m.leader;
  hs_nodes = m.hs_nodes;
  block = m.block;
}

-- AddSyncInfo
unfoldable pub add_sync_info : Env → Cons → NodeMgmtMsg → NodeMgmtMsg
unfolding basic_part chained_part hotstuff2_part pbft_part BasicHotstuff.Sync.add_sync_info
    ChainedHotstuff.Core.add_sync_info Hotstuff2.Core.add_sync_info Pbft.Core.add_sync_info
add_sync_info env (basic s) m =
    let p = BasicHotstuff.Sync.add_sync_info s (basic_part m) in
    record m {
      view_number = p.view_number;
      leader = p.leader;
      hs_nodes = p.hs_nodes;
      justify = p.justify;
      block = p.block;
    }
add_sync_info env (chained s) m =
    let p = ChainedHotstuff.Core.add_sync_info s (chained_part m) in
    record m {
      view_number = p.view_number;
      leader = p.leader;
      hs_nodes = p.hs_nodes;
      c_justify = p.c_justify;
      block = p.block;
    }
add_sync_info env (hotstuff2 s) m =
    let p = Hotstuff2.Core.add_sync_info s (hotstuff2_part m) in
    record m {
      view_number = p.view_number;
      leader = p.leader;
      hs_nodes = p.hs_nodes;
      h2_justify = p.h2_justify;
      block = p.block;
    }
add_sync_info env (pbft s) m =
    let p = Pbft.Core.add_sync_info env.pk s (pbft_part m) in
    record m {
      view_number = p.view_number;
      leader = p.leader;
      hs_nodes = p.hs_nodes;
      block = p.block;
    }

-- SyncInfo
unfoldable pub sync_info : NodeMgmtMsg → ℤ → Cons → Option Cons
unfolding basic_part chained_part hotstuff2_part pbft_part
sync_info m leader (basic s) =
    under (λ t. basic t) (BasicHotstuff.Sync.sync_info (basic_part m) leader s)
sync_info m leader (chained s) =
    some (chained (ChainedHotstuff.Core.sync_info (chained_part m) leader s))
sync_info m leader (hotstuff2 s) =
    some (hotstuff2 (Hotstuff2.Core.sync_info (hotstuff2_part m) leader s))
sync_info m leader (pbft s) = under (λ t. pbft t) (Pbft.Core.sync_info (pbft_part m) leader s)
