-- ===== src/BasicHotstuff/Sync.antt =====
-- core/basic_hotstuff.go: AddSyncInfo and SyncInfo, by which a replica takes over from another.
use dcschain.Base.{◌≡◌, ◌∙◌, refl, eq_ℤ_iff, List, [], ◌∷◌, ◌++◌, Option, none, some, ℤ, ◌+ℤ◌, pos}
use dcschain.Common.View
use dcschain.Common.Encode.{HsNode}
use dcschain.Blockchain.{Block, store_block, BlockStore, read_block, store_block_lem}
use dcschain.BasicHotstuff.Types.{Qc}
use dcschain.BasicHotstuff.State.{BcHotstuff}
use dcschain.BasicHotstuff.Handlers.{new_round}

-- What the two write to and read from mgmt.NodeMgmtMsg.
pub record SyncMsg : Type 0 where
  pub view_number : ℤ
  pub leader : ℤ
  pub hs_nodes : List HsNode
  pub justify : Qc
  pub block : List Block

-- AddSyncInfo
unfoldable pub add_sync_info : BcHotstuff → SyncMsg → SyncMsg
add_sync_info s m = record {
  view_number = s.view.view_number;
  block = m.block ++ (s.blk_store.cur_proposal_blk ∷ []);
  hs_nodes = m.hs_nodes ++ (s.hs_node ∷ []);
  justify = s.prepare_qc;
  leader = s.view.leader;
}

-- SyncInfo, where the message has a first block and a first node.
take_sync_info : SyncMsg → ℤ → Block → HsNode → BcHotstuff → BcHotstuff
unfolding new_round View.update_view store_block
take_sync_info m leader b n s =
    let t = new_round (record s {
      prepare_qc = m.justify;
      hs_node = n;
      blk_store =
          store_block (record (s.blk_store) { cur_proposal_blk = b; height = b.blk_data.height }) b;
    }) in
    record t { view = View.update_view m.view_number leader t.view }

-- SyncInfo; `none` is its panic on a message without a block or a node
unfoldable pub sync_info : SyncMsg → ℤ → BcHotstuff → Option BcHotstuff
unfolding take_sync_info
sync_info m leader s = elim m.block [
  | [] ↦ none
  | b ∷ bs ↦ elim m.hs_nodes [ [] ↦ none | n ∷ ns ↦ some (take_sync_info m leader b n s) ]
]

-- A replica `t` after it has taken over, from a replica `s`, the view under a given leader, the
-- prepare certificate, the node and the block in hand, which it has filed and counted as one above
-- its height.
pub record IsSynced (s u t : BcHotstuff) (leader : ℤ) : Type 0 where
  pub qc_taken : t.prepare_qc ≡ s.prepare_qc
  pub node_taken : t.hs_node ≡ s.hs_node
  pub view_taken : t.view ≡ record (u.view) { view_number = s.view.view_number; leader = leader }
  pub block_taken :
      read_block s.blk_store.cur_proposal_blk.blk_hdr.height t.blk_store.files
      ≡ some s.blk_store.cur_proposal_blk
  pub height_taken : t.blk_store.height ≡ s.blk_store.cur_proposal_blk.blk_data.height +ℤ pos 1
  pub lock_kept : t.locked_qc ≡ u.locked_qc

filed :
    (b : Block) (bs : BlockStore) → read_block b.blk_hdr.height (store_block bs b).files ≡ some b
filed b bs =
    (store_block_lem bs b b.blk_hdr.height).0
    ∙ rw ((eq_ℤ_iff b.blk_hdr.height b.blk_hdr.height).1 refl) refl

-- SyncInfo on a message that held no block and no node before AddSyncInfo wrote to it does not panic,
-- and the replica then has what the writer had, its own lock apart.
pub sync_info_taken :
    (s u : BcHotstuff) (m : SyncMsg) (leader : ℤ)
    → m.block ≡ []
    → m.hs_nodes ≡ []
    → (t : BcHotstuff) × (sync_info (add_sync_info s m) leader u ≡ some t) × IsSynced s u t leader
unfolding sync_info add_sync_info take_sync_info new_round View.update_view store_block
sync_info_taken s u m leader b n =
    rw (b, n)
      (
        take_sync_info (add_sync_info s m) leader s.blk_store.cur_proposal_blk s.hs_node u,
        refl,
        record {
          qc_taken = refl;
          node_taken = refl;
          view_taken = refl;
          block_taken = filed s.blk_store.cur_proposal_blk (record (u.blk_store) {
            height = s.blk_store.cur_proposal_blk.blk_data.height;
            cur_proposal_blk = s.blk_store.cur_proposal_blk;
          });
          height_taken = refl;
          lock_kept = refl;
        },
      )
