-- ===== src/Hotstuff2/Sync.antt =====
-- Synchronisation of one HotStuff-2 replica from another.
use dcschain.Base.{
  suc, ◌<◌, ◌≡◌, refl, ◌∙◌, ap, pos, ◌↔◌, false, [], ◌∷◌, ◌++◌, arith, ℤ, ◌==◌, length,
  length-append,
}
use dcschain.Hotstuff2.Types.{empty_cert}
use dcschain.Hotstuff2.State.{Hotstuff2}
use dcschain.Hotstuff2.Core.{SyncMsg, add_sync_info, sync_info}
use dcschain.Hotstuff2.Handlers.{new_round}
use dcschain.Hotstuff2.Aligned.{IsAligned}

-- A message of the node manager before AddSyncInfo.
abbrev pub blank : SyncMsg
blank = record {
  view_number = pos 0;
  leader = pos 0;
  hs_nodes = [];
  h2_justify = empty_cert;
  block = [];
}

-- A replica that takes over the state of one with locked blocks has the prepare certificate and view
-- of that one and the given leader, and the locked blocks of both; but its locked nodes are the
-- current node of the other and then the locked nodes of it.
pub sync_info-takes :
    (s u : Hotstuff2) (leader : ℤ)
    → (length s.lock_blk == 0) ≡ false
    → let t = sync_info (add_sync_info s blank) leader u in
      (t.prepare_qc ≡ s.prepare_qc)
      × (t.view.view_number ≡ s.view.view_number)
      × (t.view.leader ≡ leader)
      × (t.lock_blk ≡ u.lock_blk ++ s.lock_blk)
      × (t.lock_hs2_node ≡ s.cur_hs2_node ∷ s.lock_hs2_node)
unfolding sync_info add_sync_info new_round
sync_info-takes s u leader locked =
    let some_node : (suc (length s.lock_hs2_node) == 0) ≡ false = ground arith in
    rw (locked, some_node) (refl, refl, refl, refl, refl)

-- So after a synchronisation from a replica with a locked node for each of its locked blocks, of which
-- there are some, there is one for each exactly if the replica had one locked block before.
pub sync_info-IsAligned :
    (s u : Hotstuff2) (leader : ℤ)
    → 0 < length s.lock_blk
    → IsAligned s
    → IsAligned (sync_info (add_sync_info s blank) leader u) ↔ (length u.lock_blk ≡ 1)
sync_info-IsAligned s u leader locked h =
    let (qc, view, led, blks, nodes) = sync_info-takes s u leader (ground arith) in
    let count = ap length blks ∙ length-append u.lock_blk s.lock_blk in
    let nodes_count = ap length nodes in
    (
      (λ a. omega (arith, count, nodes_count, a, h)),
      (λ one. omega (arith, count, nodes_count, one, h)),
    )
