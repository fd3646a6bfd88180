-- ===== src/ChainedHotstuff/Sync.antt =====
-- Synchronisation of one replica of the chained protocol from another.
use dcschain.Base.{◌≡◌, refl, ◌≢◌, [], ◌∷◌, ◌++◌, none, ℤ, List, ap}
use dcschain.Blockchain.{Block}
use dcschain.ChainedHotstuff.State.{CHotstuff}
use dcschain.ChainedHotstuff.Core.{SyncMsg, add_sync_info, as_four, take_sync_info, sync_info}

-- Four elements after others are not four.
as_four-after :
    {A : Type 0} (a b c d e : A) (xs : List A) → as_four (a ∷ (xs ++ (b ∷ c ∷ d ∷ e ∷ []))) ≡ none
unfolding as_four
as_four-after a b c d e [] = refl
as_four-after a b c d e (x ∷ []) = refl
as_four-after a b c d e (x ∷ y ∷ []) = refl
as_four-after a b c d e (x ∷ y ∷ z ∷ []) = refl
as_four-after a b c d e (x ∷ y ∷ z ∷ w ∷ xs) = refl

-- What the synchronisation of a replica `u` from a replica `s` is to give.
pub record IsSynced (s u t : CHotstuff) (leader : ℤ) : Type 0 where
  pub blocks_taken : t.blocks ≡ s.blocks
  pub nodes_taken : t.hs_nodes ≡ s.hs_nodes
  pub qc_taken : t.generic_qc ≡ s.generic_qc
  pub view_taken : t.view ≡ record (u.view) { view_number = s.view.view_number; leader = leader }
  pub cleared : (t.new_view_msgs ≡ []) × (t.generic_vote_msgs ≡ [])
  pub own_kept :
      (t.cons_id ≡ u.cons_id)
      × (t.locked_qc ≡ u.locked_qc)
      × (t.blk_store ≡ u.blk_store)
      × (t.cur_phase ≡ u.cur_phase)

-- SyncInfo on a message that AddSyncInfo has written to: if the message held no blocks and no nodes
-- before, the replica takes the writer's blocks, nodes, certificate and view number, and the given
-- leader, and drops its new-view messages and votes, while its lock, its store and its phase stay. If
-- the message held a block before, the replica stays as it was.
pub sync_info-add_sync_info :
    (s u : CHotstuff) (m : SyncMsg) (leader : ℤ)
    → (m.block ≡ []
        → m.hs_nodes ≡ []
        → IsSynced s u (sync_info (add_sync_info s m) leader u) leader)
      × (m.block ≢ [] → sync_info (add_sync_info s m) leader u ≡ u)
unfolding sync_info add_sync_info take_sync_info as_four
sync_info-add_sync_info s u m leader = ((λ b n. rw (b, n) synced), others m.block)
  where
    synced :
        IsSynced s u
          (sync_info (add_sync_info s (record m { block = []; hs_nodes = [] })) leader u)
          leader
    synced = record {
      blocks_taken = refl;
      nodes_taken = refl;
      qc_taken = refl;
      view_taken = refl;
      cleared = (refl, refl);
      own_kept = (refl, refl, refl, refl);
    }

    others :
        (bs : List Block)
        → bs ≢ []
        → sync_info (add_sync_info s (record m { block = bs })) leader u ≡ u
    others [] h = absurd (h refl)
    others (b ∷ bs) h =
        ap
          (λ o.
            take_sync_info (add_sync_info s m) leader o (as_four (add_sync_info s m).hs_nodes) u)
          (as_four-after b s.blocks.at0 s.blocks.at1 s.blocks.at2 s.blocks.at3 bs)
