-- ===== src/Blockchain/Store.antt =====
-- The store after StoreBlock.
use dcschain.Base.{
  ◌≡◌, refl, List, [], ◌∷◌, ◌++◌, none, some, arith, if◌then◌else◌, ℤ, pos, ◌+ℤ◌, eq_ℤ,
}
use dcschain.Blockchain.Defs.{
  Block, Files, write_file, read_block, BlockStore, Answer, missing, stat_failed, write_failed,
  written, store_loop, store_block,
}

pub read_block-write_file :
    (h k : ℤ) (b : Block) (fs : Files)
    → read_block k (write_file h b fs) ≡ (if eq_ℤ h k then some b else read_block k fs)
unfolding read_block write_file
read_block-write_file h k b [] = refl
read_block-write_file h k b ((j, c) ∷ fs) = ground (arith, read_block-write_file h k b fs)

-- StoreBlock files the block under its height, leaves the other heights alone, counts one more
-- block, and moves the hash of the current block to that of the previous one.
pub store_block_lem :
    (bs : BlockStore) (blk : Block) (k : ℤ)
    → (read_block k (store_block bs blk).files
        ≡ (if eq_ℤ blk.blk_hdr.height k then some blk else read_block k bs.files))
      × ((store_block bs blk).height ≡ bs.height +ℤ pos 1)
      × ((store_block bs blk).pre_blk_hash ≡ bs.cur_blk_hash)
      × ((store_block bs blk).cur_blk_hash ≡ none)
unfolding store_block
store_block_lem bs blk k =
    (read_block-write_file blk.blk_hdr.height k blk bs.files, refl, refl, refl)

-- Whatever failures the loop of StoreBlock meets, what it returns is the block stored once.
store_loop_sound :
    (answers : List Answer) (bs : BlockStore) (blk : Block) {r : BlockStore}
    → store_loop answers bs blk ≡ some r
    → r ≡ store_block bs blk
unfolding store_loop store_block
store_loop_sound [] bs blk e = cc
store_loop_sound (missing ∷ answers) bs blk e = store_loop_sound answers bs blk e
store_loop_sound (stat_failed ∷ answers) bs blk e = store_loop_sound answers bs blk e
store_loop_sound (write_failed ∷ answers) bs blk e = store_loop_sound answers bs blk e
store_loop_sound (written ∷ answers) bs blk e = cc

-- StoreBlock returns at the first write that is taken, whatever failures came before it.
store_loop_returns :
    (failures rest : List Answer) (bs : BlockStore) (blk : Block)
    → store_loop (failures ++ (written ∷ rest)) bs blk ≡ some (store_block bs blk)
unfolding store_loop store_block
store_loop_returns [] rest bs blk = refl
store_loop_returns (missing ∷ failures) rest bs blk = store_loop_returns failures rest bs blk
store_loop_returns (stat_failed ∷ failures) rest bs blk = store_loop_returns failures rest bs blk
store_loop_returns (write_failed ∷ failures) rest bs blk = store_loop_returns failures rest bs blk
store_loop_returns (written ∷ failures) rest bs blk = refl
