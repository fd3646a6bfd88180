-- ===== src/Blockchain/Defs.antt =====
-- The types and operations of common/blockchain/block.go.
use dcschain.Base.{
  ℕ, Bool, List, [], ◌∷◌, ◌++◌, Option, none, some, if◌then◌else◌, ℤ, pos, ◌+ℤ◌, eq_ℤ, to_byte,
  Bytes, Text, elems, length, ◌==◌,
}
use dcschain.Crypto.Merkle.{sum, empty_hash, hash_from_byte_slices}
use dcschain.Common.Encode.{string_slice_to_two_dim_byte_slice, string_slice_to_one_dim}

pub record BlockHeader : Type 0 where
  pub height : ℤ
  pub view_number : ℤ
  pub time_stamp : ℤ
  pub pre_blk_hash : Bytes
  pub root_hash : Bytes
  pub validation : Bytes
  pub blk_data_hash : Bytes

pub record BlockData : Type 0 where
  pub height : ℤ
  pub root_hash : Bytes
  pub trans : List Text

pub record Block : Type 0 where
  pub blk_hdr : BlockHeader
  pub blk_data : BlockData

abbrev pub empty_header : BlockHeader
empty_header = record {
  height = pos 0;
  view_number = pos 0;
  time_stamp = pos 0;
  pre_blk_hash = none;
  root_hash = none;
  validation = none;
  blk_data_hash = none;
}

abbrev pub empty_block : Block
empty_block = record {
  blk_hdr = empty_header;
  blk_data = record { height = pos 0; root_hash = none; trans = [] };
}

-- The files of the directory: a block by the height that its name spells.
abbrev pub Files : Type 0
Files = List (ℤ × Block)

unfoldable pub write_file : ℤ → Block → Files → Files
write_file h b [] = (h, b) ∷ []
write_file h b ((k, c) ∷ fs) = if eq_ℤ k h then (h, b) ∷ fs else (k, c) ∷ write_file h b fs

-- ReadBlock; `none` is its panic on a missing file
unfoldable pub read_block : ℤ → Files → Option Block
read_block h [] = none
read_block h ((k, c) ∷ fs) = if eq_ℤ k h then some c else read_block h fs

pub record BlockStore : Type 0 where
  pub height : ℤ
  pub generated_height : ℤ
  pub pre_blk_hash : Bytes
  pub cur_blk_hash : Bytes
  pub cur_proposal_blk : Block
  pub files : Files

-- (*Block).IsEmpty
unfoldable pub is_empty : Block → Bool
is_empty b = length b.blk_data.trans == 0

-- WriteBlock, where the file system takes the write
unfoldable pub write_block : BlockStore → Block → BlockStore
unfolding write_file ◌+ℤ◌
write_block bs blk = record bs {
  files = write_file blk.blk_hdr.height blk bs.files;
  height = bs.height +ℤ pos 1;
}

-- What the operating system answers to one round of the loop of StoreBlock.
pub data Answer : Type 0 where
  missing : Answer  -- the directory is not there, and is made
  stat_failed : Answer
  write_failed : Answer
  written : Answer

-- The lines of StoreBlock after the loop.
close_store : BlockStore → BlockStore
close_store bs = record bs { pre_blk_hash = bs.cur_blk_hash; cur_blk_hash = none }

-- StoreBlock over the answers that it meets; `none` while it is still looping.
unfoldable pub store_loop : List Answer → BlockStore → Block → Option BlockStore
unfolding write_block close_store
store_loop [] bs blk = none
store_loop (written ∷ answers) bs blk = some (close_store (write_block bs blk))
store_loop (missing ∷ answers) bs blk = store_loop answers bs blk
store_loop (stat_failed ∷ answers) bs blk = store_loop answers bs blk
store_loop (write_failed ∷ answers) bs blk = store_loop answers bs blk

-- StoreBlock, once its write has been taken
unfoldable pub store_block : BlockStore → Block → BlockStore
unfolding write_block close_store
store_block bs blk = close_store (write_block bs blk)

module _ (sum_sm3 : List ℕ → List ℕ) where
  unfoldable pub data_hash : BlockData → Bytes
  unfolding sum string_slice_to_one_dim
  data_hash bd =
      sum sum_sm3
        (to_byte bd.height ∷ (elems bd.root_hash ++ elems (string_slice_to_one_dim bd.trans)))

  -- (*Block).Hash; the validation is not hashed
  unfoldable pub hash : Block → Bytes
  unfolding sum string_slice_to_one_dim
  hash b =
      let h = b.blk_hdr in
      sum sum_sm3 (
        to_byte h.height
        ∷ to_byte h.view_number
        ∷ to_byte h.time_stamp
        ∷ (elems h.pre_blk_hash
            ++ (elems h.root_hash
                ++ (elems h.blk_data_hash
                    ++ (to_byte b.blk_data.height
                        ∷ (elems h.root_hash
                            ++ elems (string_slice_to_one_dim b.blk_data.trans)))))))

  new_height : BlockStore → List ℤ → ℤ
  new_height bs [] = bs.height
  new_height bs (h ∷ hs) = h

  new_generated : BlockStore → List ℤ → ℤ
  new_generated bs [] = bs.generated_height
  new_generated bs (h ∷ hs) = bs.generated_height +ℤ pos 1

  -- The block that GenNewBlock assembles, its data hash included.
  gen_block : ℤ → ℤ → List Text → ℤ → Bytes → Block
  unfolding data_hash hash_from_byte_slices string_slice_to_two_dim_byte_slice
  gen_block now view_number commands height pre =
      let root =
        hash_from_byte_slices sum_sm3 (elems (string_slice_to_two_dim_byte_slice commands)) in
      let body : BlockData = record { height = height; root_hash = root; trans = commands } in
      record {
        blk_data = body;
        blk_hdr = record {
          height = height;
          view_number = view_number;
          time_stamp = now;
          pre_blk_hash = pre;
          root_hash = root;
          validation = none;
          blk_data_hash = data_hash body;
        };
      }

  -- GenNewBlock at the time `now`, in milliseconds; `heights` are its variadic arguments
  unfoldable pub gen_new_block : ℤ → ℤ → List Text → List ℤ → BlockStore → BlockStore
  unfolding gen_block hash new_height new_generated ◌+ℤ◌
  gen_new_block now view_number commands heights bs =
      let blk = gen_block now view_number commands (new_height bs heights) bs.pre_blk_hash in
      record bs {
        generated_height = new_generated bs heights;
        cur_proposal_blk = blk;
        cur_blk_hash = hash blk;
      }

  unfoldable pub gen_empty_block : BlockStore → BlockStore
  unfolding empty_hash
  gen_empty_block bs = record bs {
    cur_proposal_blk = empty_block;
    cur_blk_hash = empty_hash sum_sm3;
  }
