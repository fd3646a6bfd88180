-- ===== src/Common/Encode.antt =====
-- orderer/common/encode.go and hotstuff_node.go: conversions of slices.
use dcschain.Base.{
  ℕ, List, [], ◌∷◌, ◌++◌, map, none, some, length, take, ltb, ◌==◌, if◌then◌else◌, Slice, Bytes,
  Text, elems,
}

-- A nil row converts to the empty string.
unfoldable pub two_dim_byte_slice_to_string_slice : Slice Bytes → List Text
two_dim_byte_slice_to_string_slice rows = map (λ r. elems r) (elems rows)

unfoldable pub string_slice_to_two_dim_byte_slice : List Text → Slice Bytes
string_slice_to_two_dim_byte_slice ts = some (map (λ t. some t) ts)

concat_rows : List Bytes → List ℕ
concat_rows [] = []
concat_rows (r ∷ rs) = elems r ++ concat_rows rs

unfoldable pub two_dim_byte_slice_to_one_dim : Slice Bytes → Bytes
unfolding concat_rows
two_dim_byte_slice_to_one_dim rows = some (concat_rows (elems rows))

unfoldable pub string_slice_to_one_dim : List Text → Bytes
unfolding two_dim_byte_slice_to_one_dim string_slice_to_two_dim_byte_slice
string_slice_to_one_dim ts = two_dim_byte_slice_to_one_dim (string_slice_to_two_dim_byte_slice ts)

cut_row : ℕ → Bytes → Bytes
cut_row n r = if ltb (length (elems r)) n then r else some (take n (elems r))

-- The result of the loop is a slice that `append` has grown, so it is nil for no rows.
cut_rows : ℕ → List Bytes → Slice Bytes
unfolding cut_row
cut_rows n [] = none
cut_rows n (r ∷ rs) = some (map (cut_row n) (r ∷ rs))

unfoldable pub cut_off_two_dim_byte_slice : Slice Bytes → ℕ → Slice Bytes
unfolding cut_rows
cut_off_two_dim_byte_slice rows n = if n == 0 then some [] else cut_rows n (elems rows)

-- HsNode of hotstuff_node.go
pub record HsNode : Type 0 where
  pub cur_hash : Bytes  -- hash of the current block
  pub parent_hash : Bytes  -- hash of the previous block

abbrev pub empty_hs_node : HsNode
empty_hs_node = record { cur_hash = none; parent_hash = none }

-- `append(h.CurHash, h.ParentHash...)`, whose bytes are what callers read
unfoldable pub object_to_byte : HsNode → List ℕ
object_to_byte h = elems h.cur_hash ++ elems h.parent_hash
