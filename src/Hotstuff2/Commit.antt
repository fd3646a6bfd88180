-- ===== src/Hotstuff2/Commit.antt =====
-- core/hotstuff_2.go and vote1_commit.go: the locked blocks, which of them a double certificate
-- commits, and their removal. Where an index is out of range the result is `none`.
use dcschain.Base.{
  ℕ, zero, suc, ◌-◌, List, [], ◌∷◌, ◌++◌, Option, none, some, ℤ, ◌==◌, eq_ℤ, ltb, leb, ◌&&◌,
  if◌then◌else◌, bytes_equal, get_elem?, length, take, drop,
}
use dcschain.Common.Encode.{HsNode}
use dcschain.Blockchain.{Block, BlockStore, store_block}
use dcschain.Hotstuff2.Types.{QuromCert}
use dcschain.Hotstuff2.State.{Hotstuff2}

-- AddValidation2Blk
unfoldable pub add_validation : QuromCert → List Block → List Block
add_validation q [] = []
add_validation q (b ∷ bs) =
    if eq_ℤ b.blk_hdr.view_number q.view_number
    then record b { blk_hdr = record (b.blk_hdr) { validation = q.sign } } ∷ bs
    else b ∷ add_validation q bs

unfoldable pub add_validation_to_blk : QuromCert → Hotstuff2 → Hotstuff2
unfolding add_validation
add_validation_to_blk q s = record s { lock_blk = add_validation q s.lock_blk }

-- The first loop of GenCommitBlkIndex: the first block of the view `v`.
unfoldable pub end_index : ℤ → List Block → Option ℕ
end_index v [] = none
end_index v (b ∷ bs) =
    let rest = end_index v bs in
    if eq_ℤ b.blk_hdr.view_number v
    then some 0
    else elim rest [ none ↦ none | some i ↦ some (suc i) ]

-- The second loop: the start of the chain of nodes that ends at index `i`.
unfoldable pub start_index : List HsNode → ℕ → Option ℕ
start_index nodes zero = some 0
start_index nodes (suc i) =
    let rest = start_index nodes i in
    elim (get_elem? nodes i) [
      | none ↦ none
      | some a ↦ elim (get_elem? nodes (suc i)) [
        | none ↦ none
        | some b ↦ if bytes_equal a.cur_hash b.parent_hash then rest else some (suc i)
      ]
    ]

-- GenCommitBlkIndex: the outer `none` is a panic, the inner one the pair (-1, -1).
unfoldable pub gen_commit_blk_index : Hotstuff2 → Option (Option (ℕ × ℕ))
unfolding end_index start_index
gen_commit_blk_index s = elim (end_index s.prepare_qc.view_number s.lock_blk) [
  | none ↦ some none
  | some last ↦ elim (start_index s.lock_hs2_node last) [
    | none ↦ none
    | some start ↦ some (some (start, last))
  ]
]

-- Go's `xs[k:]`
unfoldable pub slice_from : {A : Type 0} → List A → ℕ → Option (List A)
slice_from xs k = if ltb (length xs) k then none else some (drop k xs)

-- `append(xs[:start], xs[last+1:]...)`, for start ≤ last
unfoldable pub cut_out : {A : Type 0} → List A → ℕ → ℕ → Option (List A)
unfolding slice_from
cut_out xs start last = elim (slice_from xs (suc last)) [
  | none ↦ none
  | some rest ↦ some (take start xs ++ rest)
]

unfoldable pub with_locked :
    Option (List HsNode) → Option (List Block) → Hotstuff2 → Option Hotstuff2
with_locked none bs s = none
with_locked (some ns) none s = none
with_locked (some ns) (some bs) s = some (record s { lock_hs2_node = ns; lock_blk = bs })

-- UpdateAfterCommit on indices that are not negative
unfoldable pub update_after_commit : ℕ → ℕ → Hotstuff2 → Option Hotstuff2
unfolding slice_from cut_out with_locked
update_after_commit start last s =
    let n = length s.lock_hs2_node in
    if start == 0 && suc last == n
    then some (record s { lock_hs2_node = []; lock_blk = [] })
    else if start == 0 && last == 0
    then some s
    else if start == 0
    then with_locked (slice_from s.lock_hs2_node (suc last)) (slice_from s.lock_blk (suc last)) s
    else if suc last == n
    then some
        (record s { lock_hs2_node = take start s.lock_hs2_node; lock_blk = take start s.lock_blk })
    else with_locked (cut_out s.lock_hs2_node start last) (cut_out s.lock_blk start last) s

unfoldable pub store_blocks : List Block → BlockStore → BlockStore
unfolding store_block
store_blocks [] bs = bs
store_blocks (b ∷ blks) bs = store_blocks blks (store_block bs b)

-- WriteNewH2Block on the pair of GenCommitBlkIndex
unfoldable pub write_new_h2_block : Option (ℕ × ℕ) → Hotstuff2 → Option Hotstuff2
unfolding store_blocks update_after_commit
write_new_h2_block none s = some s
write_new_h2_block (some (start, last)) s =
    let blks = take (suc last - start) (drop start s.lock_blk) in
    if leb (length s.lock_blk) last
    then none
    else elim (update_after_commit start last
        (record s { blk_store = store_blocks blks s.blk_store })) [
          | none ↦ none
          | some t ↦ some (record t {
            cur_proposal = record (t.cur_proposal) { pre_blk_hash = t.blk_store.pre_blk_hash };
          })
        ]

-- `WriteNewH2Block(GenCommitBlkIndex())`, under the certificate `q` that validates its block
unfoldable pub commit_locked : QuromCert → Hotstuff2 → Option Hotstuff2
unfolding add_validation_to_blk gen_commit_blk_index write_new_h2_block
commit_locked q s =
    let t = add_validation_to_blk q s in
    elim (gen_commit_blk_index t) [ none ↦ none | some range ↦ write_new_h2_block range t ]
