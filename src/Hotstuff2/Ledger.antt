-- ===== src/Hotstuff2/Ledger.antt =====
-- A commit of locked blocks against an abstract ledger, which is a map from heights to blocks.
use mathlib.Core.Path.{subst}
use dcschain.Base.{
  ℕ, suc, ◌-◌, ◌≤◌, ◌<◌, ◌≡◌, refl, sym, ◌∙◌, ap, ◌⊎◌, inl, inr, Bool, false, ◌&&◌, not, List, [],
  ◌∷◌, Option, none, some, arith, ◌==◌, leb, ℤ, eq_ℤ, if◌then◌else◌, Bool-cases, length, take, drop,
}
use dcschain.Blockchain.{Block, BlockStore, read_block, store_block, store_block_lem}
use dcschain.Hotstuff2.Types.{QuromCert}
use dcschain.Hotstuff2.State.{Hotstuff2}
use dcschain.Hotstuff2.Commit.{
  add_validation, add_validation_to_blk, gen_commit_blk_index, update_after_commit, store_blocks,
  write_new_h2_block, commit_locked,
}
use dcschain.Hotstuff2.Range.{Found, FirstOf, IsChain, gen_commit_blk_index-Found}
use dcschain.Hotstuff2.Removal.{without, removed, update_after_commit-removed}
use dcschain.Hotstuff2.Kept.{length-add_validation}

abbrev pub Ledger : Type 0
Ledger = ℤ → Option Block

-- The ledger with blocks entered in order, each at its height.
abbrev pub entered : List Block → Ledger → Ledger
entered [] l = l
entered (b ∷ bs) l = entered bs (λ k. if eq_ℤ b.blk_hdr.height k then some b else l k)

-- The ledger that a store holds.
abbrev pub ledger : BlockStore → Ledger
ledger bs = λ k. read_block k bs.files

entered-same :
    (blks : List Block) (l m : Ledger)
    → ((k : ℤ) → l k ≡ m k)
    → (k : ℤ) → entered blks l k ≡ entered blks m k
entered-same [] l m h = h
entered-same (b ∷ blks) l m h =
    entered-same blks _ _ (λ k. ap (λ o. if eq_ℤ b.blk_hdr.height k then some b else o) (h k))

store_blocks-entered :
    (blks : List Block) (bs : BlockStore) (k : ℤ)
    → ledger (store_blocks blks bs) k ≡ entered blks (ledger bs) k
unfolding store_blocks
store_blocks-entered [] bs k = refl
store_blocks-entered (b ∷ blks) bs k =
    store_blocks-entered blks (store_block bs b) k
    ∙ entered-same blks (ledger (store_block bs b)) _ (λ j. (store_block_lem bs b j).0) k

-- The locked blocks from `start` to `last`.
abbrev pub range : ℕ → ℕ → List Block → List Block
range start last bs = take (suc last - start) (drop start bs)

-- Whether UpdateAfterCommit leaves the locked blocks as they are: it does where the first block alone
-- of several is committed.
abbrev pub stays : ℕ → ℕ → Hotstuff2 → Bool
stays start last s = (start == 0 && last == 0) && not (length s.lock_blk == 1)

-- A commit of the locked blocks from `start` to `last`.
abbrev pub Committed : ℕ → ℕ → Hotstuff2 → Hotstuff2 → Type 0
Committed start last s t =
    ((k : ℤ) → ledger t.blk_store k ≡ entered (range start last s.lock_blk) (ledger s.blk_store) k)
    × (t.lock_blk ≡ (if stays start last s then s.lock_blk else without start last s.lock_blk))
    × (t.lock_hs2_node
        ≡ (if stays start last s then s.lock_hs2_node else without start last s.lock_hs2_node))
    × (t.cur_proposal.pre_blk_hash ≡ t.blk_store.pre_blk_hash)

-- What a commit gives.
abbrev pub Refines : Hotstuff2 → Option Hotstuff2 → Type 0
Refines s none = ⊥
Refines s (some t) =
    (FirstOf s.prepare_qc.view_number s.lock_blk none × (t ≡ s))
    ⊎ ((start : ℕ) × (last : ℕ) × FirstOf s.prepare_qc.view_number s.lock_blk (some last)
        × IsChain s.lock_hs2_node start last
        × Committed start last s t)

-- The end of WriteNewH2Block.
abbrev renewed : Hotstuff2 → Hotstuff2
renewed s = record s {
  cur_proposal = record (s.cur_proposal) { pre_blk_hash = s.blk_store.pre_blk_hash };
}

write_new_h2_block-updated :
    (start last : ℕ) (s t : Hotstuff2)
    → last < length s.lock_blk
    → update_after_commit start last
        (record s { blk_store = store_blocks (range start last s.lock_blk) s.blk_store })
      ≡ some t
    → write_new_h2_block (some (start, last)) s ≡ some (renewed t)
unfolding write_new_h2_block
write_new_h2_block-updated start last s t inside e =
    let there : leb (length s.lock_blk) last ≡ false = ground arith in
    rw (write_new_h2_block, there, e) refl

write_new_h2_block-Committed :
    (start last : ℕ) (s : Hotstuff2)
    → length s.lock_hs2_node ≡ length s.lock_blk
    → start ≤ last
    → last < length s.lock_blk
    → (t : Hotstuff2) × (write_new_h2_block (some (start, last)) s ≡ some t)
      × Committed start last s t
write_new_h2_block-Committed start last s same order inside =
    elim (Bool-cases (stays start last s)) [
      | inl kept ↦
          let e : update_after_commit start last u ≡ some u =
            after ∙ ap (λ b. some (if b then u else removed start last u)) kept in
          (
            renewed u,
            write_new_h2_block-updated start last s u inside e,
            (stored, rw kept refl, rw kept refl, refl),
          )
      | inr gone ↦
          let e : update_after_commit start last u ≡ some (removed start last u) =
            after ∙ ap (λ b. some (if b then u else removed start last u)) gone in
          (
            renewed (removed start last u),
            write_new_h2_block-updated start last s (removed start last u) inside e,
            (stored, rw gone refl, rw gone refl, refl),
          )
    ]
  where
    u : Hotstuff2
    u = record s { blk_store = store_blocks (range start last s.lock_blk) s.blk_store }

    after :
        update_after_commit start last u
        ≡ some (if stays start last u then u else removed start last u)
    after = update_after_commit-removed start last u same order inside

    stored :
        (k : ℤ)
        → ledger u.blk_store k ≡ entered (range start last s.lock_blk) (ledger s.blk_store) k
    stored = store_blocks-entered (range start last s.lock_blk) s.blk_store

-- With a node for each locked block a commit never panics. It refines the abstract commit on the
-- locked blocks, of which the first one of the certificate's view is signed: if none is of the view of
-- the prepare certificate, nothing else happens; otherwise the blocks from the start of the longest
-- chain that leads to the first such block, up to that block, are entered into the ledger in order,
-- each at its height, and removed from the locked ones, but if the first block alone of several is
-- committed, it stays locked.
pub commit_locked-Refines :
    (q : QuromCert) (s : Hotstuff2)
    → length s.lock_hs2_node ≡ length s.lock_blk
    → Refines (add_validation_to_blk q s) (commit_locked q s)
unfolding commit_locked add_validation_to_blk write_new_h2_block
commit_locked-Refines q s same = ranged (gen_commit_blk_index t) (gen_commit_blk_index-Found t)
  where
    t : Hotstuff2
    t = record s { lock_blk = add_validation q s.lock_blk }

    even : length t.lock_hs2_node ≡ length t.lock_blk
    even = same ∙ sym (length-add_validation q s.lock_blk)

    ranged :
        (o : Option (Option (ℕ × ℕ)))
        → Found t o
        → Refines t (elim o [ none ↦ none | some r ↦ write_new_h2_block r t ])
    ranged none few = omega (arith, few, even)
    ranged (some none) f = inl (f, refl)
    ranged (some (some (start, last))) (first, chain) =
        let (u, e, c) = write_new_h2_block-Committed start last t even chain.0 first.0 in
        subst (Refines t) (sym e) (inr (start, last, first, chain, c))
