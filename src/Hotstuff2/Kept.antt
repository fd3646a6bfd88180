-- ===== src/Hotstuff2/Kept.antt =====
-- What a commit of locked blocks leaves as it was, and when it panics.
use dcschain.Base.{
  ℕ, suc, ◌≤◌, ◌<◌, ◌≡◌, refl, ap, ◌⊎◌, inl, inr, if_elim, ◌&&◌, List, [], ◌∷◌, ◌++◌, ◌-◌, Option,
  none, some, arith, ◌==◌, ltb, leb, eq_ℤ, Bool-cases, length, take, drop,
}
use dcschain.Common.Encode.{HsNode}
use dcschain.Blockchain.{Block}
use dcschain.Hotstuff2.Types.{QuromCert}
use dcschain.Hotstuff2.State.{Hotstuff2}
use dcschain.Hotstuff2.Commit.{
  add_validation, add_validation_to_blk, gen_commit_blk_index, slice_from, cut_out, with_locked,
  update_after_commit, store_blocks, write_new_h2_block, commit_locked,
}
use dcschain.Hotstuff2.Range.{Found, gen_commit_blk_index-Found}

-- What a commit does not touch.
abbrev pub Keeps : Hotstuff2 → Hotstuff2 → Type 0
Keeps s t =
    (t.view ≡ s.view)
    × (t.cur_phase ≡ s.cur_phase)
    × (t.cons_id ≡ s.cons_id)
    × (t.proposal_qc ≡ s.proposal_qc)

abbrev Fits : {A : Type 0} → List A → ℕ → Option (List A) → Type 0
Fits xs last none = length xs ≤ last
Fits xs last (some ys) = Unit

slice_from-Fits : {A : Type 0} (xs : List A) (last : ℕ) → Fits xs last (slice_from xs (suc last))
unfolding slice_from
slice_from-Fits xs last = elim (Bool-cases (ltb (length xs) (suc last))) [
  | inl out ↦ rw out (ground arith)
  | inr inside ↦ rw inside tt
]

cut_out-Fits : {A : Type 0} (xs : List A) (start last : ℕ) → Fits xs last (cut_out xs start last)
unfolding cut_out
cut_out-Fits {A = A} xs start last = cut (slice_from xs (suc last)) (slice_from-Fits xs last)
  where
    cut :
        (o : Option (List A))
        → Fits xs last o
        → Fits xs last (elim o [ none ↦ none | some rest ↦ some (take start xs ++ rest) ])
    cut none f = f
    cut (some rest) f = tt

-- A panic is on an index out of range.
abbrev KeepsIn : Hotstuff2 → ℕ → Option Hotstuff2 → Type 0
KeepsIn s last none = (length s.lock_hs2_node ≤ last) ⊎ (length s.lock_blk ≤ last)
KeepsIn s last (some t) = Keeps s t

with_locked-KeepsIn :
    (s : Hotstuff2) (last : ℕ) (ns : Option (List HsNode)) (bs : Option (List Block))
    → Fits s.lock_hs2_node last ns
    → Fits s.lock_blk last bs
    → KeepsIn s last (with_locked ns bs s)
unfolding with_locked
with_locked-KeepsIn s last none bs f g = inl f
with_locked-KeepsIn s last (some ns) none f g = inr g
with_locked-KeepsIn s last (some ns) (some bs) f g = (refl, refl, refl, refl)

update_after_commit-KeepsIn :
    (start last : ℕ) (s : Hotstuff2) → KeepsIn s last (update_after_commit start last s)
unfolding update_after_commit
update_after_commit-KeepsIn start last s =
    let n = length s.lock_hs2_node in
    if_elim (KeepsIn s last) (start == 0 && suc last == n) (refl, refl, refl, refl)
      (if_elim (KeepsIn s last) (start == 0 && last == 0) (refl, refl, refl, refl)
        (if_elim (KeepsIn s last) (start == 0)
          (with_locked-KeepsIn s last _ _ (slice_from-Fits s.lock_hs2_node last)
            (slice_from-Fits s.lock_blk last))
          (if_elim (KeepsIn s last) (suc last == n) (refl, refl, refl, refl)
            (with_locked-KeepsIn s last _ _ (cut_out-Fits s.lock_hs2_node start last)
              (cut_out-Fits s.lock_blk start last)))))

-- What a commit gives: a panic only with fewer locked nodes than blocks.
abbrev pub KeepsOr : Hotstuff2 → Option Hotstuff2 → Type 0
KeepsOr s none = length s.lock_hs2_node < length s.lock_blk
KeepsOr s (some t) = Keeps s t

write_new_h2_block-KeepsOr :
    (s : Hotstuff2) (range : Option (ℕ × ℕ))
    → Found s (some range)
    → KeepsOr s (write_new_h2_block range s)
unfolding write_new_h2_block
write_new_h2_block-KeepsOr s none f = (refl, refl, refl, refl)
write_new_h2_block-KeepsOr s (some (start, last)) f =
    elim (Bool-cases (leb (length s.lock_blk) last)) [
      | inl out ↦ absurd (let l = f.0.0 in ground arith)
      | inr inside ↦ rw inside (
          updated (update_after_commit start last t) (update_after_commit-KeepsIn start last t)
            f.0.0)
    ]
  where
    t : Hotstuff2
    t = record s {
      blk_store = store_blocks (take (suc last - start) (drop start s.lock_blk)) s.blk_store;
    }

    updated :
        (o : Option Hotstuff2)
        → KeepsIn t last o
        → last < length s.lock_blk
        → KeepsOr s (elim o [
          | none ↦ none
          | some u ↦ some (record u {
            cur_proposal = record (u.cur_proposal) { pre_blk_hash = u.blk_store.pre_blk_hash };
          })
        ])
    updated none (inl few) l = omega arith
    updated none (inr few) l = absurd (omega arith)
    updated (some u) k l = k

pub length-add_validation :
    (q : QuromCert) (bs : List Block) → length (add_validation q bs) ≡ length bs
unfolding add_validation
length-add_validation q [] = refl
length-add_validation q (b ∷ bs) = elim (Bool-cases (eq_ℤ b.blk_hdr.view_number q.view_number)) [
  | inl here ↦ rw here refl
  | inr other ↦ rw other (ap suc (length-add_validation q bs))
]

-- Storing and removing the locked blocks that a certificate commits keeps the view, the phase and the
-- single certificate; it panics only with fewer locked nodes than blocks.
pub commit_locked-KeepsOr : (q : QuromCert) (s : Hotstuff2) → KeepsOr s (commit_locked q s)
unfolding commit_locked add_validation_to_blk
commit_locked-KeepsOr q s = ranged (gen_commit_blk_index t) (gen_commit_blk_index-Found t)
  where
    t : Hotstuff2
    t = record s { lock_blk = add_validation q s.lock_blk }

    ranged :
        (o : Option (Option (ℕ × ℕ)))
        → Found t o
        → KeepsOr s (elim o [ none ↦ none | some range ↦ write_new_h2_block range t ])
    ranged none f = omega (arith, f, length-add_validation q s.lock_blk)
    ranged (some range) f = back (write_new_h2_block range t) (write_new_h2_block-KeepsOr t range f)
      where
        back : (o : Option Hotstuff2) → KeepsOr t o → KeepsOr s o
        back none few = omega (arith, few, length-add_validation q s.lock_blk)
        back (some u) k = k
