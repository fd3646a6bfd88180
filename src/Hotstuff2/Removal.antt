-- ===== src/Hotstuff2/Removal.antt =====
-- The locked blocks after a commit (UpdateAfterCommit, WriteNewH2Block).
use dcschain.Base.{
  ℕ, zero, suc, ◌≤◌, ◌<◌, ◌≡◌, refl, sym, ◌∙◌, ap, inl, inr, true, false, ◌&&◌, not, List, [], ◌∷◌,
  ◌++◌, some, arith, ◌==◌, ==_iff, ltb, if◌then◌else◌, Bool-cases, length, take, drop,
}
use dcschain.Common.Encode.{HsNode}
use dcschain.Blockchain.{Block}
use dcschain.Hotstuff2.State.{Hotstuff2}
use dcschain.Hotstuff2.Commit.{slice_from, cut_out, with_locked, update_after_commit}

-- A list without its elements from `start` to `last`.
abbrev pub without : {A : Type 0} → ℕ → ℕ → List A → List A
without start last xs = take start xs ++ drop (suc last) xs

-- What UpdateAfterCommit is to leave, by its comment.
abbrev pub removed : ℕ → ℕ → Hotstuff2 → Hotstuff2
removed start last s = record s {
  lock_hs2_node = without start last s.lock_hs2_node;
  lock_blk = without start last s.lock_blk;
}

drop_past : {A : Type 0} (k : ℕ) (xs : List A) → length xs ≤ k → drop k xs ≡ []
drop_past zero [] h = refl
drop_past zero (x ∷ xs) h = absurd (omega arith)
drop_past (suc k) [] h = refl
drop_past (suc k) (x ∷ xs) h = drop_past k xs (omega arith)

append_empty : {A : Type 0} (xs : List A) → xs ++ [] ≡ xs
append_empty [] = refl
append_empty (x ∷ xs) = ap (λ ys. x ∷ ys) (append_empty xs)

without_past :
    {A : Type 0} (start last : ℕ) (xs : List A)
    → length xs ≤ suc last
    → without start last xs ≡ take start xs
without_past start last xs h =
    ap (λ ys. take start xs ++ ys) (drop_past (suc last) xs h) ∙ append_empty (take start xs)

slice_from-inside :
    {A : Type 0} (xs : List A) (k : ℕ) → k ≤ length xs → slice_from xs k ≡ some (drop k xs)
unfolding slice_from
slice_from-inside xs k h = let inside : ltb (length xs) k ≡ false = ground arith in rw inside refl

cut_out-inside :
    {A : Type 0} (xs : List A) (start last : ℕ)
    → last < length xs
    → cut_out xs start last ≡ some (without start last xs)
unfolding cut_out
cut_out-inside xs start last h = rw (cut_out, slice_from-inside xs (suc last) (omega arith)) refl

locking :
    (s : Hotstuff2) {ns ms : List HsNode} {bs cs : List Block}
    → ns ≡ ms
    → bs ≡ cs
    → record s { lock_hs2_node = ns; lock_blk = bs }
      ≡ record s { lock_hs2_node = ms; lock_blk = cs }
locking s p q = rw (p, q) refl

front_of :
    {A : Type 0} {start : ℕ} (last : ℕ) (xs : List A)
    → start ≡ 0
    → drop (suc last) xs ≡ without start last xs
front_of last xs z = rw z refl

-- With a node for each locked block, and start ≤ last within them, UpdateAfterCommit removes exactly
-- the blocks and the nodes from start to last, but if start and last are 0 and there is more than one
-- block, it removes nothing.
pub update_after_commit-removed :
    (start last : ℕ) (s : Hotstuff2)
    → length s.lock_hs2_node ≡ length s.lock_blk
    → start ≤ last
    → last < length s.lock_blk
    → update_after_commit start last s
      ≡ some (
          if (start == 0 && last == 0) && not (length s.lock_blk == 1)
          then s
          else removed start last s)
unfolding with_locked update_after_commit
update_after_commit-removed start last s same order inside = elim (Bool-cases (start == 0)) [
  | inl front ↦ elim (Bool-cases (suc last == length s.lock_hs2_node)) [
    | inl whole ↦
        let kept : (last == 0 && not (length s.lock_blk == 1)) ≡ false = ground arith in
        let z = (==_iff start 0).0 front in
        rw (update_after_commit, front, whole, kept)
          (ap some (
            locking s
              (sym (drop_past (suc last) s.lock_hs2_node (ground arith))
                ∙ front_of last s.lock_hs2_node z)
              (sym (drop_past (suc last) s.lock_blk (omega (arith, same, (==_iff _ _).0 whole)))
                ∙ front_of last s.lock_blk z)))
    | inr part ↦ elim (Bool-cases (last == 0)) [
      | inl one ↦
          let several : not (length s.lock_blk == 1) ≡ true = ground arith in
          rw (update_after_commit, front, part, one, several) refl
      | inr more ↦
          let z = (==_iff start 0).0 front in
          rw
            (
              update_after_commit,
              front,
              part,
              more,
              slice_from-inside s.lock_hs2_node (suc last) (omega (arith, same)),
              slice_from-inside s.lock_blk (suc last) (omega arith),
            )
            (ap some (locking s (front_of last s.lock_hs2_node z) (front_of last s.lock_blk z)))
    ]
  ]
  | inr inner ↦ elim (Bool-cases (suc last == length s.lock_hs2_node)) [
    | inl tail ↦
        let full = (==_iff (suc last) (length s.lock_hs2_node)).0 tail in
        rw (update_after_commit, inner, tail)
          (ap some (
            locking s (sym (without_past start last s.lock_hs2_node (omega (arith, full))))
              (sym (without_past start last s.lock_blk (omega (arith, same, full))))))
    | inr middle ↦
        rw
          (
            update_after_commit,
            inner,
            middle,
            cut_out-inside s.lock_hs2_node start last (omega (arith, same)),
            cut_out-inside s.lock_blk start last inside,
          )
          refl
  ]
]
