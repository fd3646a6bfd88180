-- ===== src/Hotstuff2/Range.antt =====
-- Which locked blocks a double certificate commits (GenCommitBlkIndex).
use native.Mathlib.Decide.{dec_lt}
use dcschain.Base.{
  ℕ, zero, suc, ◌≤◌, ◌<◌, ◌≡◌, refl, sym, ◌∙◌, ap, ◌≢◌, ◌⊎◌, inl, inr, Bool, true, false, List, [],
  ◌∷◌, Option, none, some, arith, ℤ, eq_ℤ, eq_ℤ_iff, Bool-cases, Option-cases, bytes_equal,
  get_elem?, length,
}
use dcschain.Common.Encode.{HsNode}
use dcschain.Blockchain.{Block}
use dcschain.Hotstuff2.State.{Hotstuff2}
use dcschain.Hotstuff2.Commit.{end_index, start_index, gen_commit_blk_index}

-- What the first loop finds.
abbrev pub FirstOf : ℤ → List Block → Option ℕ → Type 0
FirstOf v bs none = (j : ℕ) (b : Block) → get_elem? bs j ≡ some b → b.blk_hdr.view_number ≢ v
FirstOf v bs (some i) =
    (i < length bs)
    × ((b : Block) × (get_elem? bs i ≡ some b) × (b.blk_hdr.view_number ≡ v))
    × ((j : ℕ) (b : Block) → j < i → get_elem? bs j ≡ some b → b.blk_hdr.view_number ≢ v)

not_eq : (a b : ℤ) → eq_ℤ a b ≡ false → a ≢ b
not_eq a b h e = let k : false ≡ true = sym h ∙ (eq_ℤ_iff a b).1 e in cc

none_found : {A : Type 0} {a : A} → none ≢ some a
none_found e = cc

some_same : {a b : Block} → some a ≡ some b → a ≡ b
some_same e = cc

end_index-FirstOf : (v : ℤ) (bs : List Block) → FirstOf v bs (end_index v bs)
unfolding end_index
end_index-FirstOf v [] = λ j b h. absurd (none_found h)
end_index-FirstOf v (b ∷ bs) = elim (Bool-cases (eq_ℤ b.blk_hdr.view_number v)) [
  | inl here ↦ rw here (
    omega arith,
    (b, refl, (eq_ℤ_iff b.blk_hdr.view_number v).0 here),
    λ j c l. absurd (omega arith),
  )
  | inr other ↦
      rw other
        (later (not_eq b.blk_hdr.view_number v other) (end_index v bs) (end_index-FirstOf v bs))
]
  where
    later :
        b.blk_hdr.view_number ≢ v
        → (o : Option ℕ) → FirstOf v bs o
        → FirstOf v (b ∷ bs) (elim o [ none ↦ none | some i ↦ some (suc i) ])
    later other none f = at
      where
        at : (j : ℕ) (c : Block) → get_elem? (b ∷ bs) j ≡ some c → c.blk_hdr.view_number ≢ v
        at zero c e = λ k. other (ap (λ (d : Block). d.blk_hdr.view_number) (some_same e) ∙ k)
        at (suc j) c e = f j c e
    later other (some i) (l, found, before) = (omega arith, found, at)
      where
        at :
            (j : ℕ) (c : Block)
            → j < suc i
            → get_elem? (b ∷ bs) j ≡ some c
            → c.blk_hdr.view_number ≢ v
        at zero c m e = λ k. other (ap (λ (d : Block). d.blk_hdr.view_number) (some_same e) ∙ k)
        at (suc j) c m e = before j c (omega arith) e

get_elem?-none : {A : Type 0} (xs : List A) (i : ℕ) → get_elem? xs i ≡ none → length xs ≤ i
get_elem?-none [] i h = omega arith
get_elem?-none (x ∷ xs) zero h = absurd (none_found (sym h))
get_elem?-none (x ∷ xs) (suc i) h = omega (arith, get_elem?-none xs i h)

-- Whether the node at `i` is the parent of the next one, where both are there.
abbrev pub IsLink : Bool → List HsNode → ℕ → Type 0
IsLink linked ns i =
    (a : HsNode) × (b : HsNode) × (get_elem? ns i ≡ some a)
    × (get_elem? ns (suc i) ≡ some b)
    × (bytes_equal a.cur_hash b.parent_hash ≡ linked)

-- A longest chain of nodes from `start` up to `last`.
abbrev pub IsChain : List HsNode → ℕ → ℕ → Type 0
IsChain ns start last =
    (start ≤ last)
    × ((i : ℕ) → start ≤ i → i < last → IsLink true ns i)
    × ((start ≡ 0) ⊎ ((i : ℕ) × (start ≡ suc i) × IsLink false ns i))

abbrev pub ChainTo : List HsNode → ℕ → Option ℕ → Type 0
ChainTo ns last none = length ns ≤ last
ChainTo ns last (some start) = IsChain ns start last

start_index-ChainTo : (ns : List HsNode) (last : ℕ) → ChainTo ns last (start_index ns last)
unfolding start_index
start_index-ChainTo ns zero = (omega arith, (λ i l g. absurd (omega arith)), inl refl)
start_index-ChainTo ns (suc k) = elim (Option-cases (get_elem? ns k)) [
  | inl out ↦ rw (start_index, out) (omega (arith, get_elem?-none ns k out))
  | inr (a, ea) ↦ elim (Option-cases (get_elem? ns (suc k))) [
    | inl out ↦ rw (start_index, ea, out) (get_elem?-none ns (suc k) out)
    | inr (b, eb) ↦ elim (Bool-cases (bytes_equal a.cur_hash b.parent_hash)) [
      | inl linked ↦
          rw (start_index, ea, eb, linked)
            (extend (a, b, ea, eb, linked) (start_index ns k) (start_index-ChainTo ns k))
      | inr broken ↦
          rw (start_index, ea, eb, broken)
            (omega arith, (λ i l g. absurd (omega arith)), inr (k, refl, (a, b, ea, eb, broken)))
    ]
  ]
]
  where
    extend : IsLink true ns k → (o : Option ℕ) → ChainTo ns k o → ChainTo ns (suc k) o
    extend link none short = omega arith
    extend link (some start) (l, links, first) = (omega arith, at, first)
      where
        at : (i : ℕ) → start ≤ i → i < suc k → IsLink true ns i
        at i g m = elim (dec_lt i k) [
          | yes inside ↦ links i g inside
          | no last ↦ let e : i ≡ k = omega arith in rw e link
        ]

-- What GenCommitBlkIndex finds.
abbrev pub Found : Hotstuff2 → Option (Option (ℕ × ℕ)) → Type 0
Found s none = length s.lock_hs2_node < length s.lock_blk
Found s (some none) = FirstOf s.prepare_qc.view_number s.lock_blk none
Found s (some (some (start, last))) =
    FirstOf s.prepare_qc.view_number s.lock_blk (some last) × IsChain s.lock_hs2_node start last

-- GenCommitBlkIndex panics only if there are fewer locked nodes than blocks. Otherwise it finds no
-- range exactly if no locked block is of the view of the prepare certificate; the range that it finds
-- ends in the first such block, and starts where the chain of nodes that leads to it starts.
pub gen_commit_blk_index-Found : (s : Hotstuff2) → Found s (gen_commit_blk_index s)
unfolding gen_commit_blk_index
gen_commit_blk_index-Found s =
    found (end_index s.prepare_qc.view_number s.lock_blk)
      (end_index-FirstOf s.prepare_qc.view_number s.lock_blk)
  where
    started :
        (last : ℕ)
        → FirstOf s.prepare_qc.view_number s.lock_blk (some last)
        → (o : Option ℕ) → ChainTo s.lock_hs2_node last o
        → Found s (elim o [ none ↦ none | some start ↦ some (some (start, last)) ])
    started last f none c = omega (arith, f.0, c)
    started last f (some start) c = (f, c)

    found :
        (o : Option ℕ)
        → FirstOf s.prepare_qc.view_number s.lock_blk o
        → Found s (elim o [
          | none ↦ some none
          | some last ↦ elim (start_index s.lock_hs2_node last) [
            | none ↦ none
            | some start ↦ some (some (start, last))
          ]
        ])
    found none f = f
    found (some last) f =
        started last f (start_index s.lock_hs2_node last) (start_index-ChainTo s.lock_hs2_node last)
