-- ===== src/BasicHotstuff/Votes/Record.antt =====
-- Lists of sent messages in which a replica has voted at most once for each view.
use mathlib.Core.Path.{subst}
use dcschain.Base.{◌≡◌, refl, sym, ◌⊎◌, inl, inr, ◌≢◌, List, [], ◌∷◌, ◌++◌, arith, ℤ, ◌<ℤ◌, ◌≤ℤ◌}
use dcschain.BasicHotstuff.Types.{StateType, new_view, prepare_vote}
use dcschain.BasicHotstuff.State.{ServerMsg}

-- Membership in what was sent.
abbrev pub In : {A : Type 0} → A → List A → Type 0
In a [] = ⊥
In a (x ∷ xs) = (a ≡ x) ⊎ In a xs

In-snoc : {A : Type 0} (a b : A) (xs : List A) → In a (xs ++ (b ∷ [])) → In a xs ⊎ (a ≡ b)
In-snoc a b [] (inl e) = inr e
In-snoc a b [] (inr h) = elim h [ ]
In-snoc a b (x ∷ xs) (inl e) = inl (inl e)
In-snoc a b (x ∷ xs) (inr h) = elim (In-snoc a b xs h) [ inl i ↦ inl (inr i) | inr e ↦ inr e ]

-- What holds of the elements of a list and of one more, holds of them together.
Each-snoc :
    {A : Type 0} (P : A → Type 0) (b : A) (xs : List A)
    → ((a : A) → In a xs → P a)
    → P b
    → (a : A) → In a (xs ++ (b ∷ []))
    → P a
Each-snoc P b xs each pb a i = elim (In-snoc a b xs i) [
  | inl j ↦ each a j
  | inr e ↦ subst P (sym e) pb
]

abbrev pub IsVote : ServerMsg → Type 0
IsVote e = e.payload.m_type ≡ prepare_vote

abbrev pub view_of : ServerMsg → ℤ
view_of e = e.payload.view_number

-- All votes are of views before `v`.
abbrev pub Before : ℤ → List ServerMsg → Type 0
Before v sent = (e : ServerMsg) → In e sent → IsVote e → view_of e <ℤ v

-- Of what a replica in view `v` and phase `p` has sent: the votes are of views up to `v`, of
-- earlier views only if the new-view phase is not over, and no two of them differ within a view.
pub record IsOnceVoted (v : ℤ) (p : StateType) (sent : List ServerMsg) : Type 0 where
  pub bounded : (e : ServerMsg) → In e sent → IsVote e → view_of e ≤ℤ v
  pub fresh : p ≡ new_view → Before v sent
  pub unique :
      (d e : ServerMsg)
      → In d sent
      → In e sent
      → IsVote d
      → IsVote e
      → view_of d ≡ view_of e
      → d ≡ e

pub IsOnceVoted-advance :
    (v w : ℤ) (p q : StateType) (sent : List ServerMsg)
    → IsOnceVoted v p sent
    → (v ≡ w) ⊎ (v <ℤ w)
    → (q ≡ new_view → (p ≡ new_view) ⊎ (v <ℤ w))
    → IsOnceVoted w q sent
IsOnceVoted-advance v w p q sent h grows left = record {
  bounded = λ e i k. ground (arith, h.bounded e i k);
  fresh = λ z e i k. elim (left z) [
    | inl same ↦ let old = h.fresh same e i k in ground arith
    | inr later ↦ let old = h.bounded e i k in omega arith
  ];
  unique = h.unique;
}

pub IsOnceVoted-other :
    (v : ℤ) (p : StateType) (sent : List ServerMsg) (m : ServerMsg)
    → IsOnceVoted v p sent
    → ¬ IsVote m
    → IsOnceVoted v p (sent ++ (m ∷ []))
IsOnceVoted-other v p sent m h n = record {
  bounded = Each-snoc (λ e. IsVote e → view_of e ≤ℤ v) m sent h.bounded (λ k. absurd (n k));
  fresh = λ z. Each-snoc (λ e. IsVote e → view_of e <ℤ v) m sent (h.fresh z) (λ k. absurd (n k));
  unique = λ d e i j k l same.
      Each-snoc (λ d. IsVote d → view_of d ≡ view_of e → d ≡ e) m sent
        (λ d i k same.
          Each-snoc (λ e. IsVote e → view_of d ≡ view_of e → d ≡ e) m sent
            (λ e j l same. h.unique d e i j k l same) (λ l. absurd (n l)) e j l same)
        (λ k. absurd (n k)) d i k same;
}

pub IsOnceVoted-vote :
    (v : ℤ) (p : StateType) (sent : List ServerMsg) (m : ServerMsg)
    → IsOnceVoted v new_view sent
    → p ≢ new_view
    → view_of m ≡ v
    → IsOnceVoted v p (sent ++ (m ∷ []))
IsOnceVoted-vote v p sent m h n now = record {
  bounded = Each-snoc (λ e. IsVote e → view_of e ≤ℤ v) m sent h.bounded (λ k. ground arith);
  fresh = λ z. absurd (n z);
  unique = λ d e i j k l same.
      Each-snoc (λ d. IsVote d → view_of d ≡ view_of e → d ≡ e) m sent
        (λ d i k same.
          Each-snoc (λ e. IsVote e → view_of d ≡ view_of e → d ≡ e) m sent
            (λ e j l same. h.unique d e i j k l same) (λ l same. old d i k same) e j l same)
        (λ k same.
          Each-snoc (λ e. IsVote e → view_of m ≡ view_of e → m ≡ e) m sent
            (λ e j l same. sym (old e j l (sym same))) (λ l same. refl) e j l same)
        d i k same;
}
  where
    old : (d : ServerMsg) → In d sent → IsVote d → view_of d ≡ view_of m → d ≡ m
    old d i k same = let less = h.fresh refl d i k in absurd (ground arith)
