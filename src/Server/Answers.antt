-- ===== src/Server/Answers.antt =====
-- What the sync messages of replicas that agree on the view have in common.
use mathlib.Core.Path.{subst}
use dcschain.Base.{
  ℕ, zero, suc, ◌+◌, ◌<◌, ◌≡◌, refl, sym, ap, ◌∙◌, true, List, [], ◌∷◌, some, ℤ, ltb_ℤ, eq_ℤ,
  eq_ℤ_iff, arith, length, get_elem?, All, if◌then◌else◌,
}
use dcschain.Common.View.{View}
use dcschain.Mgmt.Types.{NodeMgmtMsg}
use dcschain.Mgmt.Handlers.{high_qc_loop, get_high_qc_index, leader_count}
use dcschain.Mgmt.Choice.{Among}
use dcschain.Orderer.State.{Env as OrdererEnv, Cons, view_of}
use dcschain.Orderer.Core.{update_nodes_num}
use dcschain.Orderer.Sync.{add_sync_info, sync_info}
use dcschain.Orderer.Views.{
  CanSync, TakesView, sync_info-TakesView, add_sync_info_leader, update_nodes_num-CanSync,
}

-- The index that GetHighQCIndex gives is one of the messages.
high_qc_loop-lt :
    (ms : List NodeMgmtMsg) (i k : ℕ) (bound : ℤ)
    → k < i + length ms
    → high_qc_loop ms i k bound < i + length ms
unfolding high_qc_loop
high_qc_loop-lt [] i k bound h = h
high_qc_loop-lt (m ∷ ms) i k bound h =
    let higher = ltb_ℤ bound m.justify.view_number in
    omega (
      arith,
      high_qc_loop-lt ms (suc i) (if higher then i else k) (if higher then m.view_number else bound)
          (ground arith),
    )

get_elem?-All :
    {A : Type 0} {P : A → Type 0} (xs : List A) (i : ℕ)
    → i < length xs
    → All P xs
    → (x : A) × (get_elem? xs i ≡ some x) × P x
get_elem?-All [] i h all = absurd (omega arith)
get_elem?-All (x ∷ xs) zero h all = (x, refl, all.0)
get_elem?-All (x ∷ xs) (suc i) h all = get_elem?-All xs i (omega arith) all.1

pub chosen :
    {P : NodeMgmtMsg → Type 0} (ms : List NodeMgmtMsg)
    → 0 < length ms
    → All P ms
    → (i : ℕ) × (m : NodeMgmtMsg) × (get_high_qc_index ms ≡ some i)
      × (get_elem? ms i ≡ some m)
      × P m
unfolding get_high_qc_index
chosen [] h all = absurd (omega arith)
chosen (m ∷ ms) h all =
    let low = high_qc_loop-lt (m ∷ ms) 0 0 m.justify.view_number (omega arith) in
    let (x, at, p) = get_elem?-All (m ∷ ms) _ (omega (arith, low)) all in
    (high_qc_loop (m ∷ ms) 0 0 m.justify.view_number, x, refl, at, p)

-- What a replica of the protocol of `u` in the view `w` writes into its answer to a new node.
abbrev pub Answers : View → Cons → NodeMgmtMsg → Type 0
Answers w u m =
    (env : OrdererEnv) × (c : Cons) × (b : NodeMgmtMsg) × (m ≡ add_sync_info env c b)
    × (b.block ≡ [])
    × (b.hs_nodes ≡ [])
    × CanSync c u
    × (view_of c ≡ w)

pub Answers-leader : (w : View) (u : Cons) (m : NodeMgmtMsg) → Answers w u m → m.leader ≡ w.leader
Answers-leader w u m (env, c, b, e, block, nodes, can, at) =
    ap (λ (x : NodeMgmtMsg). x.leader) e
    ∙ add_sync_info_leader env b c
    ∙ ap (λ (v : View). v.leader) at

pub Answers-TakesView :
    (n : ℕ) (w : View) (u : Cons) (m : NodeMgmtMsg)
    → Answers w u m
    → TakesView (update_nodes_num n u) w w.leader (sync_info m w.leader (update_nodes_num n u))
Answers-TakesView n w u m (env, c, b, e, block, nodes, can, at) =
    let taken = sync_info-TakesView env b w.leader block nodes (update_nodes_num-CanSync n can) in
    subst
      (λ x.
        TakesView (update_nodes_num n u) w w.leader (sync_info x w.leader (update_nodes_num n u)))
      (sym e)
      (subst
        (λ v.
          TakesView (update_nodes_num n u) v w.leader
            (sync_info (add_sync_info env c b) w.leader (update_nodes_num n u)))
        at taken)

pub leader_count_all :
    (l : ℤ) (ms : List NodeMgmtMsg) → All (λ m. m.leader ≡ l) ms → leader_count l ms ≡ length ms
unfolding leader_count
leader_count_all l [] h = refl
leader_count_all l (m ∷ ms) h =
    let same : eq_ℤ m.leader l ≡ true = (eq_ℤ_iff m.leader l).1 h.0 in
    rw same (omega (arith, leader_count_all l ms h.1))

pub tried-Among :
    (l : ℤ) (order : List ℤ) (ms : List NodeMgmtMsg)
    → Among l order
    → All (λ m. m.leader ≡ l) ms
    → All (λ m. Among m.leader order) ms
tried-Among l order [] there h = tt
tried-Among l order (m ∷ ms) there h =
    (subst (λ k. Among k order) (sym h.0) there, tried-Among l order ms there h.1)
