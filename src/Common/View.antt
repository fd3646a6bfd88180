-- ===== src/Common/View.antt =====
-- orderer/common/view.go. NodesNum counts nodes, so it is a natural number; Leader may be -1
-- after a synchronisation, and Go's `%` keeps that sign. A view has at least one node: the functions
-- here that take a remainder by NodesNum are those of the code for 0 < NodesNum only. With no node Go
-- panics in them, which is outside the model.
use dcschain.Base.{
  ℕ, zero, suc, ◌+◌, ◌-◌, refl, ◌∙◌, arith, +ℤ_parts, eq_of_parts, ◌≡◌, ℤ, pos, ◌+ℤ◌, ◌-ℤ◌, ◌%ℤ◌,
  Text, ◌≤ℤ◌, ◌<ℤ◌, int_laws, pos_part, neg_part,
}
use dcschain.Common.Name.{node_name}

pub record View : Type 0 where
  pub view_number : ℤ  -- the consensus at which view
  pub leader : ℤ  -- the leader's number
  pub nodes_num : ℕ  -- the number of nodes that take part

-- NextView, with at least one node.
unfoldable pub next_view : View → View
next_view v = record v {
  view_number = v.view_number +ℤ pos 1;
  leader = (v.leader +ℤ pos 1) %ℤ v.nodes_num;
}

-- NextLeader, with at least one node.
unfoldable pub next_leader : View → View
next_leader v = record v { leader = (v.leader +ℤ pos 1) %ℤ v.nodes_num }

-- RefreshLeader, with at least one node.
unfoldable pub refresh_leader : View → View
refresh_leader v = record v { leader = v.leader %ℤ v.nodes_num }

unfoldable pub update_view : ℤ → ℤ → View → View
update_view n l v = record v { view_number = n; leader = l }

unfoldable pub update_nodes_num : ℕ → View → View
update_nodes_num n v = record v { nodes_num = n }

unfoldable pub leader_name : View → Text
leader_name v = node_name v.leader

-- NextLeaderName, with at least one node.
unfoldable pub next_leader_name : View → Text
next_leader_name v = node_name ((v.leader +ℤ pos 1) %ℤ v.nodes_num)

-- LastLeaderName, with at least one node.
unfoldable pub last_leader_name : View → Text
last_leader_name v = node_name ((v.leader +ℤ pos v.nodes_num -ℤ pos 1) %ℤ v.nodes_num)

-- A leader that is one of the nodes.
abbrev pub IsLed : View → Type 0
IsLed v = (pos 0 ≤ℤ v.leader) × (v.leader <ℤ pos v.nodes_num)

unfoldable pub next_views : ℕ → View → View
unfolding next_view
next_views zero v = v
next_views (suc n) v = next_views n (next_view v)

-- The loop `for v.ViewNumber < n { v.NextView() }`: each round adds one to the view.
unfoldable pub catch_up_view : ℤ → View → View
unfolding next_views
catch_up_view n v =
    let now = v.view_number in
    next_views ((pos_part n + neg_part now) - (pos_part now + neg_part n)) v

next_views_number : (k : ℕ) (v : View) → (next_views k v).view_number ≡ v.view_number +ℤ pos k
unfolding next_views next_view
next_views_number zero v =
    omega (
      int_laws,
      +ℤ_parts v.view_number (pos 0),
      eq_of_parts (v.view_number) (v.view_number +ℤ pos 0),
    )
next_views_number (suc k) v =
    next_views_number k (next_view v)
    ∙ eq_of_parts _ _ (
        omega (
          arith,
          +ℤ_parts v.view_number (pos 1),
          +ℤ_parts (v.view_number +ℤ pos 1) (pos k),
          +ℤ_parts v.view_number (pos (suc k)),
        ))

-- The loop ends in the view `n`, and does nothing where the view is there or further.
pub catch_up_view_lem :
    (n : ℤ) (v : View)
    → (v.view_number ≤ℤ n → (catch_up_view n v).view_number ≡ n)
      × (n ≤ℤ v.view_number → catch_up_view n v ≡ v)
unfolding catch_up_view
catch_up_view_lem n v =
    let now = v.view_number in
    let k = (pos_part n + neg_part now) - (pos_part now + neg_part n) in
    (
      (λ h. next_views_number k v ∙ eq_of_parts _ _ (omega (arith, +ℤ_parts now (pos k)))),
      (λ h. let none_left : k ≡ 0 = omega arith in rw none_left (unfold next_views in refl)),
    )

pub next_view-lt : (v : View) → v.view_number <ℤ (next_view v).view_number
unfolding next_view
next_view-lt v = omega (int_laws, +ℤ_parts_one v.view_number)
  where
    +ℤ_parts_one :
        (a : ℤ) → pos_part (a +ℤ pos 1) + neg_part a ≡ neg_part (a +ℤ pos 1) + pos_part a + 1
    +ℤ_parts_one a = omega int_laws
