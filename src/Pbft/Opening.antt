-- ===== src/Pbft/Opening.antt =====
-- The new-view message of a leader, and the synchronisation of a replica from another.
use dcschain.Base.{
  ℕ, zero, suc, ◌-◌, ◌||◌, pos_part, neg_part, if◌then◌else◌, ◌+◌, ◌≡◌, true, List, [], ◌∷◌, ◌++◌,
  map, Option, none, some, ℤ, pos, eq_ℤ, negsuc, ◌+ℤ◌, length, All,
}
use dcschain.Quorum.{threshold}
use dcschain.Pbft.Types.{preprepare, Head, PMsg, to_p_msgs}
use dcschain.Pbft.Encode.{view_change_to_byte}
use dcschain.Pbft.State.{Env, Pbft, is_leader, catch_up}
use dcschain.Pbft.Commit.{Step}
use dcschain.Pbft.NewView.{get_seq}
use dcschain.Pbft.OSet.{heads}

-- The pre-prepare messages of OSet are of the view `v`.
abbrev pub Redone : ℤ → Head → Type 0
Redone v h = (h.m_type ≡ preprepare) × (h.view_number ≡ v)

-- `n` numbers from `a` on.
abbrev pub count_up : ℤ → ℕ → List ℤ
count_up a zero = []
count_up a (suc n) = a ∷ count_up (a +ℤ pos 1) n

-- All numbers from `a` to `b`, both included; none if one of them is -1, which stands for no number.
abbrev pub from_to : ℤ → ℤ → List ℤ
from_to a b =
    if eq_ℤ a (negsuc 0) || eq_ℤ b (negsuc 0)
    then []
    else count_up a ((pos_part b + neg_part a + 1) - (pos_part a + neg_part b))

-- A new-view message `v`, made by the replica `p` that takes the view-change message `m` and ends as
-- `t`.
pub record Opens (env : Env) (m : PMsg) (p t : Pbft) (v : PMsg) : Type 0 where
  pub signed : env.verify_sign m.head.send_node m.head.signature (view_change_to_byte m) ≡ true
  pub over_threshold : length p.view_change_msgs.new_view_msgs ≡ threshold p.view.nodes_num
  pub leads : is_leader t ≡ true
  pub phase_kept : t.cur_phase ≡ p.cur_phase
  pub entered : t.view ≡ (catch_up m.head.view_number p).view
  pub of_view : v.head.view_number ≡ t.view.view_number
  pub carries : v.v_set ≡ to_p_msgs (p.view_change_msgs.new_view_msgs ++ (m ∷ []))
  pub redone : All (Redone t.view.view_number) (heads v.o_set)
  pub in_order :
      (r : ℤ × ℤ) × (get_seq (p.view_change_msgs.new_view_msgs ++ (m ∷ [])) ≡ some r)
      × (map (λ (h : Head). h.seq_num) (heads v.o_set) ≡ from_to r.0 r.1)

-- What HandleViewChangeMsg gives: no panic, and an answer only as it is to be.
abbrev pub Opening : Env → PMsg → Pbft → Option Step → Type 0
Opening env m p none = ⊥
Opening env m p (some (t, none)) = t.cur_phase ≡ p.cur_phase
Opening env m p (some (t, some v)) = Opens env m p t v

abbrev logged : PMsg → Pbft → Pbft
logged m p = record p {
  view_change_msgs = record (p.view_change_msgs) {
    new_view_msgs = p.view_change_msgs.new_view_msgs ++ (m ∷ []);
  };
}
