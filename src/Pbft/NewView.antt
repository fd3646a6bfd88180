-- ===== src/Pbft/NewView.antt =====
-- core/view_change.go (HandleViewChangeMsg, GetSeq): the leader of a view opens it. A nested loop over the messages and their PSet that stops or returns at a match
-- is a loop over all the PSets in order.
use dcschain.Base.{
  ℕ, ◌+◌, ◌-◌, zero, suc, Bool, true, false, ◌&&◌, not, List, [], ◌∷◌, ◌++◌, Option, none, some, ℤ,
  pos, negsuc, ◌+ℤ◌, pos_part, neg_part, ltb_ℤ, eq_ℤ, ◌==◌, ltb, if◌then◌else◌, length, map, Bytes,
}
use dcschain.Quorum.{threshold}
use dcschain.BasicHotstuff.Types.{broadcast}
use dcschain.Pbft.Types.{
  new_view, preprepare, Pm, VcMsg, empty_head, PMsgs, nil, cons, PMsg, to_p_msgs,
}
use dcschain.Pbft.Encode.{view_change_to_byte, new_view_to_byte}
use dcschain.Pbft.State.{Env, Pbft, is_leader, catch_up}
use dcschain.Pbft.Log.{log_msg}
use dcschain.Pbft.Commit.{Step, sign_short}

abbrev pub later : ℤ → ℤ → ℤ
later a b = if ltb_ℤ a b then b else a

-- The three loops of GetSeq, from what they have found before.
unfoldable pub max_checkpoint : PMsgs → ℤ → ℤ
max_checkpoint nil s = s
max_checkpoint (cons h ps cs vs os ms) s = max_checkpoint ms (later s h.seq_num)

unfoldable pub max_prepare : List VcMsg → ℤ → ℤ
max_prepare [] s = s
max_prepare (m ∷ ms) s = max_prepare ms (later s m.seq_num)

unfoldable pub max_prepared : List Pm → ℤ → ℤ
unfolding max_prepare
max_prepared [] s = s
max_prepared (pm ∷ pms) s = max_prepared pms (max_prepare pm.prepare_msgs s)

unfoldable pub seq_loop : List PMsg → ℤ → ℤ → ℤ × ℤ
unfolding max_checkpoint max_prepared
seq_loop [] min_s max_s = (min_s, max_s)
seq_loop (m ∷ ms) min_s max_s =
    seq_loop ms (max_checkpoint m.c_set min_s) (max_prepared m.p_set max_s)

has_c_set : PMsg → Bool
has_c_set m = elim m.c_set [ nil ↦ false | cons h ps cs vs os ms ↦ true ]

-- GetSeq over the view-change messages; on none of them it prints the first, and panics
unfoldable pub get_seq : List PMsg → Option (ℤ × ℤ)
unfolding seq_loop has_c_set
get_seq [] = none
get_seq (m ∷ ms) =
    some (if has_c_set m then seq_loop (m ∷ ms) (negsuc 0) (negsuc 0) else (negsuc 0, negsuc 0))

unfoldable pub seqs_from : ℕ → ℤ → List ℤ
unfolding ◌+ℤ◌
seqs_from zero i = []
seqs_from (suc n) i = i ∷ seqs_from n (i +ℤ pos 1)

-- The indices of `for i := a; i < b; i++`.
unfoldable pub seqs : ℤ → ℤ → List ℤ
unfolding seqs_from
seqs a b = seqs_from ((pos_part b + neg_part a) - (pos_part a + neg_part b)) a

unfoldable pub all_p_sets : List PMsg → List Pm
all_p_sets [] = []
all_p_sets (m ∷ ms) = m.p_set ++ all_p_sets ms

-- The test of the loops: a proof for the sequence number `i` with enough prepare messages.
abbrev pub proves_seq : ℕ → ℤ → Pm → Bool
proves_seq t i pm = eq_ℤ pm.pre_prepare_msg.seq_num i && ltb t (length pm.prepare_msgs)

unfoldable pub proved_digest : ℕ → ℤ → List Pm → Bytes
proved_digest t i [] = none
proved_digest t i (pm ∷ pms) =
    if proves_seq t i pm then pm.pre_prepare_msg.digest else proved_digest t i pms

-- The pre-prepare message for the sequence number `i` in the new-view message.
unfoldable pub redo : Env → Pbft → ℤ → PMsg
unfolding proved_digest all_p_sets
redo env p i = sign_short env (record empty_head {
  m_type = preprepare;
  view_number = p.view.view_number;
  seq_num = i;
  digest =
      proved_digest (threshold p.view.nodes_num) i (all_p_sets p.view_change_msgs.new_view_msgs);
})

unfoldable pub o_set_of : Env → Pbft → ℤ × ℤ → List PMsg
unfolding redo seqs ◌+ℤ◌
o_set_of env p r =
    if not (eq_ℤ r.0 (negsuc 0)) && not (eq_ℤ r.1 (negsuc 0))
    then map (λ i. redo env p i) (seqs r.0 (r.1 +ℤ pos 1))
    else []

unfoldable pub new_view_msg : Env → Pbft → ℤ × ℤ → PMsg
unfolding o_set_of new_view_to_byte
new_view_msg env p r =
    let m : PMsg = record {
      head = record empty_head {
        m_type = new_view;
        view_number = p.view.view_number;
        reci_node = broadcast;
      };
      p_set = [];
      c_set = nil;
      v_set = to_p_msgs p.view_change_msgs.new_view_msgs;
      o_set = to_p_msgs (o_set_of env p r);
    } in
    record m { head = record (m.head) { signature = env.sign (new_view_to_byte m) } }

-- HandleViewChangeMsg; `none` is a panic
unfoldable pub handle_view_change_msg : Env → PMsg → Pbft → Option Step
unfolding log_msg catch_up is_leader get_seq new_view_msg view_change_to_byte
handle_view_change_msg env m p =
    let q = log_msg m p in
    let r = catch_up m.head.view_number q in
    if not (env.verify_sign m.head.send_node m.head.signature (view_change_to_byte m))
    then some (p, none)
    else if not (length q.view_change_msgs.new_view_msgs == threshold q.view.nodes_num + 1)
    then some (q, none)
    else if not (is_leader r)
    then some (r, none)
    else elim (get_seq r.view_change_msgs.new_view_msgs) [
      | none ↦ none
      | some s ↦ some (r, some (new_view_msg env r s))
    ]
