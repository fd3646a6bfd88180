-- ===== src/Hotstuff2/Handlers/ViewChange.antt =====
-- core/view_change.go: the wish messages after a timeout.
use dcschain.Base.{
  ◌+◌, true, not, [], ◌∷◌, ◌++◌, Option, none, some, ℤ, pos, ◌+ℤ◌, ◌==◌, if◌then◌else◌, elems,
  length,
}
use dcschain.Crypto.Tss.{threshold_sign}
use dcschain.Quorum.{threshold}
use dcschain.BasicHotstuff.Types.{broadcast}
use dcschain.BasicHotstuff.State.{Env}
use dcschain.BasicHotstuff.Rules.{or_nil}
use dcschain.Hotstuff2.Types.{wish, tc_msg, H2Msg, empty_h2_msg, message_to_byte}
use dcschain.Hotstuff2.State.{
  Hotstuff2, WishMap, set_wish, send_ser_msg, get_node_name, get_next_leader_name,
}
use dcschain.Hotstuff2.Rules.{combine_sign}

-- A handler's result, with the message that it returns.
abbrev pub HStep : Type 0
HStep = Hotstuff2 × Option H2Msg

-- What a wish for the view `v` signs, and the certificate of a timeout verifies.
abbrev pub wish_for : ℤ → H2Msg
wish_for v = record empty_h2_msg { m_type = wish; view_number = v }

unfoldable pub wish_msg : Env → Hotstuff2 → H2Msg
unfolding or_nil message_to_byte ◌+ℤ◌ get_node_name get_next_leader_name
wish_msg env s =
    let m = record (wish_for (s.view.view_number +ℤ pos 1)) {
      send_node = get_node_name s;
      reci_node = get_next_leader_name s;
    } in
    record m { cons_sign = or_nil (threshold_sign env.signer (message_to_byte m)) }

-- A message into both channels, where they are there.
unfoldable pub send_both : H2Msg → Hotstuff2 → Hotstuff2
unfolding send_ser_msg
send_both m s =
    let t = if s.has_forward_chan then record s { forwarded = s.forwarded ++ (m ∷ []) } else s in
    if t.has_send_chan then send_ser_msg m t else t

-- StartViewChange, which the view timer's expiry runs
unfoldable pub start_view_change : Env → Hotstuff2 → Hotstuff2
unfolding wish_msg send_both
start_view_change env s =
    send_both (wish_msg env s) (record s { pm = record (s.pm) { wish_send_flag = true } })

-- The wishes with one more of them.
unfoldable pub log_wish : H2Msg → WishMap → WishMap
unfolding set_wish
log_wish m w = set_wish m.view_number (some (elems (w m.view_number) ++ (m ∷ []))) w

abbrev pub with_wishes : WishMap → Hotstuff2 → Hotstuff2
with_wishes w s = record s { pm = record (s.pm) { wish_msgs = w } }

unfoldable pub handle_wish : Env → H2Msg → Hotstuff2 → HStep
unfolding log_wish combine_sign set_wish
handle_wish env m s =
    let v = m.view_number in
    let w = log_wish m s.pm.wish_msgs in
    if not (length (elems (w v)) == threshold s.view.nodes_num + 1)
    then (with_wishes w s, none)
    else (
      with_wishes (set_wish v none w) s,
      some (record empty_h2_msg {
        m_type = tc_msg;
        view_number = v;
        reci_node = broadcast;
        cons_sign = combine_sign env.signer (elems (w v)) (wish_for v);
      }),
    )
