-- ===== src/ChainedHotstuff/Handlers/ViewChange.antt =====
-- core/generic.go: StartViewChange, which the expiry of the view timer runs.
use dcschain.Base.{true, [], ◌∷◌, ◌++◌, if◌then◌else◌}
use dcschain.Common.View
use dcschain.Common.Timer.{start}
use dcschain.Crypto.Tss.{threshold_sign}
use dcschain.BasicHotstuff.Types.{new_view}
use dcschain.BasicHotstuff.State.{Env}
use dcschain.BasicHotstuff.Rules.{or_nil}
use dcschain.ChainedHotstuff.Types.{CMsg, empty_c_msg, chained_message_to_byte}
use dcschain.ChainedHotstuff.State.{CHotstuff, send_ser_msg}
use dcschain.ChainedHotstuff.Rules.{get_node_name, get_leader_name}

-- The new-view message, with its signature where signing succeeds.
unfoldable pub view_change_msg : Env → CHotstuff → CMsg
unfolding or_nil chained_message_to_byte
view_change_msg env s =
    let m = record empty_c_msg {
      m_type = new_view;
      justify = s.generic_qc;
      view_number = s.view.view_number;
      send_node = get_node_name s;
      reci_node = get_leader_name s;
    } in
    record m { partial_sig = or_nil (threshold_sign env.signer (chained_message_to_byte m)) }

unfoldable pub forward : CMsg → CHotstuff → CHotstuff
forward m s =
    if s.has_forward_chan
    then record s { view_change_send_flag = true; forwarded = s.forwarded ++ (m ∷ []) }
    else s

unfoldable pub send_view_change : CMsg → CHotstuff → CHotstuff
unfolding send_ser_msg
send_view_change m s = if s.has_send_chan then send_ser_msg m s else s

unfoldable pub start_view_change : Env → CHotstuff → CHotstuff
unfolding view_change_msg forward send_view_change start View.next_view
start_view_change env s =
    let t = record s {
      view = View.next_view s.view;
      cur_phase = new_view;
      view_change_flag = true;
    } in
    let m = view_change_msg env t in
    let u = send_view_change m (forward m t) in record u { view_timer = start u.view_timer }
