-- ===== src/Server/Send.antt =====
-- core/server/local_send.go and network/local/local_utils.go: how a server sends a message. A send
-- on a nil channel blocks for ever; inboxes are taken to have room.
use dcschain.Base.{
  ℕ, List, [], ◌∷◌, ◌++◌, Option, none, some, Text, Table, find, text_eq, if◌then◌else◌,
}
use dcschain.BasicHotstuff.Types.{broadcast, client}
use dcschain.Mgmt.Types.{Chan, NodeMgmtMsg}
use dcschain.Mgmt.Handlers.{gossip, chan_of}
use dcschain.Server.Outcome.{Outcome, done, blocks, panics, ◌>>=◌}
use dcschain.Server.State.{Env, Sent, to_inbox, to_client, Server, ServerMsg, nodemgmt}

-- Fixedcast
unfoldable pub fixedcast : Chan → List ℕ → Outcome (List Sent)
fixedcast none json = blocks
fixedcast (some c) json = done (to_inbox c json ∷ [])

-- Unicast
unfoldable pub unicast : Table Chan → List ℕ → Text → Outcome (List Sent)
unfolding fixedcast find
unicast chans json reci = fixedcast (chan_of (find reci chans)) json

-- Gossip, to all but `self`
unfoldable pub gossip_to : Table Chan → List ℕ → Text → Outcome (List Sent)
unfolding fixedcast
gossip_to [] json self = done []
gossip_to ((k, c) ∷ t) json self =
    let rest = gossip_to t json self in
    if text_eq k self then rest else do x ← fixedcast c json; y ← rest; done (x ++ y)

-- Broadcast
unfoldable pub broadcast_to : Table Chan → List ℕ → Outcome (List Sent)
unfolding fixedcast
broadcast_to [] json = done []
broadcast_to ((k, c) ∷ t) json = do x ← fixedcast c json; y ← broadcast_to t json; done (x ++ y)

-- The `switch` of SendMsg on the receiver, for a message that has been signed and encoded.
unfoldable pub route_out : ServerMsg → List ℕ → Server → Outcome (List Sent)
unfolding unicast gossip_to broadcast_to fixedcast
route_out m json s =
    let nm = s.node_manager in
    if text_eq m.reci_server broadcast
    then broadcast_to nm.nodes_channel json
    else if text_eq m.reci_server gossip
    then gossip_to nm.nodes_channel json m.send_server
    else if text_eq m.reci_server client
    then done (to_client json ∷ [])
    else if text_eq m.reci_server nm.new_node.name
    then fixedcast nm.new_node.chan json
    else unicast nm.nodes_channel json m.reci_server

-- SendMsg; a message that cannot be signed or encoded is dropped
unfoldable pub send_msg : Env → ServerMsg → Server → Outcome Server
unfolding route_out
send_msg env m s = elim (env.sm2_sign (env.sum_sm3 m.payload)) [
  | none ↦ done s
  | some sig ↦ elim (env.of_server (record m { sign = sig })) [
    | none ↦ done s
    | some json ↦ do out ← route_out m json s; done (record s { sent = s.sent ++ out })
  ]
]

-- `go s.SendMsg`: a goroutine that blocks holds nobody up.
unfoldable pub go_send_msg : Env → ServerMsg → Server → Server
unfolding send_msg
go_send_msg env m s = elim (send_msg env m s) [ done t ↦ t | blocks ↦ s | panics ↦ s ]

-- The message that carries one of the node manager; one that json refuses is not sent.
abbrev pub packed : Server → NodeMgmtMsg → List ℕ → ServerMsg
packed s r json = record {
  s_type = nodemgmt;
  send_server = s.name;
  reci_server = r.reci_node;
  sign = none;
  payload = json;
}

unfoldable pub mgmt_msg : Env → NodeMgmtMsg → Server → Option ServerMsg
mgmt_msg env r s = elim (env.of_mgmt r) [ none ↦ none | some json ↦ some (packed s r json) ]

unfoldable pub go_send_mgmt : Env → NodeMgmtMsg → Server → Server
unfolding mgmt_msg go_send_msg
go_send_mgmt env r s = elim (mgmt_msg env r s) [ none ↦ s | some m ↦ go_send_msg env m s ]

unfoldable pub send_mgmt : Env → NodeMgmtMsg → Server → Outcome Server
unfolding mgmt_msg send_msg
send_mgmt env r s = elim (mgmt_msg env r s) [ none ↦ done s | some m ↦ send_msg env m s ]
