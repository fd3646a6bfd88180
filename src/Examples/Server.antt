-- ===== src/Examples/Server.antt =====
-- A server of five nodes that runs basic HotStuff, and one that joins.
use dcschain.Base.{
  ℕ, suc, ◌+◌, ◌≤◌, ◌≡◌, refl, ◌<◌, true, false, List, [], ◌∷◌, ◌++◌, map, none, some, ℤ, pos,
  negsuc, arith, codes, text_eq, Text, Bytes, Table, find, has, IsTable, inl, inr,
}
use dcschain.Common.Name.{node_name}
use dcschain.Common.View.{leader_name, next_views}
use dcschain.Quorum.{threshold}
use dcschain.BasicHotstuff.State.{new_bc_hotstuff}
use dcschain.BasicHotstuff.Core.{BcRequest}
use dcschain.BasicHotstuff.Types.{empty_qc}
use dcschain.Pbft.Types.{plain, empty_head}
use dcschain.Mgmt.Types.{
  basic, empty_key, NodeKey, Chan, NodeMgmtMsg, empty_mgmt_msg, nm_apply, join,
}
use dcschain.Mgmt.Manager.{NodeManager, new_node_manager}
use dcschain.Mgmt.Handlers.{get_high_qc_index, get_leader_from_sync_msgs, leader_count}
use dcschain.Mgmt.Choice.{get_leader_any_order, get_high_qc_index_first}
use dcschain.Orderer.State.{Cons, basic as basic_cons, Env as OrdererEnv, view_of}
use dcschain.Orderer.Core.{Codec}
use dcschain.Orderer.Sync.{add_sync_info, sync_info}
use dcschain.Orderer.Views.{TakesView, both_basic, sync_info-TakesView}
use dcschain.Server.Outcome.{done, blocks, IfDone}
use dcschain.Server.State.{Env, Server, ServerMsg, zero_store}
use dcschain.Server.Send.{send_msg}
use dcschain.Server.Manager.{Choices, join_applied, exit_applied}
use dcschain.Server.Backlog.{arrives, flag, Holds, run_reqs, over_batch_kept}
use dcschain.Server.Joins.{run_sync, Joined, join_completes}
use dcschain.Server.Members.{Changed, members_change}
use dcschain.Server.Exits.{exited_leads, sharing, shared_exit_blocks}
use dcschain.Factory.Keys.{tell_all, entry, server_name, sm4_key_lost}
use dcschain.Server.Arrivals.{application_arrives}
use dcschain.Server.Core.{application, start_join, route_server_msg}
use dcschain.Mgmt.Handlers.{handle_exit}
use dcschain.Mgmt.Manager.{get_name}
use dcschain.Server.Send.{packed}
use dcschain.Server.State.{to_inbox}
use mathlib.Core.List.{Mem, mem-cons_self}
use dcschain.Examples.Replica.{env}
use dcschain.Examples.Pbft.{pbft_env}

abbrev cons_env : OrdererEnv
cons_env = record { hs = env; pb = pbft_env; pk = some (9 ∷ []) }

abbrev codec : Codec
codec = record {
  to_msg = λ json. none;
  to_c_msg = λ json. none;
  to_h2_msg = λ json. none;
  to_p_msg = λ json. plain empty_head;
}

abbrev server_env : Env
server_env = record {
  cons = cons_env;
  codec = codec;
  to_mgmt = λ json. none;
  of_mgmt = λ m. some m.send_node;
  to_req = λ json. record { id = []; cmd = some json; sign = none };
  of_server = λ m. some m.payload;
  to_server = λ json. none;
  sum_sm3 = λ json. json;
  sm2_sign = λ sum. some (some sum);
  sm2_verify = λ sig key sum. true;
}

abbrev name_of : ℕ → Text
name_of i = codes "r_" ++ ((48 + i) ∷ [])

abbrev keys : Table NodeKey
keys = map (λ i. (name_of i, record empty_key { name = name_of i })) (0 ∷ 1 ∷ 2 ∷ 3 ∷ 4 ∷ [])

abbrev channels : Table Chan
channels = map (λ i. (name_of i, some i)) (0 ∷ 1 ∷ 2 ∷ 3 ∷ 4 ∷ [])

abbrev replica_of : ℕ → Cons
replica_of i = basic_cons (new_bc_hotstuff (λ m. m) 1000 (pos i) 5 true)

abbrev manager : NodeManager
manager = new_node_manager (pos 0) keys channels

abbrev server : Server
server = record {
  name = name_of 0;
  pub_key = some (1 ∷ []);
  nm_type = basic;
  orderer = record { cons = replica_of 0; handle_state = true; req_state = true };
  node_manager = manager;
  requests = [];
  batch_size = 2;
  blk_store = zero_store;
  sent = [];
}

abbrev choices : Choices
choices = record { now = pos 9; signer_sizes = 5 ∷ []; leader_order = pos 1 ∷ pos 0 ∷ [] }

-- Two messages to a new node, and one with a later certificate.
abbrev led_by : ℤ → NodeMgmtMsg
led_by l = record empty_mgmt_msg { leader = l }

abbrev certified : ℤ → ℤ → NodeMgmtMsg
certified n c = record empty_mgmt_msg {
  view_number = n;
  justify = record empty_qc { view_number = c };
}

get_leader_any_order_example :
    ((l : ℤ)
      → threshold 5 < leader_count l (led_by (pos 1) ∷ led_by (pos 1) ∷ led_by (pos 1) ∷ [])
      → get_leader_from_sync_msgs
          (pos 3 ∷ pos 1 ∷ [])
          (led_by (pos 1) ∷ led_by (pos 1) ∷ led_by (pos 1) ∷ [])
          manager
        ≡ l)
    × (((l : ℤ)
          → leader_count l (led_by (pos 1) ∷ led_by (pos 1) ∷ led_by (pos 1) ∷ []) ≤ threshold 5)
        → get_leader_from_sync_msgs
            (pos 3 ∷ pos 1 ∷ [])
            (led_by (pos 1) ∷ led_by (pos 1) ∷ led_by (pos 1) ∷ [])
            manager
          ≡ negsuc 0)
unfolding threshold new_node_manager
get_leader_any_order_example =
    get_leader_any_order manager (led_by (pos 1) ∷ led_by (pos 1) ∷ led_by (pos 1) ∷ [])
      (pos 3 ∷ pos 1 ∷ []) (omega arith) (inr (inl refl), (inr (inl refl), (inr (inl refl), tt)))

get_high_qc_index_first_example :
    get_high_qc_index
      (certified (pos 9) (pos 1) ∷ certified (pos 9) (pos 2) ∷ certified (pos 9) (pos 8) ∷ [])
    ≡ some 1
get_high_qc_index_first_example =
    get_high_qc_index_first (certified (pos 9) (pos 1)) (certified (pos 9) (pos 2)) []
      (certified (pos 9) (pos 8) ∷ []) tt (omega arith) (omega arith, tt)

sync_info-TakesView_example :
    TakesView
      (replica_of 2)
      (view_of (replica_of 1))
      (pos 3)
      (sync_info (add_sync_info cons_env (replica_of 1) empty_mgmt_msg) (pos 3) (replica_of 2))
sync_info-TakesView_example =
    sync_info-TakesView cons_env empty_mgmt_msg (pos 3) refl refl both_basic

abbrev a_request : BcRequest
a_request = record { id = []; cmd = some (5 ∷ []); sign = none }

abbrev backlog : Server
backlog = record server { requests = a_request ∷ a_request ∷ a_request ∷ [] }

over_batch_kept_example :
    let es = flag (pos 3) ∷ arrives (pos 4) a_request ∷ flag (pos 5) ∷ [] in
    (run_reqs server_env es backlog ≡ run_reqs server_env (arrives (pos 4) a_request ∷ []) backlog)
    × IfDone (Holds (backlog.requests ++ (a_request ∷ [])) 2) (run_reqs server_env es backlog)
over_batch_kept_example =
    over_batch_kept server_env (flag (pos 3) ∷ arrives (pos 4) a_request ∷ flag (pos 5) ∷ [])
      backlog (omega arith)

-- A node that applies to join, or to leave.
abbrev from_node : ℕ → NodeMgmtMsg
from_node i = record empty_mgmt_msg {
  send_node = name_of i;
  node_key = record empty_key { name = name_of i };
}

other_node : (i : ℕ) → text_eq (name_of 0) (name_of (suc i)) ≡ false
unfolding text_eq
other_node i = ground arith

keys-IsTable : IsTable keys
unfolding find text_eq
keys-IsTable = (refl, (refl, (refl, (refl, (refl, tt)))))

members_change_example :
    ((t : Server) × (join_applied server_env choices (from_node 5) server ≡ done t)
      × Changed (some (from_node 5).node_key) (some none) (from_node 5) server t)
    × IfDone
        (Changed none none (from_node 5) server)
        (exit_applied server_env choices (from_node 5) server)
unfolding new_node_manager
members_change_example =
    members_change server_env choices (from_node 5) server (other_node 4) keys-IsTable

has_one : has (name_of 1) keys ≡ true
unfolding find text_eq
has_one = refl

named_one : name_of 1 ≡ node_name (pos 1)
unfolding node_name
named_one = refl

leads_zero : (view_of (replica_of 0)).leader ≡ pos 0
unfolding view_of new_bc_hotstuff
leads_zero = refl

exited_leads_example :
    IfDone
      (λ t.
        ((j : ℕ) × (leader_name (next_views j (view_of t.orderer.cons)) ≡ name_of 1))
        × ((x : ServerMsg) (sig : Bytes) (json : List ℕ)
            → x.reci_server ≡ name_of 1
            → some (some x.payload) ≡ some sig
            → some x.payload ≡ some json
            → send_msg server_env x t ≡ blocks))
      (exit_applied server_env choices (from_node 1) server)
unfolding new_node_manager
exited_leads_example =
    exited_leads server_env choices (from_node 1) server 1 0 (other_node 0) keys-IsTable has_one
      named_one (omega arith) leads_zero

-- The new node, and what the others answer.
abbrev joiner : Server
joiner = record server {
  name = name_of 5;
  orderer = record { cons = replica_of 5; handle_state = true; req_state = true };
  node_manager = record manager {
    new_node = record (manager.new_node) { name = name_of 5 };
    state = nm_apply;
    mode = join;
  };
}

abbrev answer_of : ℕ → NodeMgmtMsg
answer_of i = add_sync_info cons_env (replica_of i) empty_mgmt_msg

own_name : text_eq (name_of 5) (name_of 5) ≡ true
unfolding text_eq
own_name = refl

join_completes_example :
    (r : Server) × (run_sync server_env choices
        (answer_of 0 ∷ answer_of 1 ∷ answer_of 2 ∷ [])
        joiner
      ≡ done r)
    × Joined (view_of (replica_of 0)) joiner r
unfolding new_bc_hotstuff view_of new_node_manager threshold
join_completes_example =
    join_completes server_env choices (view_of (replica_of 0)) (answer_of 0 ∷ answer_of 1 ∷ [])
      (answer_of 2) joiner refl own_name refl (inr (inl refl)) refl
      (
        (cons_env, replica_of 0, empty_mgmt_msg, refl, refl, refl, both_basic, refl),
        (
          (cons_env, replica_of 1, empty_mgmt_msg, refl, refl, refl, both_basic, refl),
          ((cons_env, replica_of 2, empty_mgmt_msg, refl, refl, refl, both_basic, refl), tt),
        ),
      )

abbrev second : Server
second = record server { name = name_of 2 }

abbrev agreed : Text
agreed = codes "r_0"

shared_exit_blocks_example :
    IfDone
      (λ t. exit_applied server_env choices (from_node 1) (sharing t second) ≡ blocks)
      (exit_applied server_env choices (from_node 1) server)
unfolding new_node_manager handle_exit get_name node_name
shared_exit_blocks_example =
    shared_exit_blocks server_env choices (from_node 1) (from_node 1) server second (pos 1) agreed
      agreed (some agreed) (other_node 0) keys-IsTable named_one named_one refl refl refl

-- What the new node sends to the first of the others, where json writes 5 for it and 6 for what
-- carries it.
abbrev first_key : NodeKey
first_key = record empty_key { name = name_of 0 }

abbrev applied : NodeMgmtMsg
applied = application joiner first_key

abbrev carried : ServerMsg
carried = record (packed joiner applied (5 ∷ [])) { sign = some (5 ∷ []) }

abbrev join_env : Env
join_env = record server_env {
  of_mgmt = λ m. some (5 ∷ []);
  to_mgmt = λ json. some applied;
  of_server = λ m. some (6 ∷ []);
  to_server = λ json. some carried;
}

application_arrives_example :
    Mem (to_inbox 0 (6 ∷ [])) (start_join join_env joiner).sent
    × ((u : Server) × (route_server_msg join_env choices (6 ∷ []) server ≡ done u)
        × Changed (some applied.node_key) (some none) applied server u)
unfolding new_node_manager application node_name text_eq find
application_arrives_example =
    application_arrives join_env choices joiner server (name_of 0, first_key) (pos 0) 0 (5 ∷ [])
      (6 ∷ []) (some (5 ∷ [])) mem-cons_self refl refl refl refl (refl, refl) (refl, refl) refl refl
      refl keys-IsTable

sm4_key_lost_example :
    let f = tell_all (λ i. some (i ∷ [])) (λ i j. some (i ∷ j ∷ [])) 3 3 (λ i. manager) in
    (entry 0 2 f
      ≡ some (record {
        name = server_name 2;
        sm2_pub_key = some (2 ∷ []);
        sm4_key = some (0 ∷ 2 ∷ []);
      }))
    × (entry 2 0 f
        ≡ some (record { name = server_name 0; sm2_pub_key = some (0 ∷ []); sm4_key = none }))
sm4_key_lost_example =
    sm4_key_lost (λ i. some (i ∷ [])) (λ i j. some (i ∷ j ∷ [])) 3 0 2 (λ i. manager) (omega arith)
      (omega arith)
