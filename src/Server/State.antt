-- ===== src/Server/State.antt =====
-- core/server/server.go and common/message/message.go: a server and the messages between servers.
use dcschain.Base.{ℕ, Bool, List, [], ◌∷◌, Option, none, some, ℤ, pos, Bytes, Text, Table}
use dcschain.Common.Name.{node_name}
use dcschain.Blockchain.{BlockStore, empty_block}
use dcschain.BasicHotstuff.Core.{BcRequest}
use dcschain.Mgmt.Types.{empty_key, Chan, NodeManagerType, NodeMgmtMsg, basic}
use dcschain.Mgmt.Manager.{NodeManager, new_node_manager}
use dcschain.Orderer.State.{Env as OrdererEnv, Orderer, ConsensusType, Signer, init_consensus}
use dcschain.Orderer.Core.{Codec}

-- message.MsgType
abbrev pub MsgType : Type 0
MsgType = ℕ

abbrev pub request : MsgType
request = 0

abbrev pub nodemgmt : MsgType
nodemgmt = 1

abbrev pub order : MsgType
order = 2

pub record ServerMsg : Type 0 where
  pub s_type : MsgType
  pub send_server : Text
  pub reci_server : Text
  pub sign : Bytes
  pub payload : List ℕ

-- What a server takes from outside: what the protocols take, json, SM3 and SM2. `sm2_sign` is `none`
-- where the library returns an error.
pub record Env : Type 0 where
  pub cons : OrdererEnv
  pub codec : Codec
  pub to_mgmt : List ℕ → Option NodeMgmtMsg
  pub of_mgmt : NodeMgmtMsg → Option (List ℕ)
  pub to_req : List ℕ → BcRequest
  pub of_server : ServerMsg → Option (List ℕ)
  pub to_server : List ℕ → Option ServerMsg
  pub sum_sm3 : List ℕ → List ℕ
  pub sm2_sign : List ℕ → Option Bytes
  pub sm2_verify : Bytes → Bytes → List ℕ → Bool

-- What a server has given to the network: the inbox, and what was put into it.
pub data Sent : Type 0 where
  to_inbox : ℕ → List ℕ → Sent
  to_client : List ℕ → Sent

pub record Server : Type 0 where
  pub name : Text  -- ServerID.ID.Name
  pub pub_key : Bytes  -- ServerID.ID.PubKey
  pub nm_type : NodeManagerType
  pub orderer : Orderer
  pub node_manager : NodeManager
  pub requests : List BcRequest
  pub batch_size : ℕ
  pub blk_store : BlockStore
  pub sent : List Sent

-- The zero value of the server's own block store.
abbrev pub zero_store : BlockStore
zero_store = record {
  height = pos 0;
  generated_height = pos 0;
  pre_blk_hash = none;
  cur_blk_hash = none;
  cur_proposal_blk = empty_block;
  files = [];
}

-- config.BatchSize
abbrev pub default_batch_size : ℕ
default_batch_size = 128

-- NewServer with the node manager `basic`; `pk` is the generated key, `none` a panic
unfoldable pub new_server :
    Env → ℤ → ℕ → ConsensusType → Signer → Table Chan → Bytes → Option Server
unfolding init_consensus new_node_manager node_name
new_server env id node_num kind signer nodes_channel pk =
    let name = node_name id in
    let key = record empty_key { name = name; sm2_pub_key = pk } in
    elim (init_consensus env.cons kind id node_num signer) [
      | none ↦ none
      | some o ↦ some (record {
        name = name;
        pub_key = pk;
        nm_type = basic;
        orderer = o;
        node_manager = new_node_manager id ((name, key) ∷ []) nodes_channel;
        requests = [];
        batch_size = default_batch_size;
        blk_store = zero_store;
        sent = [];
      })
    ]
