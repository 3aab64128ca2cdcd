-- ===== src/Cluster.antt =====
-- src/cluster/mod.rs: the messages of the gossip and their keys, and the handler of broadcasts. The
-- crates `bincode` and `foca` are parameters.
pub mod Node
pub mod Updates
pub mod Broadcast
pub mod Silence
mod Tests
use Prim.Native.String.{◌++◌ as str_append}
use layer4_lb.Prelude.{
  ℕ, ◌+◌, ◌≡◌, String, Bool, true, ◌&&◌, Option, none, some, List, [], ◌∷◌, ◌++◌, Result, ok, err,
  length, ltb, if◌then◌else◌, str_eq, ◌==◌,
}
use layer4_lb.Networking.Addr.{SocketAddr}

pub data BroadcastMessage : Type 0 where
  usage_update : (node_id : ℕ) → (key : String) → (usage : ℕ) → BroadcastMessage

pub record BroadcastKey : Type 0 where
  pub node_id : ℕ
  pub key : String

-- The derived `PartialEq` of `BroadcastKey` stands behind `==`.
unfoldable pub invalidates : BroadcastKey → BroadcastKey → Bool
invalidates a b = (a.node_id == b.node_id) && str_eq a.key b.key

pub record NodeIdentity : Type 0 where
  pub addr : SocketAddr
  pub id : ℕ

-- `rand::random()` is an argument.
abbrev pub renew : ℕ → NodeIdentity → Option NodeIdentity
renew random n = some (record n { id = random })

abbrev pub win_addr_conflict : NodeIdentity → NodeIdentity → Bool
win_addr_conflict n other = true

pub data ClusterCommand : Type 0 where
  broadcast_usage : String → ℕ → ClusterCommand

pub data ClusterError (DecodeError : Type 0) : Type 0 where
  bincode : DecodeError → ClusterError DecodeError
  anyhow : String → ClusterError DecodeError

-- `Display`, over the `Debug` of the error of `bincode`.
pub display : {D : Type 0} → (D → String) → ClusterError D → String
display debug (bincode e) = str_append "Bincode error: " (debug e)
display debug (anyhow e) = str_append "Error: " e

-- `bincode` with its standard configuration: what was encoded decodes, and all of it is read.
pub record BincodeLib : Type 1 where
  pub DecodeError : Type 0
  pub EncodeError : Type 0
  pub decode_from_slice : List ℕ → Result (BroadcastMessage × ℕ) DecodeError
  pub encode_to_vec : BroadcastMessage → Result (List ℕ) EncodeError
  pub decode-encode :
      (msg : BroadcastMessage) (bytes : List ℕ)
      → encode_to_vec msg ≡ ok bytes
      → decode_from_slice bytes ≡ ok (msg, length bytes)

-- An update of the state: the node, the key and the usage.
abbrev pub Update : Type 0
Update = ℕ × String × ℕ

-- The channel from the handler to the task of main.rs that logs the updates.
abbrev pub capacity : ℕ
capacity = 1000

-- `try_send` of a bounded channel drops what finds no room.
unfoldable pub try_send : Update → List Update → List Update
try_send update queue = if ltb (length queue) capacity then queue ++ update ∷ [] else queue

module _ (lib : BincodeLib) where
  open lib use {DecodeError, decode_from_slice}

  -- The answer of the handler and the channel after it.
  unfoldable pub receive_item :
      List ℕ → List Update → Result (Option BroadcastKey) (ClusterError DecodeError) × List Update
  receive_item data_bytes tx_state = elim (decode_from_slice data_bytes) [
    | err e ↦ (err (bincode e), tx_state)
    | ok (usage_update node_id key usage, _) ↦ (
      ok (some (record { node_id = node_id; key = key })),
      try_send (node_id, key, usage) tx_state,
    )
  ]
