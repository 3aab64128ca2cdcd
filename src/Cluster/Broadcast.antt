-- ===== src/Cluster/Broadcast.antt =====
-- A usage that src/cluster/mod.rs broadcasts, from the command on one node to the handler of another.
use layer4_lb.Prelude.{
  ℕ, ◌≡◌, ◌↔◌, refl, ap, ap₂, ◌∙◌, String, true, Option, some, List, Result, ok, arith, ==_iff,
  str_eq_iff,
}
use layer4_lb.Cluster.{
  usage_update, broadcast_usage, BroadcastKey, invalidates, BincodeLib, ClusterError, NodeIdentity,
  Update, try_send, receive_item,
}
use layer4_lb.Cluster.Node.{
  Activity, Branch, command, commanded, continue, selecting, calling, receive, Call, FocaLib, Node,
  on_command, continue_call, step, begin,
}

-- One broadcast replaces another exactly if both are of the same node and the same key.
pub invalidates_iff : (a b : BroadcastKey) → (invalidates a b ≡ true) ↔ (a ≡ b)
unfolding invalidates
invalidates_iff a b =
    let forth : invalidates a b ≡ true → (a.node_id ≡ b.node_id) × (a.key ≡ b.key) =
      λ e. ground (arith, e, str_eq_iff a.key b.key, ==_iff a.node_id b.node_id) in
    let back : a ≡ b → invalidates a b ≡ true =
      λ e. rw e (ground (arith, str_eq_iff b.key b.key)) in
    (
      λ e. ap₂ (λ (n : ℕ) (k : String). record { node_id = n; key = k }) (forth e).0 (forth e).1,
      back,
    )

module _ (lib : BincodeLib) (foca : FocaLib lib.DecodeError) where
  open lib use {encode_to_vec}

  item_received :
      (id : ℕ) (key : String) (usage : ℕ) (bytes : List ℕ) (queue : List Update)
      → encode_to_vec (usage_update id key usage) ≡ ok bytes
      → receive_item lib bytes queue
        ≡ (ok (some (record { node_id = id; key = key })), try_send (id, key, usage) queue)
  unfolding receive_item
  item_received id key usage bytes queue e =
      rw (lib.decode-encode (usage_update id key usage) bytes e, receive_item) refl

  told :
      (to : Node lib foca) (bytes : List ℕ) (sender : Option NodeIdentity) (branch : Branch)
      (next : Result (Option BroadcastKey) (ClusterError lib.DecodeError)
        → Call foca.Foca foca.Error lib.DecodeError)
      → to.phase ≡ calling branch (receive bytes sender next)
      → let (answer, queue) = receive_item lib bytes to.tx_state in
        step lib foca continue to
        ≡ record to { phase = calling branch (next answer); tx_state = queue }
  unfolding step continue_call
  told to bytes sender branch next busy =
      ap (λ (a : Activity foca.Foca foca.Error lib.DecodeError). continue_call lib foca a to) busy

  asked :
      (from : Node lib foca) (key : String) (usage : ℕ) (bytes : List ℕ)
      → encode_to_vec (usage_update from.identity.id key usage) ≡ ok bytes
      → from.phase ≡ selecting
      → step lib foca (commanded (broadcast_usage key usage)) from
        ≡ record from { phase = calling command (foca.add_broadcast bytes from.foca) }
  unfolding step on_command begin
  asked from key usage bytes e idle =
      rw (e, step, on_command)
        (ap
          (λ (a : Activity foca.Foca foca.Error lib.DecodeError).
            begin a command (foca.add_broadcast bytes from.foca) from)
          idle)

  -- An idle node that is told to broadcast a usage hands the bytes of its message to foca, if it can be
  -- encoded. Whichever node receives those bytes as an item queues the usage under the identity of the
  -- first node, unless its channel is full, and tells foca the key of that node.
  pub broadcast-received :
      (from to : Node lib foca) (key : String) (usage : ℕ) (bytes : List ℕ)
      (sender : Option NodeIdentity) (branch : Branch)
      (next : Result (Option BroadcastKey) (ClusterError lib.DecodeError)
        → Call foca.Foca foca.Error lib.DecodeError)
      → encode_to_vec (usage_update from.identity.id key usage) ≡ ok bytes
      → from.phase ≡ selecting
      → to.phase ≡ calling branch (receive bytes sender next)
      → let asked = step lib foca (commanded (broadcast_usage key usage)) from in
        let told = step lib foca continue to in
        let bkey : BroadcastKey = record { node_id = from.identity.id; key = key } in
        (asked.phase ≡ calling command (foca.add_broadcast bytes from.foca))
        × (told.phase ≡ calling branch (next (ok (some bkey))))
        × (told.tx_state ≡ try_send (from.identity.id, key, usage) to.tx_state)
  broadcast-received from to key usage bytes sender branch next e idle busy =
      let step_to = told to bytes sender branch next busy in
      let item = item_received from.identity.id key usage bytes to.tx_state e in
      (
        ap (λ (c : Node lib foca). c.phase) (asked from key usage bytes e idle),
        ap (λ (c : Node lib foca). c.phase) step_to ∙ ap (λ r. calling branch (next r.0)) item,
        ap (λ (c : Node lib foca). c.tx_state) step_to ∙ ap (λ r. r.1) item,
      )
