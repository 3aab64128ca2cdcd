-- ===== src/Cluster/Node.antt =====
-- `Cluster` of src/cluster/mod.rs: its loop, an event at a time, and the task of src/main.rs that
-- logs what it receives. The crate `foca` is a parameter: an operation of it is a tree of the calls
-- that it makes of the broadcast handler, with what it asks the program to send and to report.
use layer4_lb.Prelude.{ℕ, Option, none, some, List, [], ◌∷◌, ◌++◌, map, Result, ok, err}
use layer4_lb.Networking.Addr.{SocketAddr}
use layer4_lb.Cluster.{
  usage_update, BroadcastKey, NodeIdentity, ClusterCommand, broadcast_usage, ClusterError,
  BincodeLib, Update, receive_item,
}

-- `foca::OwnedNotification`, as far as the program tells its values apart.
pub data OwnedNotification : Type 0 where
  member_up : NodeIdentity → OwnedNotification
  member_down : NodeIdentity → OwnedNotification
  active : OwnedNotification
  idle : OwnedNotification
  defunct : OwnedNotification
  other : OwnedNotification

-- `foca::AccumulatingRuntime`. Its third queue, of the timers to schedule, is never read.
pub record AccumulatingRuntime : Type 0 where
  pub to_send : List (NodeIdentity × List ℕ)
  pub to_notify : List OwnedNotification

-- An operation of `foca` with a state F, errors X and errors D of the codec.
pub data Call (F X D : Type 0) : Type 0 where
  finished : F → AccumulatingRuntime → Option X → Call F X D
  receive :
      List ℕ
      → Option NodeIdentity
      → (Result (Option BroadcastKey) (ClusterError D) → Call F X D)
      → Call F X D

pub record FocaLib (D : Type 0) : Type 1 where
  pub Foca : Type 0
  pub Error : Type 0
  pub with_custom_broadcast : NodeIdentity → Foca
  pub gossip : Foca → Call Foca Error D
  pub handle_data : List ℕ → Foca → Call Foca Error D
  pub add_broadcast : List ℕ → Foca → Call Foca Error D

-- The branch of the `select!` that made a call.
pub data Branch : Type 0 where
  timer : Branch
  datagram : Branch
  command : Branch

-- What the loop is doing.
pub data Activity (F X D : Type 0) : Type 0 where
  selecting : Activity F X D
  calling : Branch → Call F X D → Activity F X D

-- What the process prints.
pub data Line (X : Type 0) : Type 0 where
  gossip_error : X → Line X
  broadcast_error : X → Line X
  member_up : NodeIdentity → Line X
  member_down : NodeIdentity → Line X
  active : Line X
  idle : Line X
  defunct : Line X

-- The fields of `Cluster`, the channel of the updates, and what has left the node: the datagrams in
-- their order, the lines, and the updates that the task of main.rs has logged.
pub record Cluster (F X D : Type 0) : Type 0 where
  pub phase : Activity F X D
  pub foca : F
  pub identity : NodeIdentity
  pub tx_state : List Update
  pub sent : List (SocketAddr × List ℕ)
  pub printed : List (Line X)
  pub logged : List Update

-- What happens to a node: a branch of the `select!`, the next action of a call, and the next round of
-- the task of main.rs.
pub data Event : Type 0 where
  tick : Event
  received : List ℕ → Event
  receive_failed : Event
  commanded : ClusterCommand → Event
  continue : Event
  log : Event

abbrev pub lines_of : {X : Type 0} → OwnedNotification → List (Line X)
lines_of (OwnedNotification.member_up m) = Line.member_up m ∷ []
lines_of (OwnedNotification.member_down m) = Line.member_down m ∷ []
lines_of OwnedNotification.active = Line.active ∷ []
lines_of OwnedNotification.idle = Line.idle ∷ []
lines_of OwnedNotification.defunct = Line.defunct ∷ []
lines_of OwnedNotification.other = []

abbrev pub notifications : {X : Type 0} → List OwnedNotification → List (Line X)
notifications [] = []
notifications (n ∷ ns) = lines_of n ++ notifications ns

-- The errors of a datagram are passed over.
abbrev pub report : {X : Type 0} → Branch → Option X → List (Line X)
report branch none = []
report timer (some e) = gossip_error e ∷ []
report datagram (some e) = []
report command (some e) = broadcast_error e ∷ []

module _ {F X D : Type 0} where
  unfoldable pub handle_runtime : AccumulatingRuntime → Cluster F X D → Cluster F X D
  handle_runtime r c = record c {
    sent = c.sent ++ map (λ m. (m.0.addr, m.1)) r.to_send;
    printed = c.printed ++ notifications r.to_notify;
  }

  -- A branch of the `select!` is taken when no call is under way.
  unfoldable pub begin : Activity F X D → Branch → Call F X D → Cluster F X D → Cluster F X D
  begin selecting branch call c = record c { phase = calling branch call }
  begin (calling _ _) branch call c = c

  unfoldable pub log_update : List Update → Cluster F X D → Cluster F X D
  log_update [] c = c
  log_update (update ∷ queue) c = record c { tx_state = queue; logged = c.logged ++ update ∷ [] }

module _ (lib : BincodeLib) (foca : FocaLib lib.DecodeError) where
  open lib use {DecodeError, encode_to_vec}
  open foca use {Foca, Error, with_custom_broadcast, gossip, handle_data, add_broadcast}

  abbrev pub Node : Type 0
  Node = Cluster Foca Error DecodeError

  -- The bound socket or the error of binding it, and the random identity, are arguments. The peers
  -- are not used, neither here nor by the loop.
  unfoldable pub new :
      {E : Type 0}
      → Result (Unit {0}) E
      → ℕ
      → (bind_addr : SocketAddr) → (peers : List SocketAddr) → Result Node E
  new (err e) id bind_addr peers = err e
  new (ok _) id bind_addr peers =
      let identity : NodeIdentity = record { addr = bind_addr; id = id } in
      ok (record {
        phase = selecting;
        foca = with_custom_broadcast identity;
        identity = identity;
        tx_state = [];
        sent = [];
        printed = [];
        logged = [];
      })

  -- The branch of a command.
  unfoldable pub on_command : ClusterCommand → Node → Node
  unfolding begin
  on_command (broadcast_usage key usage) c =
      elim (encode_to_vec (usage_update c.identity.id key usage)) [
        | ok bytes ↦ begin c.phase command (add_broadcast bytes c.foca) c
        | err _ ↦ c
      ]

  -- The next action of a call that is under way.
  unfoldable pub continue_call : Activity Foca Error DecodeError → Node → Node
  unfolding handle_runtime
  continue_call selecting c = c
  continue_call (calling branch (finished state runtime error)) c =
      handle_runtime runtime
        (record c { phase = selecting; foca = state; printed = c.printed ++ report branch error })
  continue_call (calling branch (receive bytes sender next)) c =
      let (answer, queue) = receive_item lib bytes c.tx_state in
      record c { phase = calling branch (next answer); tx_state = queue }

  unfoldable pub step : Event → Node → Node
  unfolding begin on_command continue_call log_update
  step tick c = begin c.phase timer (gossip c.foca) c
  step (received bytes) c = begin c.phase datagram (handle_data bytes c.foca) c
  step receive_failed c = c
  step (commanded cmd) c = on_command cmd c
  step continue c = continue_call c.phase c
  step log c = log_update c.tx_state c

  unfoldable pub run : List Event → Node → Node
  unfolding step
  run [] c = c
  run (event ∷ events) c = run events (step event c)
