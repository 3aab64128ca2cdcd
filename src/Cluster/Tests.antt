-- ===== src/Cluster/Tests.antt =====
-- Clusters of src/cluster/mod.rs, over a codec for one key and a gossip that hands on what it gets.
use layer4_lb.Prelude.{
  ℕ, suc, ◌≡◌, refl, sym, ap, subst, none, List, [], ◌∷◌, Result, ok, err, if◌then◌else◌, str_eq,
  str_eq_iff, length, Bool-cases, inl, inr,
}
use layer4_lb.Networking.Addr.{SocketAddr}
use layer4_lb.Cluster.{
  BroadcastMessage, usage_update, broadcast_usage, BincodeLib, try_send, receive_item,
}
use layer4_lb.Cluster.Node.{
  AccumulatingRuntime, Call, finished, receive, FocaLib, datagram, command, selecting, calling,
  Event, tick, received, commanded, continue, log, Node, new, step, run, begin, continue_call,
  log_update,
}
use layer4_lb.Cluster.Updates.{Kept, arrivals, run-Kept}
use layer4_lb.Cluster.Broadcast.{broadcast-received}
use layer4_lb.Cluster.Silence.{Solitude, at, here, does, silent}

abbrev decode : List ℕ → Result (BroadcastMessage × ℕ) (Unit {0})
decode (node_id ∷ usage ∷ []) = ok (usage_update node_id "key" usage, 2)
decode _ = err tt

abbrev encode : BroadcastMessage → Result (List ℕ) (Unit {0})
encode (usage_update node_id key usage) =
    if str_eq key "key" then ok (node_id ∷ usage ∷ []) else err tt

abbrev Readable : Result (List ℕ) (Unit {0}) → BroadcastMessage → Type 0
Readable (ok bytes) msg = decode bytes ≡ ok (msg, length bytes)
Readable (err e) msg = Unit {0}

encode-Readable : (msg : BroadcastMessage) → Readable (encode msg) msg
encode-Readable (usage_update node_id key usage) = elim (Bool-cases (str_eq key "key")) [
  | inl same ↦
      rw same (ap (λ k. ok (usage_update node_id k usage, 2)) (sym ((str_eq_iff key "key").0 same)))
  | inr other ↦ rw other tt
]

decode-encode_lem :
    (msg : BroadcastMessage) (bytes : List ℕ)
    → encode msg ≡ ok bytes
    → decode bytes ≡ ok (msg, length bytes)
decode-encode_lem msg bytes e = subst (λ r. Readable r msg) e (encode-Readable msg)

abbrev codec : BincodeLib
codec = record {
  DecodeError = Unit {0};
  EncodeError = Unit {0};
  decode_from_slice = decode;
  encode_to_vec = encode;
  decode-encode = decode-encode_lem;
}

abbrev nothing : AccumulatingRuntime
nothing = record { to_send = []; to_notify = [] }

abbrev over : Call (Unit {0}) (Unit {0}) (Unit {0})
over = finished tt nothing none

abbrev gossip_lib : FocaLib (Unit {0})
gossip_lib = record {
  Foca = Unit {0};
  Error = Unit {0};
  with_custom_broadcast = λ _. tt;
  gossip = λ _. over;
  handle_data = λ bytes _. receive bytes none (λ _. over);
  add_broadcast = λ bytes _. receive bytes none (λ _. over);
}

solitude : Solitude gossip_lib
solitude = record {
  IsAlone = λ _. Unit {0};
  starts_alone = λ _. tt;
  gossips_to_nobody = λ _ _. (tt, refl);
  keeps_broadcast = λ _ _ _ _. (tt, refl);
}

abbrev node : ℕ → Node codec gossip_lib
node id = record {
  phase = selecting;
  foca = tt;
  identity = record { addr = SocketAddr.v4 id 7946; id = id };
  tx_state = [];
  sent = [];
  printed = [];
  logged = [];
}

-- A node that is in the middle of a datagram.
abbrev listening : Node codec gossip_lib
listening = record (node 2) { phase = calling datagram (receive (1 ∷ 50 ∷ []) none (λ _. over)) }

broadcast-received_example :
    let asked = step codec gossip_lib (commanded (broadcast_usage "key" 50)) (node 1) in
    let told = step codec gossip_lib continue listening in
    (asked.phase ≡ calling command (gossip_lib.add_broadcast (1 ∷ 50 ∷ []) tt))
    × (told.phase ≡ calling datagram over)
    × (told.tx_state ≡ try_send (1, "key", 50) [])
broadcast-received_example =
    broadcast-received codec gossip_lib (node 1) listening "key" 50 (1 ∷ 50 ∷ []) none datagram
      (λ _. over) refl refl refl

abbrev events : List Event
events =
    tick
    ∷ continue
    ∷ received (1 ∷ 50 ∷ [])
    ∷ continue
    ∷ log
    ∷ continue
    ∷ received (1 ∷ [])
    ∷ continue
    ∷ []

one_arrives : arrivals codec gossip_lib events (node 2) ≡ (1, "key", 50) ∷ []
unfolding step begin continue_call log_update receive_item try_send
one_arrives = refl

run-Kept_example :
    Kept codec gossip_lib
      (arrivals codec gossip_lib events (node 2))
      (node 2)
      (run codec gossip_lib events (node 2))
run-Kept_example = run-Kept codec gossip_lib events (node 2)

abbrev reached : ℕ → Node codec gossip_lib
reached = at codec gossip_lib 1 (step codec gossip_lib tick (node 1)) node

node_is_new :
    (i : ℕ)
    → new codec gossip_lib {E = Unit {0}}
        (ok tt)
        i
        (SocketAddr.v4 i 7946)
        (SocketAddr.v4 (suc i) 7946 ∷ [])
      ≡ ok (node i)
unfolding new
node_is_new i = refl

silent_example : (reached 1).sent ≡ []
silent_example =
    silent codec gossip_lib solitude {E = Unit {0}} (λ i. i) (λ i. SocketAddr.v4 i 7946)
      (λ i. SocketAddr.v4 (suc i) 7946 ∷ []) node reached node_is_new (does 1 tick here tt) 1
