-- ===== src/Cluster/Silence.antt =====
-- What a cluster of src/cluster/mod.rs does on its own. No node is told of another: `new` and `run`
-- take the list of peers and leave it.
use layer4_lb.Prelude.{
  ℕ, ◌≡◌, refl, subst, Option, List, [], ◌∷◌, Result, ok, err, Result-cases, Any, if◌then◌else◌,
  ◌==◌, Bool-cases, inl, inr,
}
use layer4_lb.Networking.Addr.{SocketAddr}
use layer4_lb.Cluster.{
  usage_update, BroadcastKey, NodeIdentity, ClusterCommand, broadcast_usage, ClusterError,
  BincodeLib, receive_item, Update,
}
use layer4_lb.Cluster.Node.{
  Call, finished, receive, FocaLib, Branch, timer, command, Activity, selecting, calling, Node, new,
  Event, tick, received, receive_failed, commanded, continue, log, on_command, continue_call, step,
  begin, handle_runtime, log_update,
}

-- A call that, whatever the handler answers, sends nothing and ends in a state that P holds of.
abbrev pub SendsNothing : {F X D : Type 0} → (F → Type 0) → Call F X D → Type 0
SendsNothing P (finished state runtime error) = P state × (runtime.to_send ≡ [])
SendsNothing {D = D} P (receive bytes sender next) =
    (answer : Result (Option BroadcastKey) (ClusterError D)) → SendsNothing P (next answer)

-- What foca documents of a node that knows no other member: it starts as one, it has nobody to gossip
-- to, and a broadcast waits for the gossip.
pub record Solitude {D : Type 0} (foca : FocaLib D) : Type 1 where
  pub IsAlone : foca.Foca → Type 0
  pub starts_alone : (identity : NodeIdentity) → IsAlone (foca.with_custom_broadcast identity)
  pub gossips_to_nobody : (f : foca.Foca) → IsAlone f → SendsNothing IsAlone (foca.gossip f)
  pub keeps_broadcast :
      (bytes : List ℕ) (f : foca.Foca)
      → IsAlone f
      → SendsNothing IsAlone (foca.add_broadcast bytes f)

-- What a node does by itself, so all but the receipt of a datagram.
abbrev pub Own : Event → Type 0
Own (received bytes) = ⊥
Own event = Unit {0}

module _ (lib : BincodeLib) (foca : FocaLib lib.DecodeError) where
  -- A cluster is its nodes by number.
  abbrev pub at : ℕ → Node lib foca → (ℕ → Node lib foca) → ℕ → Node lib foca
  at i c nodes j = if j == i then c else nodes j

  -- A node receives a datagram only if a node has sent it.
  pub data Reaches (start : ℕ → Node lib foca) : (ℕ → Node lib foca) → Type 0 where
    here : Reaches start start
    does :
        {nodes : ℕ → Node lib foca} (i : ℕ) (event : Event)
        → Reaches start nodes
        → Own event
        → Reaches start (at i (step lib foca event (nodes i)) nodes)
    delivered :
        {nodes : ℕ → Node lib foca} (i j : ℕ) (bytes : List ℕ)
        → Reaches start nodes
        → Any (λ m. m.1 ≡ bytes) (nodes j).sent
        → Reaches start (at i (step lib foca (received bytes) (nodes i)) nodes)

module _ (lib : BincodeLib) (foca : FocaLib lib.DecodeError) (alone : Solitude foca) where
  open foca use {Foca, Error}
  open alone use {IsAlone, starts_alone, gossips_to_nobody, keeps_broadcast}

  abbrev pub IsIdle : Activity Foca Error lib.DecodeError → Type 0
  IsIdle selecting = Unit {0}
  IsIdle (calling branch call) = SendsNothing IsAlone call

  pub record IsSilent (c : Node lib foca) : Type 0 where
    pub solitary : IsAlone c.foca
    pub idle : IsIdle c.phase
    pub unheard : c.sent ≡ []

  begin-IsSilent :
      (activity : Activity Foca Error lib.DecodeError) (branch : Branch)
      (call : Call Foca Error lib.DecodeError) (c : Node lib foca)
      → SendsNothing IsAlone call
      → IsSilent c
      → IsSilent (begin activity branch call c)
  unfolding begin
  begin-IsSilent selecting branch call c quiet s = record {
    solitary = s.solitary;
    idle = quiet;
    unheard = s.unheard;
  }
  begin-IsSilent (calling _ _) branch call c quiet s = s

  command-IsSilent :
      (cmd : ClusterCommand) (c : Node lib foca) → IsSilent c → IsSilent (on_command lib foca cmd c)
  unfolding on_command
  command-IsSilent (broadcast_usage key usage) c s =
      elim (Result-cases (lib.encode_to_vec (usage_update c.identity.id key usage))) [
        | inl (bytes, e) ↦
            rw (e, on_command)
              (begin-IsSilent c.phase command (foca.add_broadcast bytes c.foca) c
                (keeps_broadcast bytes c.foca s.solitary) s)
        | inr (error, e) ↦ rw (e, on_command) s
      ]

  continue-IsSilent :
      (activity : Activity Foca Error lib.DecodeError) (c : Node lib foca)
      → IsIdle activity
      → IsSilent c
      → IsSilent (continue_call lib foca activity c)
  unfolding continue_call handle_runtime
  continue-IsSilent selecting c quiet s = s
  continue-IsSilent (calling branch (finished state runtime error)) c (solitary, e) s = record {
    solitary = solitary;
    idle = tt;
    unheard = rw (s.unheard, e) refl;
  }
  continue-IsSilent (calling branch (receive bytes sender next)) c quiet s = record {
    solitary = s.solitary;
    idle = quiet (receive_item lib bytes c.tx_state).0;
    unheard = s.unheard;
  }

  log-IsSilent :
      (queue : List Update) (c : Node lib foca) → IsSilent c → IsSilent (log_update queue c)
  unfolding log_update
  log-IsSilent [] c s = s
  log-IsSilent (update ∷ queue) c s = record {
    solitary = s.solitary;
    idle = s.idle;
    unheard = s.unheard;
  }

  step-IsSilent :
      (event : Event) (c : Node lib foca)
      → Own event
      → IsSilent c
      → IsSilent (step lib foca event c)
  unfolding step
  step-IsSilent tick c own s =
      begin-IsSilent c.phase timer (foca.gossip c.foca) c (gossips_to_nobody c.foca s.solitary) s
  step-IsSilent (received bytes) c own s = absurd own
  step-IsSilent receive_failed c own s = s
  step-IsSilent (commanded cmd) c own s = command-IsSilent cmd c s
  step-IsSilent continue c own s = continue-IsSilent c.phase c s.idle s
  step-IsSilent log c own s = log-IsSilent c.tx_state c s

  at-IsSilent :
      (i : ℕ) (c : Node lib foca) (nodes : ℕ → Node lib foca)
      → IsSilent c
      → ((j : ℕ) → IsSilent (nodes j))
      → (j : ℕ) → IsSilent (at lib foca i c nodes j)
  at-IsSilent i c nodes s others j = elim (Bool-cases (j == i)) [
    | inl same ↦ rw same s
    | inr other ↦ rw other (others j)
  ]

  reached-IsSilent :
      (start nodes : ℕ → Node lib foca)
      → ((i : ℕ) → IsSilent (start i))
      → Reaches lib foca start nodes
      → (i : ℕ) → IsSilent (nodes i)
  reached-IsSilent start _ s here = s
  reached-IsSilent start _ s (does {nodes} i event r own) =
      let before = reached-IsSilent start nodes s r in
      at-IsSilent i (step lib foca event (nodes i)) nodes
        (step-IsSilent event (nodes i) own (before i)) before
  reached-IsSilent start _ s (delivered {nodes} i j bytes r sent) =
      absurd (rw (reached-IsSilent start nodes s r j).unheard at sent)

  abbrev Made : {E : Type 0} → Result (Node lib foca) E → Type 0
  Made (ok c) = IsSilent c
  Made (err e) = Unit {0}

  new-IsSilent :
      {E : Type 0} (id : ℕ) (bind_addr : SocketAddr) (peers : List SocketAddr) (c : Node lib foca)
      → new lib foca {E = E} (ok tt) id bind_addr peers ≡ ok c
      → IsSilent c
  unfolding new
  new-IsSilent {E} id bind_addr peers c e =
      subst Made e (record { solitary = starts_alone _; idle = tt; unheard = refl })

  -- Whatever peers the nodes of a cluster are configured with, no node ever sends a datagram to another: if
  -- all are made by `new`, a node receives nothing but what one of them has sent, and foca sends nothing
  -- while it knows no other member, none of them has sent anything, whatever timers, commands and
  -- deliveries there are.
  pub silent :
      {E : Type 0} (id : ℕ → ℕ) (bind_addr : ℕ → SocketAddr) (peers : ℕ → List SocketAddr)
      (start nodes : ℕ → Node lib foca)
      → ((i : ℕ) → new lib foca {E = E} (ok tt) (id i) (bind_addr i) (peers i) ≡ ok (start i))
      → Reaches lib foca start nodes
      → (i : ℕ) → (nodes i).sent ≡ []
  silent id bind_addr peers start nodes made r i =
      (reached-IsSilent start nodes
        (λ i. new-IsSilent (id i) (bind_addr i) (peers i) (start i) (made i)) r i).unheard
