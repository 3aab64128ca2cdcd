-- ===== src/Cluster/Updates.antt =====
-- The updates on their way from the gossip of src/cluster/mod.rs to the log of src/main.rs.
use mathlib.Core.List.{append_assoc, append-nil, nil-sublist}
use mathlib.Core.List.{Sublist}
use mathlib.Core.List.Sublist
use layer4_lb.Prelude.{
  ℕ, ◌≤◌, ◌≡◌, refl, ap, subst, ◌∙◌, inl, inr, false, List, [], ◌∷◌, ◌++◌, ok, err, Result-cases,
  length, length-append, arith, Bool-cases, ltb, ltb→lt, lt→ltb,
}
use layer4_lb.Cluster.{
  usage_update, ClusterCommand, broadcast_usage, BincodeLib, Update, capacity, try_send,
  receive_item,
}
use layer4_lb.Cluster.Node.{
  Branch, timer, datagram, command, Call, Event, tick, received, receive_failed, commanded,
  continue, log, Activity, selecting, calling, finished, receive, FocaLib, Node, on_command,
  continue_call, log_update, step, run, begin, handle_runtime,
}

-- Of the lists of what was logged and what waits to be, before and after a part of a run in which these
-- updates arrive: the order is kept and nothing is made up, the channel stays within its capacity, and
-- all is there while there is room.
abbrev pub Flow : List Update → List Update → List Update → List Update → List Update → Type 0
Flow updates logged queue logged' queue' =
    Sublist (logged' ++ queue') (logged ++ queue ++ updates)
    × (length queue ≤ capacity → length queue' ≤ capacity)
    × (length (logged ++ queue ++ updates) ≤ capacity
        → logged' ++ queue' ≡ logged ++ queue ++ updates)

Flow-refl : (logged queue : List Update) → Flow [] logged queue logged queue
Flow-refl logged queue =
    rw (append-nil (logged ++ queue)) (Sublist.refl (logged ++ queue), λ few. few, λ _. refl)

Flow-log :
    (update : Update) (logged queue : List Update)
    → Flow [] logged (update ∷ queue) (logged ++ update ∷ []) queue
Flow-log update logged queue =
    rw (append-nil (logged ++ update ∷ queue), append_assoc logged (update ∷ []) queue)
      (Sublist.refl (logged ++ update ∷ queue), λ few. omega (arith, few), λ _. refl)

Sublist-append : (xs ys : List Update) → Sublist xs (xs ++ ys)
Sublist-append xs ys =
    subst (λ l. Sublist l (xs ++ ys)) (append-nil xs)
      (Sublist.append (Sublist.refl xs) (nil-sublist ys))

too_many :
    (update : Update) (logged queue : List Update)
    → ltb (length queue) capacity ≡ false
    → ¬ (length (logged ++ queue ++ update ∷ []) ≤ capacity)
too_many update logged queue full few = ground (
  arith,
  full,
  few,
  length-append (logged ++ queue) (update ∷ []),
  length-append logged queue,
  lt→ltb (length queue) capacity,
)

Flow-try_send :
    (update : Update) (logged queue : List Update)
    → Flow (update ∷ []) logged queue logged (try_send update queue)
unfolding try_send
Flow-try_send update logged queue = elim (Bool-cases (ltb (length queue) capacity)) [
  | inl room ↦
      rw (room, ← append_assoc logged queue (update ∷ []))
        (
          Sublist.refl (logged ++ queue ++ update ∷ []),
          λ few.
              omega (
                arith,
                few,
                ltb→lt (length queue) capacity room,
                length-append queue (update ∷ []),
              ),
          λ _. refl,
        )
  | inr full ↦ rw full (
    Sublist-append (logged ++ queue) (update ∷ []),
    λ few. few,
    λ few. absurd (too_many update logged queue full few),
  )
]

Flow-trans :
    (us vs l q l' q' l'' q'' : List Update)
    → Flow us l q l' q'
    → Flow vs l' q' l'' q''
    → Flow (us ++ vs) l q l'' q''
Flow-trans us vs l q l' q' l'' q'' (s, n, e) (s', n', e') = rw (← append_assoc (l ++ q) us vs) (
  Sublist.trans s' (Sublist.append s (Sublist.refl vs)),
  λ few. n' (n few),
  λ few.
      let first = e (omega (arith, few, length-append (l ++ q ++ us) vs)) in
      let same : l' ++ q' ++ vs ≡ l ++ q ++ us ++ vs = ap (λ (xs : List Update). xs ++ vs) first in
      e' (rw same few) ∙ same,
)

-- The updates that a received item stands for, and those that reach the handler in a run.
module _ (lib : BincodeLib) (foca : FocaLib lib.DecodeError) where
  open lib use {DecodeError, decode_from_slice}
  open foca use {Foca, Error}

  abbrev pub update_of : List ℕ → List Update
  update_of bytes = elim (decode_from_slice bytes) [
    | err _ ↦ []
    | ok (usage_update node_id key usage, _) ↦ (node_id, key, usage) ∷ []
  ]

  abbrev pub arriving : Event → Activity Foca Error DecodeError → List Update
  arriving continue (calling branch (receive bytes sender next)) = update_of bytes
  arriving event activity = []

  abbrev pub arrivals : List Event → Node lib foca → List Update
  arrivals [] c = []
  arrivals (event ∷ events) c = arriving event c.phase ++ arrivals events (step lib foca event c)

  abbrev pub Kept : List Update → Node lib foca → Node lib foca → Type 0
  Kept updates c c' = Flow updates c.logged c.tx_state c'.logged c'.tx_state

  item-Kept :
      (bytes : List ℕ) (c : Node lib foca)
      → Flow (update_of bytes) c.logged c.tx_state c.logged (receive_item lib bytes c.tx_state).1
  unfolding receive_item
  item-Kept bytes c = elim (Result-cases (decode_from_slice bytes)) [
    | inl ((usage_update node_id key usage, _), e) ↦
        rw (e, update_of, receive_item) (Flow-try_send (node_id, key, usage) c.logged c.tx_state)
    | inr (error, e) ↦ rw (e, update_of, receive_item) (Flow-refl c.logged c.tx_state)
  ]

  begin-Kept :
      (activity : Activity Foca Error DecodeError) (branch : Branch)
      (call : Call Foca Error DecodeError) (c : Node lib foca)
      → Kept [] c (begin activity branch call c)
  unfolding begin
  begin-Kept selecting branch call c = Flow-refl c.logged c.tx_state
  begin-Kept (calling _ _) branch call c = Flow-refl c.logged c.tx_state

  command-Kept : (cmd : ClusterCommand) (c : Node lib foca) → Kept [] c (on_command lib foca cmd c)
  unfolding on_command
  command-Kept (broadcast_usage key usage) c =
      elim (Result-cases (lib.encode_to_vec (usage_update c.identity.id key usage))) [
        | inl (bytes, e) ↦
            rw (e, on_command) (begin-Kept c.phase command (foca.add_broadcast bytes c.foca) c)
        | inr (error, e) ↦ rw (e, on_command) (Flow-refl c.logged c.tx_state)
      ]

  continue-Kept :
      (activity : Activity Foca Error DecodeError) (c : Node lib foca)
      → Kept (arriving continue activity) c (continue_call lib foca activity c)
  unfolding continue_call handle_runtime
  continue-Kept selecting c = Flow-refl c.logged c.tx_state
  continue-Kept (calling branch (finished state runtime error)) c = Flow-refl c.logged c.tx_state
  continue-Kept (calling branch (receive bytes sender next)) c = item-Kept bytes c

  log-Kept :
      (queue : List Update) (c : Node lib foca)
      → c.tx_state ≡ queue
      → Kept [] c (log_update queue c)
  unfolding log_update
  log-Kept [] c e = Flow-refl c.logged c.tx_state
  log-Kept (update ∷ queue) c e = rw e (Flow-log update c.logged queue)

  step-Kept :
      (event : Event) (c : Node lib foca) → Kept (arriving event c.phase) c (step lib foca event c)
  unfolding step
  step-Kept tick c = begin-Kept c.phase timer (foca.gossip c.foca) c
  step-Kept (received bytes) c = begin-Kept c.phase datagram (foca.handle_data bytes c.foca) c
  step-Kept receive_failed c = Flow-refl c.logged c.tx_state
  step-Kept (commanded cmd) c = command-Kept cmd c
  step-Kept continue c = continue-Kept c.phase c
  step-Kept log c = log-Kept c.tx_state c refl

  -- The log has, with what waits for it, what was there before and the updates that arrived, in their
  -- order, some of them left out; no more than 1000 wait if no more did before; and all are there if they
  -- are at most 1000 together.
  pub run-Kept :
      (events : List Event) (c : Node lib foca) → Kept (arrivals events c) c (run lib foca events c)
  unfolding run
  run-Kept [] c = Flow-refl c.logged c.tx_state
  run-Kept (event ∷ events) c =
      let c' = step lib foca event c in
      let c'' = run lib foca events c' in
      Flow-trans (arriving event c.phase) (arrivals events c') c.logged c.tx_state c'.logged
        c'.tx_state c''.logged c''.tx_state (step-Kept event c) (run-Kept events c')
