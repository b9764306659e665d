-- ===== src/Msg/Multiplexer/Order.antt =====
-- src/msg/msg_multiplexer.cpp, lines 63-138: the order in which the events of a connection are handled.
use mathlib.Core.List.{reverse-append, reverse-reverse}
use commutil.Common.{
  ℕ, ◌<◌, ◌≡◌, inl, inr, refl, sym, ap, ◌∙◌, Bool, true, false, Option, none, some, List, [], ◌∷◌,
  ◌++◌, reverse, append_assoc, arith, length, get_elem?, set, ◌==◌, if◌then◌else◌, Bool-cases,
  ==_iff, ==_self, get_elem?-total, get_elem?-lt, get_elem?-set_self, get_elem?-set_ne, length-set,
}
use commutil.Err.{Out, ok, err, fault}
use commutil.Msg.Assembler.{MsgListener}
use commutil.Msg.Multiplexer.{
  MsgEvent, connection_index, MsgMultiplexer, queue_of, push_event, Served, handle_evt, drain,
  msg_task,
}
use commutil.Msg.Multiplexer.Stopping.{newest_is_stop, drain-newest}

-- Events that are pushed one after the other, by any of the threads.
unfoldable pub push_all : List MsgEvent → MsgMultiplexer → Out MsgMultiplexer (Unit {0})
push_all [] m = ok tt m
push_all (e ∷ es) m = elim (push_event e m) [
  | ok _ t ↦ push_all es t
  | err c t ↦ err c t
  | fault ↦ fault
]

abbrev pub assigned_to : ℕ → List ℕ → MsgEvent → Bool
assigned_to q connections e = elim (get_elem? connections (connection_index e)) [
  | none ↦ false
  | some k ↦ k == q
]

-- The events for a queue, in order, and those of a connection.
abbrev pub routed : ℕ → List ℕ → List MsgEvent → List MsgEvent
routed q connections [] = []
routed q connections (e ∷ es) =
    let rest = routed q connections es in if assigned_to q connections e then e ∷ rest else rest

abbrev pub events_of : ℕ → List MsgEvent → List MsgEvent
events_of c [] = []
events_of c (e ∷ es) =
    let rest = events_of c es in if connection_index e == c then e ∷ rest else rest

-- Each event is of a connection that has a queue.
abbrev pub Routable : MsgMultiplexer → List MsgEvent → Type 0
Routable m [] = Unit
Routable m (e ∷ es) =
    ((k : ℕ) × (queue_of e m ≡ some k) × (k < length m.msg_queues)) × Routable m es

-- The events stand in their queues, the newest at the front.
abbrev pub Queued : List MsgEvent → MsgMultiplexer → List (List MsgEvent) → Type 0
Queued es m queues =
    (length queues ≡ length m.msg_queues)
    × ((q : ℕ) (queue : List MsgEvent)
        → get_elem? m.msg_queues q ≡ some queue
        → get_elem? queues q ≡ some (reverse (routed q m.connection_map es) ++ queue))

abbrev pub with_queues : MsgMultiplexer → List (List MsgEvent) → MsgMultiplexer
with_queues m queues = record m { msg_queues = queues }

to_queue :
    (e : MsgEvent) (k q : ℕ) (connections : List ℕ)
    → get_elem? connections (connection_index e) ≡ some k
    → assigned_to q connections e ≡ (k == q)
to_queue e k q connections to = rw (to, assigned_to)

add_first : MsgEvent → Option (List MsgEvent) → Option (List MsgEvent)
add_first e none = none
add_first e (some queue) = some (e ∷ queue)

-- What a push does to each queue.
each_queue :
    (e : MsgEvent) (k : ℕ) (newest : List MsgEvent) (m : MsgMultiplexer)
    → get_elem? m.connection_map (connection_index e) ≡ some k
    → get_elem? m.msg_queues k ≡ some newest
    → (q : ℕ) (queue : List MsgEvent) → get_elem? m.msg_queues q ≡ some queue
    → get_elem? (set m.msg_queues k (e ∷ newest)) q
      ≡ some (reverse (routed q m.connection_map (e ∷ [])) ++ queue)
unfolding add_first
each_queue e k newest m to there q queue at = elim (Bool-cases (k == q)) [
  | inl same ↦ rw (to_queue e k q m.connection_map to ∙ same) (here ((==_iff k q).0 same))
  | inr differs ↦
      rw (to_queue e k q m.connection_map to ∙ differs) (
        get_elem?-set_ne m.msg_queues k q (e ∷ newest) (λ h. other ((==_iff k q).1 h) differs) ∙ at)
]
  where
    other : (k == q) ≡ true → (k == q) ≡ false → ⊥
    other h g = cc

    here : k ≡ q → get_elem? (set m.msg_queues k (e ∷ newest)) q ≡ some (e ∷ queue)
    here h =
        ap (get_elem? (set m.msg_queues k (e ∷ newest))) (sym h)
        ∙ get_elem?-set_self m.msg_queues k (e ∷ newest) (get_elem?-lt m.msg_queues k newest there)
        ∙ ap (add_first e) (sym there ∙ ap (get_elem? m.msg_queues) h ∙ at)

push_event_lem :
    (e : MsgEvent) (k : ℕ) (m : MsgMultiplexer)
    → queue_of e m ≡ some k
    → k < length m.msg_queues
    → (queues : List (List MsgEvent)) × (push_event e m ≡ ok tt (with_queues m queues))
      × Queued (e ∷ []) m queues
unfolding push_event
push_event_lem e k m to bound =
    let (queue, there) = get_elem?-total m.msg_queues k bound in
    (
      set m.msg_queues k (e ∷ queue),
      rw (to, push_event, there),
      (length-set m.msg_queues k (e ∷ queue), each_queue e k queue m (unfold queue_of in to) there),
    )

Routable-with_queues :
    (es : List MsgEvent) (m : MsgMultiplexer) (queues : List (List MsgEvent))
    → length queues ≡ length m.msg_queues
    → Routable m es
    → Routable (with_queues m queues) es
Routable-with_queues [] m queues count r = tt
Routable-with_queues (d ∷ es) m queues count ((k, to, bound), others) = (
  (k, unfold queue_of in to, omega (arith, count)),
  Routable-with_queues es m queues count others,
)

routed-cons :
    (q : ℕ) (connections : List ℕ) (e : MsgEvent) (es : List MsgEvent)
    → routed q connections (e ∷ es) ≡ routed q connections (e ∷ []) ++ routed q connections es
routed-cons q connections e es = elim (Bool-cases (assigned_to q connections e)) [
  | inl h ↦ rw h
  | inr h ↦ rw h
]

newer_first :
    (q : ℕ) (connections : List ℕ) (e : MsgEvent) (es queue : List MsgEvent)
    → reverse (routed q connections es) ++ (reverse (routed q connections (e ∷ [])) ++ queue)
      ≡ reverse (routed q connections (e ∷ es)) ++ queue
newer_first q connections e es queue =
    sym (
      append_assoc (reverse (routed q connections es)) (reverse (routed q connections (e ∷ [])))
        queue)
    ∙ ap (λ xs. xs ++ queue)
        (sym (reverse-append (routed q connections (e ∷ [])) (routed q connections es))
          ∙ ap reverse (sym (routed-cons q connections e es)))

-- Events that are pushed one after the other, for connections that have queues, stand in these queues
-- behind what was there, in the order of the calls.
push_all_lem :
    (es : List MsgEvent) (m : MsgMultiplexer)
    → Routable m es
    → (queues : List (List MsgEvent)) × (push_all es m ≡ ok tt (with_queues m queues))
      × Queued es m queues
unfolding push_all
push_all_lem [] m r = (m.msg_queues, refl, (refl, λ q queue at. at))
push_all_lem (e ∷ es) m ((k, to, bound), others) =
    let (queues, run, (count, each)) = push_event_lem e k m to bound in
    let (last, runs, (count', each')) =
      push_all_lem es (with_queues m queues) (Routable-with_queues es m queues count others) in
    (
      last,
      rw (run, push_all) runs,
      (
        count' ∙ count,
        λ q queue at.
            each' q (reverse (routed q m.connection_map (e ∷ [])) ++ queue) (each q queue at)
            ∙ ap (λ xs. some xs) (newer_first q m.connection_map e es queue),
      ),
    )

-- What the listener makes of events, one after the other, in the order of the list.
abbrev pub handled : {L : Type 0} → MsgListener L → List MsgEvent → Served L → Served L
handled listener [] s = s
handled listener (e ∷ es) s = handled listener es (handle_evt listener e s).1

drain-handled :
    {L : Type 0} (listener : MsgListener L) (es : List MsgEvent) (done : Bool) (s : Served L)
    → (drain listener es done s).1 ≡ handled listener es s
unfolding drain
drain-handled listener [] done s = refl
drain-handled listener (e ∷ es) done s =
    drain-handled listener es (handle_evt listener e s).0 (handle_evt listener e s).1

oldest_first :
    (newer earlier : List MsgEvent) → reverse (reverse newer ++ reverse earlier) ≡ earlier ++ newer
oldest_first newer earlier =
    reverse-append (reverse newer) (reverse earlier)
    ∙ ap (λ xs. reverse (reverse earlier) ++ xs) (reverse-reverse newer)
    ∙ ap (λ xs. xs ++ newer) (reverse-reverse earlier)

mine_too :
    (c q : ℕ) (connections : List ℕ) (e : MsgEvent)
    → get_elem? connections c ≡ some q
    → (connection_index e == c) ≡ true
    → assigned_to q connections e ≡ true
mine_too c q connections e at own =
    to_queue e q q connections
      (ap (get_elem? connections) ((==_iff (connection_index e) c).0 own) ∙ at)
    ∙ ==_self q

-- The events of a connection among those for its queue.
events_of-routed :
    (c q : ℕ) (connections : List ℕ) (es : List MsgEvent)
    → get_elem? connections c ≡ some q
    → events_of c (routed q connections es) ≡ events_of c es
events_of-routed c q connections [] at = refl
events_of-routed c q connections (e ∷ es) at = elim (Bool-cases (connection_index e == c)) [
  | inl own ↦
      rw (mine_too c q connections e at own, own)
        (ap (λ xs. e ∷ xs) (events_of-routed c q connections es at))
  | inr other ↦ elim (Bool-cases (assigned_to q connections e)) [
    | inl here ↦ rw (here, other) (events_of-routed c q connections es at)
    | inr away ↦ rw (away, other) (events_of-routed c q connections es at)
  ]
]

-- What `msgTask` makes of its queue `now`, and of those that it finds at later ends of the wait.
abbrev pub HandlesInOrder :
    {L : Type 0}
    → MsgListener L
    → ℕ
    → List ℕ
    → List MsgEvent
    → List MsgEvent
    → List MsgEvent
    → Type 0
HandlesInOrder {L} listener q connections es earlier now =
    ((s : Served L) (later : List (List MsgEvent))
      → msg_task listener (now ∷ later) s ≡ (
          let t = handled listener (earlier ++ routed q connections es) s in
          let rest = msg_task listener later t in
          elim (newest_is_stop now) [ true ↦ (true, t) | false ↦ rest ]))
    × ((c : ℕ)
        → get_elem? connections c ≡ some q
        → events_of c (routed q connections es) ≡ events_of c es)

task_handles :
    {L : Type 0} (listener : MsgListener L) (newer earlier : List MsgEvent) (s : Served L)
    (later : List (List MsgEvent))
    → msg_task listener ((reverse newer ++ reverse earlier) ∷ later) s ≡ (
        let t = handled listener (earlier ++ newer) s in
        let rest = msg_task listener later t in
        elim (newest_is_stop (reverse newer ++ reverse earlier)) [
          | true ↦ (true, t)
          | false ↦ rest
        ])
unfolding msg_task
task_handles listener newer earlier s later =
    let now = reverse newer ++ reverse earlier in
    let made : (drain listener (reverse now) false s).1 ≡ handled listener (earlier ++ newer) s =
      drain-handled listener (reverse now) false s
      ∙ ap (λ es. handled listener es s) (oldest_first newer earlier) in
    elim (Bool-cases (newest_is_stop now)) [
      | inl stops ↦
          rw (drain-newest listener now s ∙ stops, msg_task, stops) (ap (λ t. (true, t)) made)
      | inr goes ↦
          rw (drain-newest listener now s ∙ goes, msg_task, goes)
            (ap (msg_task listener later) made)
    ]

-- Events that are pushed one after the other for connections with queues that exist, from any
-- threads, are handled by `msgTask`, for the queue of each connection, in the order of the calls and
-- after the events that stood in the queue before, the newest at its front. The task then ends if the
-- newest of all is a stop, and goes on with the queue that it finds at the next end of its wait if not.
-- Among the events handled are all those of each connection of the queue, in order.
pub push_all-HandlesInOrder :
    {L : Type 0} (listener : MsgListener L) (es : List MsgEvent) (m : MsgMultiplexer) (q : ℕ)
    (earlier : List MsgEvent)
    → Routable m es
    → get_elem? m.msg_queues q ≡ some (reverse earlier)
    → (queues : List (List MsgEvent)) × (push_all es m ≡ ok tt (with_queues m queues))
      × ((now : List MsgEvent) × (get_elem? queues q ≡ some now)
          × HandlesInOrder listener q m.connection_map es earlier now)
push_all-HandlesInOrder listener es m q earlier r at =
    let (queues, run, (count, each)) = push_all_lem es m r in
    (
      queues,
      run,
      (
        reverse (routed q m.connection_map es) ++ reverse earlier,
        each q (reverse earlier) at,
        (
          (λ s later. task_handles listener (routed q m.connection_map es) earlier s later),
          (λ c mine. events_of-routed c q m.connection_map es mine),
        ),
      ),
    )
