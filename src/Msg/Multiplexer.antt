-- ===== src/Msg/Multiplexer.antt =====
-- inc/msg/msg_multiplexer.h, src/msg/msg_multiplexer.cpp: the events of the connections, in queues that threads of
-- their own serve. A call runs under the lock of the queue that it changes.
pub mod Order
pub mod Stopping
use commutil.Common.{
  ℕ, zero, suc, ◌+◌, ◌-◌, ◌%◌, Bool, true, false, Option, none, some, List, [], ◌∷◌, ◌++◌, reverse,
  length, take, get_elem?, set, replicate, ltb, ◌==◌, if◌then◌else◌, u32_mod,
}
use commutil.Err.{e_nomem, Out, ok, err, fault}
use commutil.Msg.Message.{Msg}
use commutil.Msg.Assembler.{MsgAction, msg_can_delete, msg_cannot_delete, can_delete, MsgListener}

-- `MsgEvent`, with the index of the connection; a connect carries its status as a word.
pub data MsgEvent : Type 0 where
  et_connect : ℕ → ℕ → MsgEvent
  et_disconnect : ℕ → MsgEvent
  et_msg : ℕ → Msg → MsgEvent
  et_stop : ℕ → MsgEvent

abbrev pub connection_index : MsgEvent → ℕ
connection_index (et_connect index status) = index
connection_index (et_disconnect index) = index
connection_index (et_msg index m) = index
connection_index (et_stop index) = index

-- Each queue is a list from its front on.
pub record MsgMultiplexer : Type 0 where
  pub concurrency : ℕ
  pub next_queue : ℕ
  pub connection_map : List ℕ
  pub msg_queues : List (List MsgEvent)
  pub msg_threads : ℕ

abbrev pub unassigned : ℕ
unassigned = u32_mod - 1

-- `std::vector::resize` with a value for new elements.
abbrev pub resize {ℓ} : {A : Type ℓ} → List A → ℕ → A → List A
resize xs n v = if ltb (length xs) n then xs ++ replicate (n - length xs) v else take n xs

-- `room` tells whether there is memory for a queue.
unfoldable pub all_room : (ℕ → Bool) → ℕ → Bool
all_room room zero = true
all_room room (suc n) = if all_room room n then room n else false

unfoldable pub initialize : (ℕ → Bool) → ℕ → ℕ → MsgMultiplexer → Out MsgMultiplexer (Unit {0})
unfolding all_room
initialize room max_connections concurrency m =
    let t = record m {
      concurrency = concurrency;
      connection_map = resize m.connection_map max_connections unassigned;
    } in
    if all_room room concurrency
    then ok tt (record t { msg_queues = replicate concurrency [] })
    else err e_nomem (record t { msg_queues = [] })

-- The queues are deleted by their count, so that there must be as many.
unfoldable pub terminate : MsgMultiplexer → Out MsgMultiplexer (Unit {0})
terminate m =
    if ltb (length m.msg_queues) m.concurrency then fault else ok tt (record m { msg_queues = [] })

unfoldable pub start : MsgMultiplexer → MsgMultiplexer
start m = record m { msg_threads = m.msg_threads + m.concurrency }

-- The first loop of `stop`, over the queues from an index on; each gets an event at its front.
unfoldable pub push_stops : ℕ → List (List MsgEvent) → List (List MsgEvent)
push_stops i [] = []
push_stops i (q ∷ qs) = (et_stop i ∷ q) ∷ push_stops (i + 1) qs

-- `stop`: each thread is told to stop, and joined. The first argument tells whether the threads end; `none`: the
-- join does not return.
unfoldable pub stop : Bool → MsgMultiplexer → Option (Out MsgMultiplexer (Unit {0}))
unfolding push_stops
stop ended m =
    if ltb (length m.msg_queues) m.concurrency
    then some fault
    else (let t = record m { msg_queues = push_stops 0 m.msg_queues; msg_threads = 0 } in
        if ended then some (ok tt t) else none)

-- The queue that an event goes to; the index of a connection that is not there is out of range.
unfoldable pub queue_of : MsgEvent → MsgMultiplexer → Option ℕ
queue_of e m = get_elem? m.connection_map (connection_index e)

unfoldable pub push_event : MsgEvent → MsgMultiplexer → Out MsgMultiplexer (Unit {0})
unfolding queue_of
push_event e m = elim (queue_of e m) [
  | none ↦ fault
  | some queue_id ↦ elim (get_elem? m.msg_queues queue_id) [
    | none ↦ fault
    | some q ↦ ok tt (record m { msg_queues = set m.msg_queues queue_id (e ∷ q) })
  ]
]

-- A remainder by zero is not defined.
unfoldable pub assign_queue_id : ℕ → MsgMultiplexer → Out MsgMultiplexer (Unit {0})
assign_queue_id connection m =
    if m.concurrency == 0
    then fault
    else if ltb connection (length m.connection_map)
    then ok tt (record m {
      next_queue = (m.next_queue + 1) % u32_mod % m.concurrency;
      connection_map = set m.connection_map connection m.next_queue;
    })
    else fault

unfoldable pub on_connect : ℕ → ℕ → MsgMultiplexer → Out MsgMultiplexer Bool
unfolding assign_queue_id push_event
on_connect connection status m =
    if status == 0
    then elim (assign_queue_id connection m) [
      | ok _ t ↦ elim (push_event (et_connect connection status) t) [
        | ok _ u ↦ ok true u
        | err e u ↦ err e u
        | fault ↦ fault
      ]
      | err e t ↦ err e t
      | fault ↦ fault
    ]
    else ok true m

unfoldable pub on_disconnect : ℕ → MsgMultiplexer → Out MsgMultiplexer (Unit {0})
unfolding push_event
on_disconnect connection m = push_event (et_disconnect connection) m

unfoldable pub on_msg : ℕ → Msg → Bool → MsgMultiplexer → Out MsgMultiplexer MsgAction
unfolding push_event
on_msg connection msg false m = ok msg_can_delete m
on_msg connection msg true m = elim (push_event (et_msg connection msg) m) [
  | ok _ t ↦ ok msg_cannot_delete t
  | err e t ↦ err e t
  | fault ↦ fault
]

-- The listener's state, and the messages that were freed after they were handled, in order.
pub record Served (L : Type 0) : Type 0 where
  pub user : L
  pub freed : List Msg

module _ {L : Type 0} (listener : MsgListener L) where
  -- The result is whether the thread is to stop.
  unfoldable pub handle_evt : MsgEvent → Served L → Bool × Served L
  handle_evt (et_connect c status) s =
      let (accepted, user) = listener.on_connect c status s.user in
      (false, record s { user = user })
  handle_evt (et_disconnect c) s = (false, record s { user = listener.on_disconnect c s.user })
  handle_evt (et_msg c m) s =
      let (action, user) = listener.on_msg c m s.user in
      (
        false,
        record { user = user; freed = if can_delete action then s.freed ++ m ∷ [] else s.freed },
      )
  handle_evt (et_stop c) s = (true, s)

  -- The inner loop of `msgTask`, over the events from the back of the queue on, with `done`.
  unfoldable pub drain : List MsgEvent → Bool → Served L → Bool × Served L
  unfolding handle_evt
  drain [] done s = (done, s)
  drain (e ∷ es) done s = let (d, t) = handle_evt e s in drain es d t

  -- `msgTask`, for the queue as it is found at each end of the wait; the lock is held while it is
  -- drained. The result is whether the task has ended.
  unfoldable pub msg_task : List (List MsgEvent) → Served L → Bool × Served L
  unfolding drain
  msg_task [] s = (false, s)
  msg_task (queue ∷ later) s =
      let (done, t) = drain (reverse queue) false s in
      let rest = msg_task later t in elim done [ true ↦ (true, t) | false ↦ rest ]
