-- ===== src/Tests/Queues.antt =====
-- Two queues for three connections, for src/msg/msg_multiplexer.cpp.
use commutil.Common.{ℕ, ◌≡◌, refl, true, false, List, [], ◌∷◌, some, arith, get_elem?}
use commutil.Err.{ok}
use commutil.Msg.Assembler.{MsgListener, msg_can_delete}
use commutil.Msg.Multiplexer.{
  MsgEvent, MsgMultiplexer, et_connect, et_disconnect, et_stop, queue_of, Served, msg_task,
}
use commutil.Msg.Multiplexer.Order.{HandlesInOrder, push_all, with_queues, push_all-HandlesInOrder}
use commutil.Msg.Multiplexer.Stopping.{msg_task-newest}

-- A listener that keeps the connections it hears of.
abbrev recorder : MsgListener (List ℕ)
recorder = record {
  on_connect = λ c status heard. (true, c ∷ heard);
  on_disconnect = λ c heard. c ∷ heard;
  on_msg = λ c m heard. (msg_can_delete, c ∷ heard);
}

abbrev two_queues : MsgMultiplexer
two_queues = record {
  concurrency = 2;
  next_queue = 1;
  connection_map = 0 ∷ 1 ∷ 0 ∷ [];
  msg_queues = (et_connect 0 0 ∷ []) ∷ [] ∷ [];
  msg_threads = 2;
}

abbrev events : List MsgEvent
events = et_connect 2 0 ∷ et_connect 1 0 ∷ et_disconnect 0 ∷ et_disconnect 2 ∷ []

push_all-HandlesInOrder_example :
    (queues : List (List MsgEvent)) × (push_all events two_queues
      ≡ ok tt (with_queues two_queues queues))
    × ((now : List MsgEvent) × (get_elem? queues 0 ≡ some now)
        × HandlesInOrder recorder 0 (0 ∷ 1 ∷ 0 ∷ []) events (et_connect 0 0 ∷ []) now)
push_all-HandlesInOrder_example =
    push_all-HandlesInOrder recorder events two_queues 0 (et_connect 0 0 ∷ [])
      (
        (0, unfold queue_of in refl, omega arith),
        (
          (1, unfold queue_of in refl, omega arith),
          (
            (0, unfold queue_of in refl, omega arith),
            ((0, unfold queue_of in refl, omega arith), tt),
          ),
        ),
      )
      refl

abbrev quiet : Served (List ℕ)
quiet = record { user = []; freed = [] }

-- A disconnect comes behind the stop, and both are there when the thread wakes up.
abbrev overtaken : List (List MsgEvent)
overtaken = (et_disconnect 1 ∷ et_stop 0 ∷ []) ∷ []

msg_task-newest_example : (msg_task recorder overtaken quiet).0 ≡ false
msg_task-newest_example = msg_task-newest recorder overtaken quiet
