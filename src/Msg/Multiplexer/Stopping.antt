-- ===== src/Msg/Multiplexer/Stopping.antt =====
-- src/msg/msg_multiplexer.cpp, lines 50-61 and 98-138: the end of a thread.
use mathlib.Core.List.{reverse-cons}
use commutil.Common.{
  ◌≡◌, inl, inr, refl, ap, ◌∙◌, Bool, true, false, List, [], ◌∷◌, ◌++◌, reverse, Bool-cases,
}
use commutil.Msg.Assembler.{MsgListener}
use commutil.Msg.Multiplexer.{
  MsgEvent, et_connect, et_disconnect, et_msg, et_stop, Served, handle_evt, drain, msg_task,
}

abbrev pub is_stop : MsgEvent → Bool
is_stop (et_connect c status) = false
is_stop (et_disconnect c) = false
is_stop (et_msg c m) = false
is_stop (et_stop c) = true

-- Whether the newest event of the queue, at its front, is a stop.
abbrev pub newest_is_stop : List MsgEvent → Bool
newest_is_stop [] = false
newest_is_stop (e ∷ queue) = is_stop e

abbrev pub some_newest_is_stop : List (List MsgEvent) → Bool
some_newest_is_stop [] = false
some_newest_is_stop (queue ∷ later) =
    let rest = some_newest_is_stop later in
    elim (newest_is_stop queue) [ true ↦ true | false ↦ rest ]

module _ {L : Type 0} (listener : MsgListener L) where
  handle_evt-is_stop : (e : MsgEvent) (s : Served L) → (handle_evt listener e s).0 ≡ is_stop e
  unfolding handle_evt
  handle_evt-is_stop (et_connect c status) s = refl
  handle_evt-is_stop (et_disconnect c) s = refl
  handle_evt-is_stop (et_msg c m) s = refl
  handle_evt-is_stop (et_stop c) s = refl

  drain_last :
      (es : List MsgEvent) (e : MsgEvent) (done : Bool) (s : Served L)
      → (drain listener (es ++ e ∷ []) done s).0 ≡ is_stop e
  unfolding drain
  drain_last [] e done s = handle_evt-is_stop e s
  drain_last (d ∷ es) e done s =
      drain_last es e (handle_evt listener d s).0 (handle_evt listener d s).1

  pub drain-newest :
      (queue : List MsgEvent) (s : Served L)
      → (drain listener (reverse queue) false s).0 ≡ newest_is_stop queue
  unfolding drain
  drain-newest [] s = refl
  drain-newest (e ∷ queue) s =
      ap (λ es. (drain listener es false s).0) (reverse-cons e queue)
      ∙ drain_last (reverse queue) e false s

  -- A thread ends exactly if, at the end of some wait, the newest event of its queue is a stop: a stop
  -- behind which another event was queued before the thread woke up does not end it.
  pub msg_task-newest :
      (queues : List (List MsgEvent)) (s : Served L)
      → (msg_task listener queues s).0 ≡ some_newest_is_stop queues
  unfolding msg_task
  msg_task-newest [] s = refl
  msg_task-newest (queue ∷ later) s = elim (Bool-cases (newest_is_stop queue)) [
    | inl stops ↦ rw (drain-newest queue s ∙ stops, msg_task, stops, some_newest_is_stop)
    | inr goes ↦
        rw (drain-newest queue s ∙ goes, msg_task, goes, some_newest_is_stop)
          (msg_task-newest later (drain listener (reverse queue) false s).1)
  ]
