-- ===== src/Tests/Timers.antt =====
-- Two timers, for src/transport/data_loop_listener.cpp.
use commutil.Common.{refl, true, [], ◌∷◌, arith}
use commutil.Transport.Timers.{
  DataLoopListener, tt_one_shot, tt_periodic, find_timer, start_loop_timer, stop_loop_timer,
}
use commutil.Transport.Timers.Handles.{
  IsFresh, Starts, Stops, start_loop_timer-IsFresh, stop_loop_timer_lem,
}

abbrev timers : DataLoopListener
timers = record {
  timer_map =
      (4, record { timer_type = tt_one_shot; wake_up_millis = 10; period_millis = 0 })
      ∷ (3, record { timer_type = tt_periodic; wake_up_millis = 10; period_millis = 20 })
      ∷ [];
  next_timer_id = 5;
  closing = [];
  interrupts = [];
}

timers-IsFresh : IsFresh timers
timers-IsFresh =
    (omega arith, unfold find_timer in refl, (omega arith, unfold find_timer in refl, tt))

start_loop_timer-IsFresh_example : Starts 30 0 timers (start_loop_timer true true 30 0 timers)
start_loop_timer-IsFresh_example =
    start_loop_timer-IsFresh true true 30 0 timers timers-IsFresh (omega arith)

stop_loop_timer_lem_example :
    Stops true 3 timers (find_timer 3 timers.timer_map) (stop_loop_timer true 3 timers)
stop_loop_timer_lem_example = stop_loop_timer_lem true 3 timers timers-IsFresh
