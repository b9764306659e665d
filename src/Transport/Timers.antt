-- ===== src/Transport/Timers.antt =====
-- inc/transport/data_loop_listener.h, src/transport/data_loop_listener.cpp: the timers and the interrupts of a listener
-- of libuv's loop. The answers of libuv's calls, and whether there is memory, are arguments.
pub mod Handles
use commutil.Common.{
  ℕ, Bool, true, false, not, Option, none, some, List, [], ◌∷◌, ◌++◌, ◌==◌, if◌then◌else◌, add64,
}
use commutil.Err.{
  e_nomem, e_not_found, e_invalid_argument, e_internal_error, e_system_failure, Out, ok, err, fault,
}

pub data TimerType : Type 0 where
  tt_none tt_one_shot tt_periodic : TimerType

-- What was last asked of libuv goes with the type.
pub record TimerData : Type 0 where
  pub timer_type : TimerType
  pub wake_up_millis : ℕ
  pub period_millis : ℕ

-- `closing` are the timers whose handles, in the memory of their entries, `uv_close` was called for;
-- `interrupts` is the user data of the interrupts that the loop has not taken up, in order.
pub record DataLoopListener : Type 0 where
  pub timer_map : List (ℕ × TimerData)
  pub next_timer_id : ℕ
  pub closing : List ℕ
  pub interrupts : List (Option ℕ)

unfoldable pub find_timer : ℕ → List (ℕ × TimerData) → Option TimerData
find_timer id [] = none
find_timer id (entry ∷ rest) = if entry.0 == id then some entry.1 else find_timer id rest

unfoldable pub erase_timer : ℕ → List (ℕ × TimerData) → List (ℕ × TimerData)
erase_timer id [] = []
erase_timer id (entry ∷ rest) = if entry.0 == id then rest else entry ∷ erase_timer id rest

unfoldable pub put_timer : ℕ → TimerData → List (ℕ × TimerData) → List (ℕ × TimerData)
put_timer id t [] = []
put_timer id t (entry ∷ rest) =
    if entry.0 == id then (id, t) ∷ rest else entry ∷ put_timer id t rest

abbrev pub type_for : ℕ → TimerType
type_for period = if period == 0 then tt_one_shot else tt_periodic

-- An entry that libuv does not start is erased again.
unfoldable pub start_loop_timer : Bool → Bool → ℕ → ℕ → DataLoopListener → Out DataLoopListener ℕ
start_loop_timer init started wake_up period s =
    let id = s.next_timer_id in
    let t = record s { next_timer_id = add64 s.next_timer_id 1 } in
    elim (find_timer id s.timer_map) [
      | some _ ↦ err e_internal_error t
      | none ↦
          if not init
          then err e_system_failure t
          else if not started
          then err e_system_failure (record t { closing = id ∷ s.closing })
          else ok id (record t {
            timer_map =
                (
                  id,
                  record {
                    timer_type = type_for period;
                    wake_up_millis = wake_up;
                    period_millis = period;
                  },
                )
                ∷ s.timer_map;
          })
    ]

abbrev pub is_one_shot : TimerType → Bool
is_one_shot tt_none = false
is_one_shot tt_one_shot = true
is_one_shot tt_periodic = false

abbrev pub is_periodic : TimerType → Bool
is_periodic tt_none = false
is_periodic tt_one_shot = false
is_periodic tt_periodic = true

unfoldable pub set_next_loop_timer :
    Bool → ℕ → ℕ → DataLoopListener → Out DataLoopListener (Unit {0})
set_next_loop_timer started id wake_up s = elim (find_timer id s.timer_map) [
  | none ↦ err e_not_found s
  | some t ↦
      if not (is_one_shot t.timer_type)
      then err e_invalid_argument s
      else if not started
      then err e_system_failure s
      else ok tt (record s {
        timer_map =
            put_timer id (record t { wake_up_millis = wake_up; period_millis = 0 }) s.timer_map;
      })
]

unfoldable pub set_periodic_loop_timer : ℕ → ℕ → DataLoopListener → Out DataLoopListener (Unit {0})
set_periodic_loop_timer id period s = elim (find_timer id s.timer_map) [
  | none ↦ err e_not_found s
  | some t ↦
      if not (is_periodic t.timer_type)
      then err e_invalid_argument s
      else ok tt
          (record s { timer_map = put_timer id (record t { period_millis = period }) s.timer_map })
]

unfoldable pub stop_loop_timer : Bool → ℕ → DataLoopListener → Out DataLoopListener (Unit {0})
stop_loop_timer stopped id s = elim (find_timer id s.timer_map) [
  | none ↦ err e_not_found s
  | some t ↦
      if not (is_periodic t.timer_type)
      then err e_invalid_argument s
      else if not stopped
      then err e_system_failure s
      else ok tt (record s { timer_map = erase_timer id s.timer_map; closing = id ∷ s.closing })
]

-- There must be memory for the request and for the pair that goes with it.
unfoldable pub interrupt_loop :
    Bool → Bool → Bool → Bool → Option ℕ → DataLoopListener → Out DataLoopListener (Unit {0})
interrupt_loop request_room pair_room init sent user_data s =
    if not request_room
    then err e_nomem s
    else if not pair_room
    then err e_nomem s
    else if not init
    then err e_system_failure s
    else if not sent
    then err e_system_failure s
    else ok tt (record s { interrupts = s.interrupts ++ user_data ∷ [] })

-- The callbacks of libuv, on the state of the derived class.
module _ {L : Type 0} (on_loop_timer : ℕ → L → L) (on_loop_interrupt : Option ℕ → L → L) where
  unfoldable pub on_timer : ℕ → L × DataLoopListener → Out (L × DataLoopListener) (Unit {0})
  on_timer id (user, s) = elim (find_timer id s.timer_map) [
    | none ↦ fault
    | some t ↦ ok tt (on_loop_timer id user, s)
  ]

  unfoldable pub on_interrupt : L × DataLoopListener → Out (L × DataLoopListener) (Unit {0})
  on_interrupt (user, s) = elim s.interrupts [
    | [] ↦ fault
    | user_data ∷ rest ↦ ok tt (on_loop_interrupt user_data user, record s { interrupts = rest })
  ]
