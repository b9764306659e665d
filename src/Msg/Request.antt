-- ===== src/Msg/Request.antt =====
-- inc/msg/msg_request.h, src/msg/msg_request.cpp: one slot of the request pool. Each call runs under the slot's
-- lock; the clock is an argument of the calls that read it.
use commutil.Common.{ℕ, Bool, true, false, ◌&&◌, Option, none, some, if◌then◌else◌}
use commutil.Err.{e_invalid_state, e_timed_out, e_io_canceled, Out, ok, err}
use commutil.Msg.Message.{Msg}

pub data MsgRequestStatus : Type 0 where
  rs_idle rs_pending rs_arrived rs_aborted : MsgRequestStatus

-- The two messages are pointers, which may be null.
pub record MsgRequest : Type 0 where
  pub request_id : ℕ
  pub request_status : MsgRequestStatus
  pub flags : ℕ
  pub request : Option Msg
  pub response : Option Msg
  pub request_time_millis : ℕ
  pub resend_time_millis : ℕ

unfoldable pub make : MsgRequest
make = record {
  request_id = 0;
  request_status = rs_idle;
  flags = 0;
  request = none;
  response = none;
  request_time_millis = 0;
  resend_time_millis = 0;
}

abbrev pub idle : MsgRequestStatus → Bool
idle rs_idle = true
idle rs_pending = false
idle rs_arrived = false
idle rs_aborted = false

abbrev pub pending : MsgRequestStatus → Bool
pending rs_idle = false
pending rs_pending = true
pending rs_arrived = false
pending rs_aborted = false

-- The condition that `waitResponse` waits for.
abbrev pub settled : MsgRequestStatus → Bool
settled rs_idle = false
settled rs_pending = false
settled rs_arrived = true
settled rs_aborted = true

unfoldable pub is_vacant : MsgRequest → Bool
is_vacant r = idle r.request_status

unfoldable pub is_pending : MsgRequest → Bool
is_pending r = pending r.request_status

-- With no other thread between the load and the exchange, the exchange succeeds.
unfoldable pub try_grab : ℕ → MsgRequest → Bool × MsgRequest
try_grab request_id r =
    if idle r.request_status
    then (true, record r { request_id = request_id; request_status = rs_pending })
    else (false, r)

unfoldable pub release : MsgRequest → MsgRequest
release r = record r { request_status = rs_idle }

unfoldable pub set_request : ℕ → Option Msg → MsgRequest → MsgRequest
set_request now request r = record r {
  request = request;
  request_time_millis = now;
  resend_time_millis = now;
}

unfoldable pub set_flags : ℕ → MsgRequest → MsgRequest
set_flags flags r = record r { flags = flags }

unfoldable pub clear_request : MsgRequest → Option Msg × MsgRequest
clear_request r = (r.request, record r { request = none; request_time_millis = 0 })

unfoldable pub update_resend_time : ℕ → MsgRequest → MsgRequest
update_resend_time now r = record r { resend_time_millis = now }

-- The switch of `waitResponse`, on the status at the end of the wait.
unfoldable pub wait_result : MsgRequest → Out MsgRequest (Option Msg)
wait_result r = elim r.request_status [
  | rs_idle ↦ err e_invalid_state r
  | rs_pending ↦ err e_timed_out r
  | rs_arrived ↦ ok r.response r
  | rs_aborted ↦ err e_io_canceled r
]

-- `waitResponse`: `meanwhile` is what other threads do to the slot until the wait ends, by a notification or
-- by the timeout. `none`: the call with no timeout does not return, for the slot is not settled.
unfoldable pub wait_response :
    Bool → (MsgRequest → MsgRequest) → MsgRequest → Option (Out MsgRequest (Option Msg))
unfolding wait_result
wait_response infinite meanwhile r =
    if idle r.request_status
    then some (err e_invalid_state r)
    else let t = if settled r.request_status then r else meanwhile r in
      if infinite
      then (if settled t.request_status then some (wait_result t) else none)
      else some (wait_result t)

unfoldable pub set_response : Option Msg → MsgRequest → MsgRequest
set_response response r = record r { response = response; request_status = rs_arrived }

abbrev pub is_some : Option Msg → Bool
is_some none = false
is_some (some m) = true

abbrev pub arrived : MsgRequestStatus → Bool
arrived rs_idle = false
arrived rs_pending = false
arrived rs_arrived = true
arrived rs_aborted = false

unfoldable pub has_response : MsgRequest → Bool
has_response r = arrived r.request_status && is_some r.response

unfoldable pub abort_response : MsgRequest → MsgRequest
abort_response r =
    if pending r.request_status
    then record r { response = none; request_status = rs_aborted }
    else r

unfoldable pub clear_response : MsgRequest → MsgRequest
clear_response r = record r {
  request = none;
  request_time_millis = 0;
  response = none;
  request_status = rs_idle;
}
