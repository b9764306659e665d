-- ===== src/Transport/Loop.antt =====
-- src/transport/transport.cpp, inc/transport/data_listener.h: the loop of libuv and its thread, and the listener of a
-- data server or client.
use commutil.Common.{ℕ, Bool, true, false, not, List, if◌then◌else◌}
use commutil.Err.{ErrorCode, e_ok, e_nomem, e_transport_error, Out, ok, err, fault}

-- An int of the source: a status, or a number of bytes.
pub data ℤ : Type 0 where
  pos : ℕ → ℤ
  negsuc : ℕ → ℤ

-- inc/transport/data_listener.h
pub data DataAction : Type 0 where
  data_no_action data_can_delete data_cannot_delete : DataAction

abbrev pub can_delete : DataAction → Bool
can_delete data_no_action = false
can_delete data_can_delete = true
can_delete data_cannot_delete = false

-- On a state of its own; the first argument is the index of the connection.
pub record DataListener (L : Type 0) : Type 0 where
  pub on_connect : ℕ → ℤ → L → Bool × L
  pub on_disconnect : ℕ → L → L
  pub on_read_error : ℕ → ℤ → L → L
  pub on_write_error : ℕ → ℤ → L → L
  pub on_bytes_received : ℕ → List ℕ → Bool → L → DataAction × L
  pub on_bytes_sent : ℕ → ℕ → ℤ → L → L

-- The answers of libuv's calls (whether they succeed), of the derived class, and of an allocation in
-- `stopTransportLoop`.
pub record Platform : Type 0 where
  pub loop_init : Bool
  pub loop_close : Bool
  pub async_init : Bool
  pub async_send : Bool
  pub callback_room : Bool
  pub initialize_transport : ErrorCode
  pub terminate_transport : ErrorCode
  pub start_transport : ErrorCode
  pub stop_transport : ErrorCode

abbrev pub succeeds : ErrorCode → Bool
succeeds e_ok = true
succeeds _ = false

-- A loop of libuv, and whether its thread can be joined.
pub record Loop : Type 0 where
  pub is_open : Bool
  pub has_thread : Bool

-- `stopTransportLoop` with a callback. To join a thread that is not there is an error that ends the
-- process.
unfoldable pub stop_transport_loop : Platform → Bool → Loop → Out Loop (Unit {0})
stop_transport_loop platform close_loop l =
    let joined = record l { has_thread = false } in
    if not platform.callback_room
    then err e_nomem l
    else if not platform.async_init
    then err e_transport_error l
    else if not platform.async_send
    then err e_transport_error l
    else if not l.has_thread
    then fault
    else if not close_loop
    then ok tt joined
    else if platform.loop_close
    then ok tt (record joined { is_open = false })
    else err e_transport_error joined
