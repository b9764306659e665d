-- ===== src/Transport/DataServer.antt =====
-- inc/transport/data_server.h, src/transport/data_server.cpp: the server's run state, its connections, and the memory
-- of the buffers that go through it.
pub mod Send
pub mod States
pub mod Stopping
pub mod Connections
pub mod Sending
pub mod Replies
pub mod Writes
pub mod Exchange
use Prim.Native.Nat.{bit_and}
use commutil.Common.{
  ℕ, zero, suc, ◌+◌, ◌-◌, ◌%◌, Bool, true, false, not, Option, none, some, List, [], ◌∷◌, ◌++◌,
  length, take, replicate, get_elem?, set, u32_mod, u64_mod, add64, ◌==◌, if◌then◌else◌,
}
use commutil.Err.{ErrorCode, e_nomem, e_invalid_state, e_transport_error, Out, ok, err, fault}
use commutil.Transport.Memory.{
  Block, request_buffer, buffer_data, async_request, Memory, allocate, find, free, replace,
}
use commutil.Transport.Loop.{
  ℤ, pos, negsuc, DataAction, can_delete, DataListener, Platform, Loop, succeeds,
  stop_transport_loop,
}

pub data RunState : Type 0 where
  rs_idle rs_starting_up rs_running rs_shutting_down : RunState

-- What the server sets of `ConnectionDetails`, and its entry of the array.
pub record ConnectionDetails : Type 0 where
  pub details_id : ℕ
  pub details_index : ℕ

pub record ConnectionData : Type 0 where
  pub connection_handle : Option ℕ
  pub connection_index : ℕ
  pub is_used : ℕ
  pub connection_id : ℕ
  pub connection_details : ConnectionDetails

pub record DataServer : Type 0 where
  pub run_state : RunState
  pub conn_data_array : Option (List ConnectionData)
  pub max_connections : ℕ
  pub next_connection_id : ℕ
  pub server_loop : Loop
  pub memory : Memory

-- The numbers of the enumeration, which the atomic operations compare.
abbrev pub state_number : RunState → ℕ
state_number rs_idle = 0
state_number rs_starting_up = 1
state_number rs_running = 2
state_number rs_shutting_down = 3

unfoldable pub change_run_state : RunState → RunState → DataServer → Bool × DataServer
change_run_state from to s =
    if state_number s.run_state == state_number from
    then (true, record s { run_state = to })
    else (false, s)

unfoldable pub set_run_state : RunState → DataServer → DataServer
set_run_state q s = record s { run_state = q }

-- A vacant entry of the array.
abbrev pub vacant : ℕ → ConnectionData
vacant i = record {
  connection_handle = none;
  connection_index = i;
  is_used = 0;
  connection_id = u64_mod - 1;
  connection_details = record { details_id = 0; details_index = i };
}

-- The entries below the bound, or `none` where there is no memory for one.
unfoldable pub make_connections : (ℕ → Bool) → ℕ → Option (List ConnectionData)
make_connections room zero = some []
make_connections room (suc n) = elim (make_connections room n) [
  | none ↦ none
  | some connections ↦ if room n then some (connections ++ vacant n ∷ []) else none
]

-- The first argument tells whether there is memory for the array, the second for each entry.
unfoldable pub init_conn_data_array : Bool → (ℕ → Bool) → ℕ → DataServer → Bool × DataServer
unfolding make_connections
init_conn_data_array array room max_connections s =
    if array
    then (elim (make_connections room max_connections) [
      | some connections ↦
          (true, record s { conn_data_array = some connections; max_connections = max_connections })
      | none ↦ (false, record s { conn_data_array = none; max_connections = max_connections })
    ])
    else (false, record s { conn_data_array = none })

unfoldable pub term_conn_data_array : DataServer → DataServer
term_conn_data_array s = record s { conn_data_array = none; max_connections = 0 }

-- What `initialize` does once there is a loop. The result of `uv_loop_close` is not looked at: the loop stays open
-- where it fails.
unfoldable pub initialize_loop : Platform → DataServer → Out DataServer (Unit {0})
unfolding term_conn_data_array set_run_state
initialize_loop platform s =
    let opened = record s { server_loop = record (s.server_loop) { is_open = true } } in
    if succeeds (platform.initialize_transport)
    then ok tt (set_run_state rs_running opened)
    else err (platform.initialize_transport) (
        set_run_state rs_idle (
          term_conn_data_array (record s {
            server_loop = record (s.server_loop) { is_open = not platform.loop_close };
          })))

unfoldable pub initialize :
    Platform → Bool → (ℕ → Bool) → ℕ → DataServer → Out DataServer (Unit {0})
unfolding change_run_state init_conn_data_array initialize_loop
initialize platform array room max_connections s =
    let (changed, starting) = change_run_state rs_idle rs_starting_up s in
    let (made, t) = init_conn_data_array array room max_connections starting in
    if not changed
    then err e_invalid_state s
    else if not made
    then err e_nomem (set_run_state rs_idle t)
    else if platform.loop_init
    then initialize_loop platform t
    else err e_transport_error (set_run_state rs_idle (term_conn_data_array t))

unfoldable pub terminate : Platform → DataServer → Out DataServer (Unit {0})
unfolding term_conn_data_array
terminate platform s =
    if succeeds (platform.terminate_transport)
    then ok tt (term_conn_data_array s)
    else err (platform.terminate_transport) s

unfoldable pub start : Platform → DataServer → Out DataServer (Unit {0})
unfolding set_run_state
start platform s =
    let t = set_run_state rs_running s in
    if succeeds (platform.start_transport)
    then ok tt (record t { server_loop = record (t.server_loop) { has_thread = true } })
    else err (platform.start_transport) t

unfoldable pub stop : Platform → DataServer → Out DataServer (Unit {0})
unfolding change_run_state set_run_state
stop platform s =
    let (changed, t) = change_run_state rs_running rs_shutting_down s in
    if not changed
    then err e_invalid_state s
    else elim (stop_transport_loop platform true (t.server_loop)) [
      | ok _ l ↦
          let u = record t { server_loop = l } in
          if succeeds (platform.stop_transport)
          then ok tt (set_run_state rs_idle u)
          else err (platform.stop_transport) u
      | err e l ↦ err e (record t { server_loop = l })
      | fault ↦ fault
    ]

unfoldable pub connection_at : ℕ → DataServer → Option ConnectionData
connection_at index s = elim s.conn_data_array [
  | none ↦ none
  | some connections ↦ get_elem? connections index
]

abbrev pub set_entry :
    ℕ → ConnectionData → Option (List ConnectionData) → Option (List ConnectionData)
set_entry index c none = none
set_entry index c (some connections) = some (set connections index c)

-- The entry as it is for a new connection.
abbrev pub used_by : ℕ → ConnectionData → ConnectionData
used_by id c = record c {
  is_used = 1;
  connection_id = id;
  connection_details = record (c.connection_details) { details_id = id };
}

-- The loop of `grabConnectionData`, for the rounds left, from an index on; a null array is read through.
unfoldable pub grab_from : ℕ → ℕ → DataServer → Out DataServer (Option ℕ)
grab_from zero index s = ok none s
grab_from (suc rounds) index s =
    let rest = grab_from rounds (index + 1) s in
    elim (connection_at index s) [
      | none ↦ fault
      | some c ↦
          if c.is_used == 0
          then ok (some index) (record s {
            conn_data_array = set_entry index (used_by s.next_connection_id c) s.conn_data_array;
            next_connection_id = add64 s.next_connection_id 1;
          })
          else rest
    ]

unfoldable pub grab_connection_data : DataServer → Out DataServer (Option ℕ)
unfolding grab_from
grab_connection_data s = grab_from s.max_connections 0 s
