-- ===== src/Tests/Servers.antt =====
-- A data server with two entries, for src/transport/data_server.cpp.
use commutil.Common.{
  ℕ, suc, ◌<◌, ◌≡◌, ◌≢◌, ◌⊎◌, refl, Bool, true, false, none, some, List, [], ◌∷◌, arith, length,
}
use commutil.Err.{ErrorCode, e_ok, e_invalid_state, e_transport_error, ok, err}
use commutil.Transport.Memory.{Memory, request_buffer, remove}
use commutil.Transport.Loop.{negsuc, pos, DataListener, Platform, data_can_delete}
use commutil.Transport.DataServer.{
  DataServer, ConnectionData, RunState, rs_idle, rs_running, rs_shutting_down, vacant, used_by,
  connection_at, grab_connection_data, initialize, stop,
}
use commutil.Transport.DataServer.Send.{
  has_flag, write_by_ref, write_dispose_buffer, reply_msg, on_async_write,
}
use commutil.Transport.DataServer.States.{Ready, Undone, initialize_lem, wrong_state}
use commutil.Transport.DataServer.Stopping.{Stuck, stop_lem}
use commutil.Transport.DataServer.Connections.{TakesFirst, InUse, grab_connection_data_lem}
use commutil.Transport.DataServer.Sending.{holding, Refused, queued, sent}
use commutil.Transport.DataServer.Replies.{reply_msg_lem}
use commutil.Transport.DataServer.Exchange.{Exchanged, reply_msg-Settles}
use commutil.Transport.DataServer.Writes.{Settles, on_write-Settles}

abbrev works : Platform
works = record {
  loop_init = true;
  loop_close = true;
  async_init = true;
  async_send = true;
  callback_room = true;
  initialize_transport = e_ok;
  terminate_transport = e_ok;
  start_transport = e_ok;
  stop_transport = e_ok;
}

abbrev plenty : ℕ → Bool
plenty n = true

abbrev memory : Memory
memory = record { next = 5; live = (3, request_buffer (1 ∷ 2 ∷ [])) ∷ [] }

abbrev open_entry : ConnectionData
open_entry = record (used_by 9 (vacant 0)) { connection_handle = some 77 }

abbrev entries : List ConnectionData
entries = open_entry ∷ vacant 1 ∷ []

abbrev server : RunState → DataServer
server q = record {
  run_state = q;
  conn_data_array = some entries;
  max_connections = 2;
  next_connection_id = 10;
  server_loop = record { is_open = true; has_thread = true };
  memory = memory;
}

abbrev fresh : DataServer
fresh = record {
  run_state = rs_idle;
  conn_data_array = none;
  max_connections = 0;
  next_connection_id = 0;
  server_loop = record { is_open = false; has_thread = false };
  memory = memory;
}

-- The transport fails, and the loop has handles that are not closed yet.
abbrev busy : Platform
busy = record works { initialize_transport = e_transport_error; loop_close = false }

initialize_lem_example :
    Ready 4 fresh (initialize busy true plenty 4 fresh)
    ⊎ Undone busy fresh (initialize busy true plenty 4 fresh)
initialize_lem_example = initialize_lem busy true plenty 4 fresh refl refl

stop_lem_example :
    ((t : DataServer) × (stop works (server rs_running) ≡ ok tt t)
      × (t.run_state ≡ rs_idle)
      × (t.server_loop.is_open ≡ false))
    ⊎ ((e : ErrorCode) × (t : DataServer) × (stop works (server rs_running) ≡ err e t) × Stuck t)
stop_lem_example = stop_lem works (server rs_running) refl refl

wrong_state_example :
    (rs_shutting_down ≢ rs_idle
      → initialize works true plenty 4 (server rs_shutting_down)
        ≡ err e_invalid_state (server rs_shutting_down))
    × (rs_shutting_down ≢ rs_running
        → (stop works (server rs_shutting_down) ≡ err e_invalid_state (server rs_shutting_down))
          × (reply_msg works plenty 0 3 (1 ∷ []) 0 (server rs_shutting_down)
              ≡ err e_invalid_state (server rs_shutting_down)))
wrong_state_example = wrong_state works true plenty 4 0 3 (1 ∷ []) 0 (server rs_shutting_down)

grab_connection_data_lem_example :
    TakesFirst (server rs_running) entries (grab_connection_data (server rs_running))
    ⊎ (((j : ℕ) → j < length entries → InUse entries j)
        × (grab_connection_data (server rs_running) ≡ ok none (server rs_running)))
grab_connection_data_lem_example = grab_connection_data_lem (server rs_running) entries (refl, refl)

reply_msg_lem_example :
    Refused (server rs_running) (reply_msg works plenty 0 3 (1 ∷ 2 ∷ []) 0 (server rs_running))
    ⊎ (reply_msg works plenty 0 3 (1 ∷ 2 ∷ []) 0 (server rs_running)
        ≡ ok tt (
            holding
              (sent 0
                (has_flag 0 write_by_ref)
                (has_flag 0 write_dispose_buffer)
                3
                (1 ∷ 2 ∷ [])
                memory)
              (server rs_running)))
reply_msg_lem_example =
    reply_msg_lem works plenty 0 open_entry 77 3 (1 ∷ 2 ∷ []) 0 (server rs_running) refl
      (unfold connection_at in refl) refl

-- A listener that counts errors and writes.
abbrev counter : DataListener (ℕ × ℕ)
counter = record {
  on_connect = λ c status n. (true, n);
  on_disconnect = λ c n. n;
  on_read_error = λ c status n. n;
  on_write_error = λ c status (e, w). (suc e, w);
  on_bytes_received = λ c bytes d n. (data_can_delete, n);
  on_bytes_sent = λ c n status (e, w). (e, suc w);
}

-- The caller's buffer is written by reference, and disposed of.
on_write-Settles_example :
    (t : DataServer) × (on_async_write 6 (holding (queued 0 3 2 true memory) (server rs_running))
      ≡ ok tt t)
    × Settles counter 0 open_entry 6 5
        (pos 0)
        (0, 0)
        t
        (holding (record { next = 7; live = [] }) (server rs_running))
on_write-Settles_example =
    on_write-Settles counter 0 open_entry 3 2 true memory (pos 0) (0, 0) [] (server rs_running)
      (unfold connection_at in refl) (omega arith) (unfold remove in refl)

reply_msg-Settles_example :
    Refused (server rs_running) (reply_msg works plenty 0 3 (1 ∷ 2 ∷ []) 0 (server rs_running))
    ⊎ Exchanged counter 0 open_entry
        (negsuc 4)
        (0, 0)
        (server rs_running)
        (reply_msg works plenty 0 3 (1 ∷ 2 ∷ []) 0 (server rs_running))
reply_msg-Settles_example =
    reply_msg-Settles counter works plenty 0 open_entry 77 3 (1 ∷ 2 ∷ []) 0 (negsuc 4) (0, 0)
      (server rs_running) refl (unfold connection_at in refl) refl refl
