-- ===== src/Tests/Sessions.antt =====
-- A server of messages with two entries, for src/msg/msg_server.cpp.
use commutil.Common.{
  ℕ, zero, suc, ◌<◌, ◌≡◌, ◌⊎◌, refl, true, false, Option, none, some, List, [], ◌∷◌, arith,
  replicate, get_elem?,
}
use commutil.Err.{e_ok, e_nomem, ok, err, code_of}
use commutil.Io.Bytes.{host_order}
use commutil.Msg.Message.{Msg}
use commutil.Msg.Outgoing.{IsWhole}
use commutil.Msg.Assembler
use commutil.Msg.Multiplexer.{all_room}
use commutil.Msg.Server.{MsgServer, MsgSession, Resources, initialize, get_session, reply_msg}
use commutil.Msg.Server.Sessions.{
  SessionEvent, connected, disconnected, serve_all, owner_after, owner_of, answer,
  get_session-serve_all,
}
use commutil.Msg.Server.Lifecycle.{Refuses, Detached, initialize-Refuses}
use commutil.Msg.Server.Replies.{waiting, Settled, reply_msg-Settled}
use commutil.Transport.Loop.{Platform, DataListener, negsuc, data_can_delete}
use commutil.Transport.DataServer
use commutil.Transport.DataServer.{
  DataServer, ConnectionDetails, RunState, rs_idle, rs_running, vacant, used_by, connection_at,
}
use commutil.Transport.DataServer.Sending.{Refused}

abbrev works : Platform
works = record {
  loop_init = true;
  loop_close = true;
  async_init = true;
  async_send = true;
  callback_room = true;
  initialize_transport = e_ok;
  terminate_transport = e_ok;
  start_transport = e_ok;
  stop_transport = e_ok;
}

abbrev data_server : RunState → DataServer
data_server q = record {
  run_state = q;
  conn_data_array = some (record (used_by 9 (vacant 0)) { connection_handle = some 77 } ∷ []);
  max_connections = 1;
  next_connection_id = 10;
  server_loop = record { is_open = false; has_thread = true };
  memory = record { next = 5; live = [] };
}

abbrev server : MsgServer
server = record {
  data_server = none;
  msg_assembler = record { msg_streams = []; user = tt; freed = [] };
  msg_multiplexer = record {
    concurrency = 0;
    next_queue = 0;
    connection_map = [];
    msg_queues = [];
    msg_threads = 0;
  };
  sessions = none ∷ none ∷ [];
  next_session_id = 1;
  deleted = [];
}

abbrev details : ℕ → ℕ → ConnectionDetails
details id index = record { details_id = id; details_index = index }

-- The connection 12 takes over the entry of 11, and 14 comes too early for that of 13.
abbrev events : List SessionEvent
events =
    connected (details 11 0) 0
    ∷ connected (details 13 1) 0
    ∷ disconnected (details 11 0)
    ∷ connected (details 14 1) 0
    ∷ connected (details 12 0) 0
    ∷ []

get_session-serve_all_example :
    (later : Unit {0}) × (t : MsgServer) × (serve_all none events (tt, server) ≡ ok tt (later, t))
    × ((c : ConnectionDetails)
        → c.details_index < 2
        → code_of e_ok (get_session c t)
          ≡ answer (owner_after c.details_index events none) c.details_id)
get_session-serve_all_example =
    get_session-serve_all none events 2 (λ i. none) tt server
      (omega arith, (omega arith, (omega arith, (omega arith, (omega arith, tt))))) (refl, no_owner)
  where
    no_owner :
        (i : ℕ) (entry : Option MsgSession)
        → get_elem? (none ∷ none ∷ []) i ≡ some entry
        → owner_of entry ≡ none
    no_owner i none at = refl
    no_owner zero (some session) at = absurd (cc at)
    no_owner (suc zero) (some session) at = absurd (cc at)
    no_owner (suc (suc i)) (some session) at = absurd (cc at)

-- Memory for all but the streams of the assembler.
abbrev scarce : Resources
scarce = record {
  queue_room = λ n. true;
  connection_array = true;
  connection_room = λ n. true;
  stream_array = false;
  stream_room = λ n. true;
}

abbrev started : DataServer
started = record (data_server rs_running) {
  conn_data_array = some (vacant 0 ∷ vacant 1 ∷ []);
  max_connections = 2;
  server_loop = record { is_open = true; has_thread = true };
}

initialize-Refuses_example :
    (t : MsgServer) × (initialize works scarce host_order 2 1
        (some 0)
        (data_server rs_idle ∷ [], server)
      ≡ err e_nomem (started ∷ [], t))
    × (started.run_state ≡ rs_running)
    × Detached (started ∷ [], t)
    × Refuses 0 (started ∷ [])
initialize-Refuses_example =
    initialize-Refuses works scarce host_order 2 1 0 (data_server rs_idle ∷ []) server
      (data_server rs_idle) started e_nomem (record { msg_streams = []; user = tt; freed = [] })
      refl refl refl refl (unfold all_room in refl)
      (unfold DataServer.initialize DataServer.make_connections in refl)
      (unfold Assembler.initialize in refl)

abbrev counts : DataListener ℕ
counts = record {
  on_connect = λ c status n. (true, suc n);
  on_disconnect = λ c n. suc n;
  on_read_error = λ c status n. suc n;
  on_write_error = λ c status n. suc n;
  on_bytes_received = λ c bytes is_datagram n. (data_can_delete, suc n);
  on_bytes_sent = λ c size status n. suc n;
}

abbrev reply : Msg
reply = record {
  header = record {
    magic = replicate 8 77;
    length = 41;
    msg_id = 5;
    flags = 0;
    request_id = 3;
    request_index = 0;
    uncompressed_length = 0;
    batch_size = 0;
    reserved = 0;
  };
  payload = 1 ∷ [];
}

reply-IsWhole : IsWhole reply
reply-IsWhole = record {
  widths = record {
    magic = refl;
    length_32 = omega arith;
    msg_id_16 = omega arith;
    flags_16 = omega arith;
    request_id_64 = omega arith;
    request_index_32 = omega arith;
    uncompressed_length_32 = omega arith;
    batch_size_32 = omega arith;
    reserved_32 = omega arith;
  };
  counted = refl;
}

reply_msg-Settled_example :
    Refused
      (data_server rs_running)
      (reply_msg works (λ n. true) host_order 0 reply (data_server rs_running))
    ⊎ ((reply_msg works (λ n. true) host_order 0 reply (data_server rs_running)
          ≡ ok tt (waiting host_order 0 reply (data_server rs_running)))
        × Settled counts host_order 0
            (record (used_by 9 (vacant 0)) { connection_handle = some 77 })
            reply
            (negsuc 3)
            0
            (data_server rs_running))
reply_msg-Settled_example =
    reply_msg-Settled works (λ n. true) host_order 0
      (record (used_by 9 (vacant 0)) { connection_handle = some 77 }) 77 reply
      (data_server rs_running) counts (negsuc 3) 0 reply-IsWhole refl (unfold connection_at in refl)
      refl
