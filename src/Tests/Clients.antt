-- ===== src/Tests/Clients.antt =====
-- A client with two slots, for src/transport/data_client.cpp and src/msg/msg_client.cpp.
use commutil.Common.{
  ℕ, suc, ◌≡◌, ◌⊎◌, refl, Bool, true, false, none, some, [], ◌∷◌, arith, get_elem?, replicate,
}
use commutil.Err.{e_ok, ok, fault}
use commutil.Io.Bytes.{host_order, le_bytes, le_value, hton}
use commutil.Io.FixedOutput.{make_over, write_bytes}
use commutil.Io.Serializable.{serialize_data, serialize_uint, to_order}
use commutil.Msg.Header
use commutil.Msg.Header.Codec.{header_bytes}
use commutil.Msg.Message
use commutil.Msg.RequestPool.{fetch_add_request_id, get_vacant_request, search_vacant}
use commutil.Msg.Header.{MsgHeader}
use commutil.Msg.Message.{Msg, payload_size_bytes}
use commutil.Msg.Outgoing.{IsWhole, serialize_msg}
use commutil.Msg.Assembler.{msg_cannot_delete}
use commutil.Msg.Request
use commutil.Msg.Request.{MsgRequest, idle}
use commutil.Msg.Client.{MsgClient, on_msg}
use commutil.Msg.Client.Requests.{transact_msg_response, send_new, stamp, transmit, finish}
use commutil.Msg.Client.Slots.{NoSlot, Queued, Lost, send_new_lem}
use commutil.Msg.Client.Arrivals.{delivered, arrivals, slot_changes, during_wait}
use commutil.Msg.Client.Transactions.{sent_client, slot, Ends, transact_msg_response_lem}
use commutil.Transport.Memory.{request_buffer, client_buffer_data, find, remove, allocate, replace}
use commutil.Transport.Loop.{negsuc, pos, DataListener, Platform, data_can_delete}
use commutil.Transport.DataClient
use commutil.Transport.DataClient.{
  DataClient, open_transport, on_read, on_write, write_with, send_write_request,
}
use commutil.Transport.DataClient.Closing.{closing, on_write-on_read}

abbrev works : Platform
works = record {
  loop_init = true;
  loop_close = true;
  async_init = true;
  async_send = true;
  callback_room = true;
  initialize_transport = e_ok;
  terminate_transport = e_ok;
  start_transport = e_ok;
  stop_transport = e_ok;
}

abbrev plenty : ℕ → Bool
plenty n = true

-- A listener that counts what it hears.
abbrev counts : DataListener ℕ
counts = record {
  on_connect = λ c status n. (true, suc n);
  on_disconnect = λ c n. suc n;
  on_read_error = λ c status n. suc n;
  on_write_error = λ c status n. suc n;
  on_bytes_received = λ c bytes is_datagram n. (data_can_delete, suc n);
  on_bytes_sent = λ c size status n. suc n;
}

-- A buffer that was read into, and a write that is on its way.
abbrev connection : DataClient
connection = record {
  client_loop = record { is_open = true; has_thread = true };
  transport = open_transport;
  is_ready = true;
  connect_status = pos 0;
  memory = record {
    next = 9;
    live =
        (8, request_buffer (0 ∷ []))
        ∷ (7, client_buffer_data 6 1 true none)
        ∷ (6, request_buffer (1 ∷ []))
        ∷ [];
  };
}

on_write-on_read_example :
    (on_read counts none (negsuc 3) (some 8) [] false (0, connection) ≡ (
      1,
      ok tt (
          closing
            ((7, client_buffer_data 6 1 true none) ∷ (6, request_buffer (1 ∷ [])) ∷ [])
            connection),
    ))
    × ((later : ℕ)
        → on_write counts none 7 (negsuc 4) (
          later,
          closing
              ((7, client_buffer_data 6 1 true none) ∷ (6, request_buffer (1 ∷ [])) ∷ [])
              connection,
        )
          ≡ (suc later, fault))
on_write-on_read_example =
    on_write-on_read counts none connection 0 3 4 8 [] false 7 6 1 true none
      ((7, client_buffer_data 6 1 true none) ∷ (6, request_buffer (1 ∷ [])) ∷ []) refl
      (unfold remove in refl) (unfold find in refl)

abbrev message : Msg
message = record {
  header = record {
    magic = replicate 8 77;
    length = 42;
    msg_id = 5;
    flags = 0;
    request_id = 0;
    request_index = 0;
    uncompressed_length = 0;
    batch_size = 0;
    reserved = 0;
  };
  payload = 1 ∷ 2 ∷ [];
}

message-IsWhole : IsWhole message
message-IsWhole = record {
  widths = record {
    magic = refl;
    length_32 = omega arith;
    msg_id_16 = omega arith;
    flags_16 = omega arith;
    request_id_64 = omega arith;
    request_index_32 = omega arith;
    uncompressed_length_32 = omega arith;
    batch_size_32 = omega arith;
    reserved_32 = omega arith;
  };
  counted = refl;
}

abbrev client : MsgClient
client = record {
  data_client = some connection;
  msg_assembler = record { msg_streams = []; user = tt; freed = [] };
  request_pool = record {
    requests = Request.make ∷ Request.make ∷ [];
    next_request_id = 7;
    has_listener = false;
    notified = [];
  };
  connect_data = record { connect_arrived = 1; connect_status = pos 0 };
}

send_new_lem_example :
    NoSlot works plenty host_order 100 0 50 message connection client
    ⊎ ((index : ℕ) × (r : MsgRequest) × (get_elem? client.request_pool.requests index ≡ some r)
        × (idle r.request_status ≡ true)
        × (Queued works plenty host_order 100 0 50 message connection client index r
            ⊎ Lost works plenty host_order 100 0 50 message connection client index r))
send_new_lem_example =
    send_new_lem works plenty host_order 100 0 50 message connection client (omega arith)
      (omega arith) (omega arith) refl message-IsWhole

-- The request with the id 7 goes into the slot 1.
abbrev response : Msg
response = record {
  header = record (message.header) { request_id = 7; request_index = 1 };
  payload = 9 ∷ [];
}

sent : Queued works plenty host_order 100 1 50 message connection client 1 Request.make
unfolding send_new Request.make fetch_add_request_id get_vacant_request stamp transmit serialize_msg
    make_over Message.serialize payload_size_bytes Header.serialize serialize_data serialize_uint
    write_bytes le_bytes to_order hton le_value header_bytes allocate replace DataClient.write
    write_with send_write_request finish search_vacant Request.try_grab Request.set_flags
    Request.set_request
sent = refl

-- The client after the send, and the slot of the request.
abbrev after_send : MsgClient
after_send =
    sent_client works plenty host_order 100 50 message connection client Request.make response

-- The response comes while the request is waited for.
transact_msg_response_lem_example :
    (on_msg none 0 response (tt, after_send)
      ≡ ok msg_cannot_delete (tt, delivered none tt response after_send))
    × (get_elem? (delivered none tt response after_send).request_pool.requests 1
        ≡ some (
            Request.set_response (some response) (
              slot works plenty host_order 100 50 message connection client Request.make response)))
    × Ends works plenty host_order 100 50 message connection client Request.make response
        during_wait false
        (transact_msg_response works plenty host_order 100 50 false
          (arrivals none tt response (λ t. t) during_wait)
          (slot_changes response (λ r. r) during_wait)
          message
          client)
transact_msg_response_lem_example =
    transact_msg_response_lem works plenty host_order 100 50 message connection client Request.make
      response none tt (λ t. t) (λ r. r) sent refl refl during_wait false
