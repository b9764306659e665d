-- ===== src/Transport/DataClient.antt =====
-- inc/transport/data_client.h, src/transport/data_client.cpp: a client's connection, and the memory of the buffers that
-- go through it. Each call, and each callback of libuv, is one step.
pub mod Writing
pub mod Closing
use commutil.Common.{
  ℕ, zero, suc, ◌%◌, Bool, true, false, not, Option, none, some, List, length, take, replicate,
  u32_mod, if◌then◌else◌,
}
use commutil.Err.{ErrorCode, e_ok, e_nomem, e_transport_error, Out, ok, err, fault}
use commutil.Transport.Memory.{
  request_buffer, client_buffer_data, async_request, Memory, allocate, find, free, replace,
}
use commutil.Transport.Loop.{
  ℤ, pos, negsuc, can_delete, DataListener, Platform, Loop, succeeds, stop_transport_loop,
}
use commutil.Transport.DataServer.Send.{write_by_ref, write_dispose_buffer, has_flag}

-- The handle m_transport: null, open, or closing, after a call of `uv_close`.
pub data Transport : Type 0 where
  no_transport open_transport closing_transport : Transport

pub record DataClient : Type 0 where
  pub client_loop : Loop
  pub transport : Transport
  pub is_ready : Bool
  pub connect_status : ℤ
  pub memory : Memory

-- inc/transport/data_loop_listener.h: the listener of the loop's events that the client has, if it has one;
-- a send comes with the address that the user gave.
pub record DataLoopListener (L : Type 0) : Type 0 where
  pub on_loop_start : L → L
  pub on_loop_end : L → L
  pub on_loop_send : Option ℕ → L → L
  pub on_loop_recv : L → L

-- A derived class opens the handle where its initialization succeeds. Where it fails, the result of `uv_loop_close`
-- is not looked at.
unfoldable pub initialize : Platform → DataClient → Out DataClient (Unit {0})
initialize platform s =
    let opened = record s {
      client_loop = record (s.client_loop) { is_open = true };
      transport = open_transport;
    } in
    if not platform.loop_init
    then err e_transport_error s
    else if succeeds (platform.initialize_transport)
    then ok tt opened
    else err (platform.initialize_transport)
        (record s { client_loop = record (s.client_loop) { is_open = not platform.loop_close } })

unfoldable pub terminate : Platform → DataClient → Out DataClient (Unit {0})
terminate platform s =
    if not (succeeds (platform.terminate_transport))
    then err (platform.terminate_transport) s
    else if platform.loop_close
    then ok tt (record s { client_loop = record (s.client_loop) { is_open = false } })
    else err e_transport_error s

unfoldable pub start : DataClient → Out DataClient (Unit {0})
start s = ok tt (record s { client_loop = record (s.client_loop) { has_thread = true } })

unfoldable pub stop : Platform → DataClient → Out DataClient (Unit {0})
unfolding stop_transport_loop
stop platform s = elim (stop_transport_loop platform false (s.client_loop)) [
  | ok _ l ↦ ok tt (record s { client_loop = l })
  | err e l ↦ err e (record s { client_loop = l })
  | fault ↦ fault
]

unfoldable pub set_ready : ℤ → DataClient → DataClient
set_ready status s = record s { is_ready = true; connect_status = status }

-- `waitReady`: `meanwhile` is what other threads do until the wait ends; `none`: it does not end.
unfoldable pub wait_ready : (DataClient → DataClient) → DataClient → Option (ℤ × DataClient)
wait_ready meanwhile s =
    let t = if s.is_ready then s else meanwhile s in
    if t.is_ready then some (t.connect_status, t) else none

-- `uv_close`: the handle must be there, and not be closing already.
unfoldable pub close_transport : DataClient → Out DataClient (Unit {0})
close_transport s = elim s.transport [
  | no_transport ↦ fault
  | open_transport ↦ ok tt (record s { transport = closing_transport })
  | closing_transport ↦ fault
]

-- The client forgets the handle when it has called `uv_close`.
unfoldable pub stop_transport : DataClient → Out DataClient (Unit {0})
unfolding close_transport
stop_transport s = elim s.transport [
  | no_transport ↦ ok tt s
  | _ ↦ elim (close_transport s) [
    | ok _ t ↦ ok tt (record t { transport = no_transport })
    | err e t ↦ err e t
    | fault ↦ fault
  ]
]

-- An object is freed, and an error returned.
unfoldable pub free_and : ℕ → ErrorCode → DataClient → Out DataClient (Unit {0})
free_and address e s = elim (free address s.memory) [
  | ok _ m ↦ err e (record s { memory = m })
  | err e' m ↦ fault
  | fault ↦ fault
]

-- `sendWriteRequest`, for the address of the buffer data.
unfoldable pub send_write_request :
    Platform → (ℕ → Bool) → ℕ → DataClient → Out DataClient (Unit {0})
send_write_request platform room entry s =
    let (request, m) = allocate room (async_request none) s.memory in
    elim request [
      | none ↦ err e_nomem (record s { memory = m })
      | some address ↦
          let sent = record m { live = replace address (async_request (some entry)) m.live } in
          if not platform.async_init
          then free_and address e_transport_error (record s { memory = m })
          else if not platform.async_send
          then free_and address e_transport_error (record s { memory = sent })
          else ok tt (record s { memory = sent })
    ]

-- The end of a write that failed: a copy of the buffer is freed.
unfoldable pub give_back : Bool → ℕ → ErrorCode → DataClient → Out DataClient (Unit {0})
give_back by_ref address e s = if by_ref then err e s else free_and address e s

-- What `write` does with the buffer to write.
unfoldable pub write_with :
    Platform → (ℕ → Bool) → ℕ → ℕ → Bool → Option ℕ → Bool → DataClient → Out DataClient (Unit {0})
write_with platform room address n dispose user_data by_ref s =
    let (made, m) = allocate room (client_buffer_data address n dispose user_data) s.memory in
    elim made [
      | none ↦ give_back by_ref address e_nomem (record s { memory = m })
      | some entry ↦ elim (send_write_request platform room entry (record s { memory = m })) [
        | ok _ t ↦ ok tt t
        | err e t ↦ elim (free entry t.memory) [
          | ok _ left ↦ give_back by_ref address e (record t { memory = left })
          | err e' left ↦ fault
          | fault ↦ fault
        ]
        | fault ↦ fault
      ]
    ]

-- `write`, with the address of the caller's buffer and the bytes there.
unfoldable pub write :
    Platform → (ℕ → Bool) → ℕ → List ℕ → ℕ → Option ℕ → DataClient → Out DataClient (Unit {0})
write platform room buffer bytes flags user_data s =
    let (copy, m) = allocate room (request_buffer bytes) s.memory in
    if has_flag flags write_by_ref
    then write_with platform room buffer (length bytes) (has_flag flags write_dispose_buffer)
        user_data true s
    else elim copy [
      | none ↦ err e_nomem (record s { memory = m })
      | some address ↦
          write_with platform room address (length bytes) true user_data false
            (record s { memory = m })
    ]

-- `onAllocBuffer`, for the size that libuv suggests: the buffer, with zeros in place of what is there.
unfoldable pub on_alloc_buffer : (ℕ → Bool) → ℕ → DataClient → Option ℕ × DataClient
on_alloc_buffer room suggested_size s =
    let (buffer, m) = allocate room (request_buffer (replicate suggested_size 0)) s.memory in
    (buffer, record s { memory = m })

-- `freeRequestBuffer`, unless the pointer is null.
unfoldable pub free_buffer : Option ℕ → DataClient → Out DataClient (Unit {0})
free_buffer none s = ok tt s
free_buffer (some address) s = elim (free address s.memory) [
  | ok _ m ↦ ok tt (record s { memory = m })
  | _ ↦ fault
]

-- One step after another that succeeded.
abbrev pub and_then :
    Out DataClient (Unit {0}) → (DataClient → Out DataClient (Unit {0})) → Out DataClient (Unit {0})
and_then (ok _ s) k = k s
and_then (err e s) k = err e s
and_then fault k = fault

abbrev pub notify :
    {L : Type 0} → Option (DataLoopListener L) → (DataLoopListener L → L → L) → L → L
notify none call user = user
notify (some loop_listener) call user = call loop_listener user

module _ {L : Type 0} (listener : DataListener L)
    (loop_listener : Option (DataLoopListener L)) where
  -- `onAsyncWriteStatic`, for the address of the asynchronous request, up to the call of `uv_close`. The
  -- derived class gets the buffer data, and its result is not used.
  unfoldable pub on_async_write : ℕ → L × DataClient → L × Out DataClient (Unit {0})
  on_async_write request (user, s) =
      let taken = ok tt (record s {
        memory = record (s.memory) { live = replace request (async_request none) s.memory.live };
      }) in
      elim (find request s.memory.live) [
        | some (async_request (some entry)) ↦ elim (find entry s.memory.live) [
          | some (client_buffer_data address n dispose user_data) ↦
              (notify loop_listener (λ l. l.on_loop_send user_data) user, taken)
          | _ ↦ (user, fault)
        ]
        | _ ↦ (user, fault)
      ]

  -- `onRead`, with the pointer in the buffer and the bytes that were read into it. The client has the
  -- connection 0.
  unfoldable pub on_read :
      ℤ → Option ℕ → List ℕ → Bool → L × DataClient → L × Out DataClient (Unit {0})
  on_read (negsuc status) buf bytes is_datagram (user, s) = (
    listener.on_read_error 0 (negsuc status) user,
    and_then (close_transport s) (free_buffer buf),
  )
  on_read (pos zero) buf bytes is_datagram (user, s) = (user, free_buffer buf s)
  on_read (pos (suc n)) buf bytes is_datagram (user, s) =
      let (action, next) =
        listener.on_bytes_received 0 (take (suc n % u32_mod) bytes) is_datagram user in
      (
        notify loop_listener (λ l. l.on_loop_recv) next,
        if can_delete action then free_buffer buf s else ok tt s,
      )

  -- The start of `onWrite`: the listener hears of it, and an error closes the client.
  unfoldable pub report_write : ℕ → ℤ → L × DataClient → L × Out DataClient (Unit {0})
  report_write n (negsuc status) (user, s) =
      (listener.on_write_error 0 (negsuc status) user, close_transport s)
  report_write n (pos status) (user, s) = (listener.on_bytes_sent 0 n (pos status) user, ok tt s)

  -- `onWrite`, for the address of the buffer data.
  unfoldable pub on_write : ℕ → ℤ → L × DataClient → L × Out DataClient (Unit {0})
  on_write entry status (user, s) = elim (find entry s.memory.live) [
    | some (client_buffer_data address n dispose user_data) ↦
        let (next, reported) = report_write n status (user, s) in
        (
          next,
          and_then reported (λ t.
              and_then (free_buffer (if dispose then some address else none) t)
                (free_buffer (some entry))),
        )
    | _ ↦ (user, fault)
  ]

  -- `onClose`, the callback of `uv_close`.
  unfoldable pub on_close : L → L
  on_close user = listener.on_disconnect 0 user

  -- `ioTask`: `run` is what the listeners hear while libuv runs the loop.
  unfoldable pub io_task : Platform → (L → L) → L → L
  io_task platform run user =
      if succeeds (platform.start_transport)
      then notify loop_listener (λ l. l.on_loop_end)
          (run (notify loop_listener (λ l. l.on_loop_start) user))
      else user

unfoldable pub on_close_async_write_req : ℕ → DataClient → Out DataClient (Unit {0})
unfolding free_buffer
on_close_async_write_req request s = free_buffer (some request) s
