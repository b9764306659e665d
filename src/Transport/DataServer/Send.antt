-- ===== src/Transport/DataServer/Send.antt =====
-- src/transport/data_server.cpp, lines 101-237 and 329-371: replies, and the callbacks of libuv, with the memory that
-- they allocate and free.
use Prim.Native.Nat.{bit_and}
use commutil.Common.{
  ℕ, zero, suc, ◌%◌, Bool, true, false, not, Option, none, some, List, length, take, replicate,
  u32_mod, ◌==◌, if◌then◌else◌,
}
use commutil.Err.{ErrorCode, e_nomem, e_invalid_state, e_transport_error, Out, ok, err, fault}
use commutil.Transport.Memory.{
  request_buffer, buffer_data, async_request, allocate, find, free, replace,
}
use commutil.Transport.Loop.{ℤ, pos, negsuc, can_delete, DataListener, Platform}
use commutil.Transport.DataServer.{DataServer, rs_running, state_number, connection_at}

-- An object is freed, and an error returned.
unfoldable pub free_and : ℕ → ErrorCode → DataServer → Out DataServer (Unit {0})
free_and address e s = elim (free address s.memory) [
  | ok _ m ↦ err e (record s { memory = m })
  | err e' m ↦ fault
  | fault ↦ fault
]

-- `sendWriteResponse`, for the address of the buffer data.
unfoldable pub send_write_response :
    Platform → (ℕ → Bool) → ℕ → ℕ → DataServer → Out DataServer (Unit {0})
send_write_response platform room connection entry s = elim (connection_at connection s) [
  | none ↦ fault
  | some c ↦
      let (request, m) = allocate room (async_request none) s.memory in
      elim request [
        | none ↦ err e_nomem (record s { memory = m })
        | some address ↦ elim c.connection_handle [
          | none ↦ fault
          | some handle ↦
              let sent = record m { live = replace address (async_request (some entry)) m.live } in
              if not platform.async_init
              then free_and address e_transport_error (record s { memory = m })
              else if not platform.async_send
              then free_and address e_transport_error (record s { memory = sent })
              else ok tt (record s { memory = sent })
        ]
      ]
]

abbrev pub write_by_ref : ℕ
write_by_ref = 1

abbrev pub write_dispose_buffer : ℕ
write_dispose_buffer = 2

abbrev pub has_flag : ℕ → ℕ → Bool
has_flag flags flag = not (bit_and flags flag == 0)

-- The end of a reply that failed: a copy of the buffer is freed.
unfoldable pub give_back : Bool → ℕ → ErrorCode → DataServer → Out DataServer (Unit {0})
give_back by_ref address e s = if by_ref then err e s else free_and address e s

-- What `replyMsg` does with the buffer to write.
unfoldable pub reply_with :
    Platform → (ℕ → Bool) → ℕ → ℕ → ℕ → Bool → Bool → DataServer → Out DataServer (Unit {0})
reply_with platform room connection address n dispose by_ref s =
    let (made, m) = allocate room (buffer_data connection address n dispose) s.memory in
    elim made [
      | none ↦ give_back by_ref address e_nomem (record s { memory = m })
      | some entry ↦
          elim (send_write_response platform room connection entry (record s { memory = m })) [
            | ok _ t ↦ ok tt t
            | err e t ↦ elim (free entry t.memory) [
              | ok _ left ↦ give_back by_ref address e (record t { memory = left })
              | err e' left ↦ fault
              | fault ↦ fault
            ]
            | fault ↦ fault
          ]
    ]

-- `replyMsg`, with the address of the caller's buffer and the bytes there.
unfoldable pub reply_msg :
    Platform → (ℕ → Bool) → ℕ → ℕ → List ℕ → ℕ → DataServer → Out DataServer (Unit {0})
reply_msg platform room connection buffer bytes flags s =
    let (copy, m) = allocate room (request_buffer bytes) s.memory in
    if not (state_number s.run_state == state_number rs_running)
    then err e_invalid_state s
    else if has_flag flags write_by_ref
    then reply_with platform room connection buffer (length bytes)
        (has_flag flags write_dispose_buffer) true s
    else elim copy [
      | none ↦ err e_nomem (record s { memory = m })
      | some address ↦
          reply_with platform room connection address (length bytes) true false
            (record s { memory = m })
    ]

-- `onAsyncWriteStatic`, for the address of the asynchronous request, up to the call of `uv_close`. The
-- derived class gets the buffer data, and its result is not used.
unfoldable pub on_async_write : ℕ → DataServer → Out DataServer (Unit {0})
on_async_write request s = elim (find request s.memory.live) [
  | some (async_request (some entry)) ↦ ok tt (record s {
    memory = record (s.memory) { live = replace request (async_request none) s.memory.live };
  })
  | _ ↦ fault
]

unfoldable pub on_close_async_write_req : ℕ → DataServer → Out DataServer (Unit {0})
on_close_async_write_req request s = elim (free request s.memory) [
  | ok _ m ↦ ok tt (record s { memory = m })
  | _ ↦ fault
]

-- `onAllocBuffer`, for the size that libuv suggests: the buffer, with zeros in place of what is there.
unfoldable pub on_alloc_buffer : (ℕ → Bool) → ℕ → DataServer → Option ℕ × DataServer
unfolding allocate
on_alloc_buffer room suggested_size s =
    let (buffer, m) = allocate room (request_buffer (replicate suggested_size 0)) s.memory in
    (buffer, record s { memory = m })

-- `freeRequestBuffer`, unless the pointer is null.
unfoldable pub free_buffer : Option ℕ → DataServer → Out DataServer (Unit {0})
free_buffer none s = ok tt s
free_buffer (some address) s = elim (free address s.memory) [
  | ok _ m ↦ ok tt (record s { memory = m })
  | _ ↦ fault
]

module _ {L : Type 0} (listener : DataListener L) where
  -- `onRead`, with the pointer in the buffer and the bytes that were read into it.
  unfoldable pub on_read :
      ℕ → ℤ → Option ℕ → List ℕ → Bool → L × DataServer → L × Out DataServer (Unit {0})
  on_read connection (negsuc status) buf bytes is_datagram (user, s) =
      (listener.on_read_error connection (negsuc status) user, free_buffer buf s)
  on_read connection (pos zero) buf bytes is_datagram (user, s) = (user, free_buffer buf s)
  on_read connection (pos (suc n)) buf bytes is_datagram (user, s) =
      let (action, next) =
        listener.on_bytes_received connection (take (suc n % u32_mod) bytes) is_datagram user in
      (next, if can_delete action then free_buffer buf s else ok tt s)

  abbrev pub notify_write : ℕ → ℕ → ℤ → L → L
  notify_write connection n (negsuc status) user =
      listener.on_write_error connection (negsuc status) user
  notify_write connection n (pos status) user =
      listener.on_bytes_sent connection n (pos status) user

  -- `onWrite`, for the address of the buffer data.
  unfoldable pub on_write : ℕ → ℤ → L × DataServer → L × Out DataServer (Unit {0})
  on_write entry status (user, s) = elim (find entry s.memory.live) [
    | some (buffer_data connection address n dispose) ↦ elim (connection_at connection s) [
      | none ↦ (user, fault)
      | some c ↦ (
        notify_write connection n status user,
        (elim (free_buffer (if dispose then some address else none) s) [
          | ok _ t ↦ free_buffer (some entry) t
          | _ ↦ fault
        ]),
      )
    ]
    | _ ↦ (user, fault)
  ]
