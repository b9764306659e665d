-- ===== src/Transport/DataServer/Replies.antt =====
-- src/transport/data_server.cpp, lines 101-148: the memory of a reply.
use commutil.Common.{
  ℕ, suc, ◌≡◌, ◌⊎◌, inl, inr, refl, ap, ◌∙◌, Bool, true, false, some, List, ◌∷◌, length, ◌==◌,
  Bool-cases,
}
use commutil.Err.{ErrorCode, e_nomem, Out, ok, err}
use commutil.Transport.Memory.{
  request_buffer, buffer_data, Memory, allocate, remove, remove-head, allocate-full, allocate-room,
  free_live,
}
use commutil.Transport.Loop.{Platform}
use commutil.Transport.DataServer.{
  DataServer, ConnectionData, rs_running, state_number, connection_at,
}
use commutil.Transport.DataServer.Send.{
  write_by_ref, write_dispose_buffer, has_flag, free_and, give_back, reply_with, reply_msg,
}
use commutil.Transport.DataServer.Sending.{holding, Refused, queued, sent, send_write_response_lem}

module _ (platform : Platform) (room : ℕ → Bool) (connection : ℕ) (c : ConnectionData)
    (handle : ℕ) where
  -- The error with which a reply gives its buffer back.
  abbrev Returned : Bool → ℕ → DataServer → Out DataServer (Unit {0}) → Type 0
  Returned by_ref address s out =
      (e : ErrorCode) × (m : Memory) × (out ≡ give_back by_ref address e (holding m s))
      × (m.live ≡ s.memory.live)

  module _ (address n : ℕ) (dispose by_ref : Bool) (s : DataServer)
      (at : connection_at connection s ≡ some c)
      (open_handle : c.connection_handle ≡ some handle) where
    abbrev with_data : Memory
    with_data = record {
      next = suc s.memory.next;
      live = (s.memory.next, buffer_data connection address n dispose) ∷ s.memory.live;
    }

    after_send :
        allocate room (buffer_data connection address n dispose) s.memory
          ≡ (some s.memory.next, with_data)
        → Returned by_ref address s (reply_with platform room connection address n dispose by_ref s)
          ⊎ (reply_with platform room connection address n dispose by_ref s
              ≡ ok tt (holding (queued connection address n dispose s.memory) s))
    unfolding reply_with
    after_send gives =
        elim (send_write_response_lem platform room connection c handle s.memory.next
          (holding with_data s) (unfold connection_at in at) open_handle) [
            | inl (e, m, run, same) ↦ inl (
              e,
              record m { live = s.memory.live },
              rw (
                gives,
                reply_with,
                gives,
                run,
                free_live s.memory.next s.memory.live m (
                    ap (remove s.memory.next) same
                    ∙ remove-head s.memory.next (buffer_data connection address n dispose)
                        s.memory.live),
              ),
              refl,
            )
            | inr run ↦ inr (rw (gives, reply_with, gives, run))
          ]

    reply_with_lem :
        Returned by_ref address s (reply_with platform room connection address n dispose by_ref s)
        ⊎ (reply_with platform room connection address n dispose by_ref s
            ≡ ok tt (holding (queued connection address n dispose s.memory) s))
    unfolding reply_with
    reply_with_lem = elim (Bool-cases (room s.memory.next)) [
      | inr full ↦
          let none_left =
            allocate-full room (buffer_data connection address n dispose) s.memory full in
          inl (
            e_nomem,
            record { next = suc s.memory.next; live = s.memory.live },
            rw (none_left, reply_with, none_left),
            refl,
          )
      | inl free_room ↦
          after_send
            (allocate-room room (buffer_data connection address n dispose) s.memory free_room)
    ]

  module _ (buffer : ℕ) (bytes : List ℕ) (flags : ℕ) (s : DataServer)
      (running : s.run_state ≡ rs_running) (at : connection_at connection s ≡ some c)
      (open_handle : c.connection_handle ≡ some handle) where
    runs : (state_number s.run_state == 2) ≡ true
    runs = ap (λ q. state_number q == 2) running

    abbrev Answer : Bool → Bool → Type 0
    Answer by_ref dispose =
        Refused s (reply_msg platform room connection buffer bytes flags s)
        ⊎ (reply_msg platform room connection buffer bytes flags s
            ≡ ok tt (holding (sent connection by_ref dispose buffer bytes s.memory) s))

    by_reference :
        (dispose : Bool)
        → has_flag flags write_by_ref ≡ true
        → has_flag flags write_dispose_buffer ≡ dispose
        → Answer true dispose
    unfolding reply_msg give_back
    by_reference dispose e d =
        elim (reply_with_lem buffer (length bytes) dispose true s at open_handle) [
          | inl (code, m, run, same) ↦ inl (code, m, rw (runs, e, d, reply_msg, run), same)
          | inr run ↦ inr (rw (runs, e, d, reply_msg, run))
        ]

    abbrev with_copy : Memory
    with_copy = record {
      next = suc s.memory.next;
      live = (s.memory.next, request_buffer bytes) ∷ s.memory.live;
    }

    gave_back :
        (code : ErrorCode) (m : Memory)
        → remove s.memory.next m.live ≡ some s.memory.live
        → give_back false s.memory.next code (holding m s)
          ≡ err code (holding (record m { live = s.memory.live }) s)
    unfolding give_back free_and
    gave_back code m e = rw (free_live s.memory.next s.memory.live m e, free_and)

    pub by_copy : (dispose : Bool) → has_flag flags write_by_ref ≡ false → Answer false dispose
    unfolding reply_msg
    by_copy dispose e = elim (Bool-cases (room s.memory.next)) [
      | inr full ↦
          let none_left = allocate-full room (request_buffer bytes) s.memory full in
          inl (
            e_nomem,
            record { next = suc s.memory.next; live = s.memory.live },
            rw (runs, e, none_left, reply_msg, none_left),
            refl,
          )
      | inl free_room ↦
          let gives = allocate-room room (request_buffer bytes) s.memory free_room in
          elim (reply_with_lem s.memory.next (length bytes) true false (holding with_copy s)
            (unfold connection_at in at) open_handle) [
              | inl (code, m, run, same) ↦ inl (
                code,
                record m { live = s.memory.live },
                (rw (runs, e, gives, reply_msg, gives, run))
                    ∙ gave_back code m (
                        ap (remove s.memory.next) same
                        ∙ remove-head s.memory.next (request_buffer bytes) s.memory.live),
                refl,
              )
              | inr run ↦ inr (rw (runs, e, gives, reply_msg, gives, run))
            ]
    ]

    -- A reply of a running server to an open connection either is queued, with the data of its buffer,
    -- the request to write it and, unless the buffer is passed by reference, a copy of it; or an error
    -- is returned, and just what was live before is live.
    pub reply_msg_lem :
        Refused s (reply_msg platform room connection buffer bytes flags s)
        ⊎ (reply_msg platform room connection buffer bytes flags s
            ≡ ok tt (
                holding
                  (sent connection
                    (has_flag flags write_by_ref)
                    (has_flag flags write_dispose_buffer)
                    buffer
                    bytes
                    s.memory)
                  s))
    reply_msg_lem = choose (has_flag flags write_by_ref) refl
      where
        choose :
            (by_ref : Bool)
            → has_flag flags write_by_ref ≡ by_ref
            → Answer by_ref (has_flag flags write_dispose_buffer)
        choose true e = by_reference (has_flag flags write_dispose_buffer) e refl
        choose false e = by_copy (has_flag flags write_dispose_buffer) e
