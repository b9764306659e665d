-- ===== src/Transport/DataServer/Sending.antt =====
-- src/transport/data_server.cpp, lines 329-352: the request to write a buffer, and its memory.
use commutil.Common.{
  ℕ, suc, ◌≡◌, ◌⊎◌, inl, inr, refl, ◌∙◌, Bool, true, false, none, some, List, ◌∷◌, length,
  Bool-cases,
}
use commutil.Err.{ErrorCode, e_nomem, e_transport_error, Out, ok, err}
use commutil.Transport.Memory.{
  Block, request_buffer, buffer_data, async_request, Memory, allocate, allocate-full, allocate-room,
  free-head, replace-head,
}
use commutil.Transport.Loop.{Platform}
use commutil.Transport.DataServer.{DataServer, ConnectionData, connection_at}
use commutil.Transport.DataServer.Send.{free_and, send_write_response}

-- The server with other memory.
abbrev pub holding : Memory → DataServer → DataServer
holding m s = record s { memory = m }

-- An error is returned, and just what was live before is live.
abbrev pub Refused : DataServer → Out DataServer (Unit {0}) → Type 0
Refused s out =
    (e : ErrorCode) × (m : Memory) × (out ≡ err e (holding m s)) × (m.live ≡ s.memory.live)

free_and-head :
    (address next : ℕ) (b : Block) (e : ErrorCode) (live : List (ℕ × Block)) (s : DataServer)
    → free_and address e (holding (record { next = next; live = (address, b) ∷ live }) s)
      ≡ err e (holding (record { next = next; live = live }) s)
unfolding free_and
free_and-head address next b e live s = rw (free-head address next b live, free_and)

-- The request of an entry is on its way.
abbrev pub requested : ℕ → Memory → Memory
requested entry m = record {
  next = suc m.next;
  live = (m.next, async_request (some entry)) ∷ m.live;
}

-- The memory with the data of a buffer that is to be written, and with the request for that.
abbrev pub queued : ℕ → ℕ → ℕ → Bool → Memory → Memory
queued connection address n dispose m = requested m.next (record {
  next = suc m.next;
  live = (m.next, buffer_data connection address n dispose) ∷ m.live;
})

-- The memory after a reply was queued, by reference or with a copy of the buffer.
abbrev pub sent : ℕ → Bool → Bool → ℕ → List ℕ → Memory → Memory
sent connection true dispose buffer bytes m = queued connection buffer (length bytes) dispose m
sent connection false dispose buffer bytes m =
    queued connection m.next (length bytes) true
      (record { next = suc m.next; live = (m.next, request_buffer bytes) ∷ m.live })

module _ (platform : Platform) (room : ℕ → Bool) (connection : ℕ) (c : ConnectionData)
    (handle : ℕ) where
  fails_by :
      {out : Out DataServer (Unit {0})} (next : ℕ) (b : Block) (e : ErrorCode) (s : DataServer)
      → out
        ≡ free_and s.memory.next e
            (holding (record { next = next; live = (s.memory.next, b) ∷ s.memory.live }) s)
      → Refused s out
  fails_by next b e s run = (
    e,
    record { next = next; live = s.memory.live },
    run ∙ free_and-head s.memory.next next b e s.memory.live s,
    refl,
  )

  given :
      (entry : ℕ) (s : DataServer)
      → connection_at connection s ≡ some c
      → c.connection_handle ≡ some handle
      → allocate room (async_request none) s.memory ≡ (
        some s.memory.next,
        record {
          next = suc s.memory.next;
          live = (s.memory.next, async_request none) ∷ s.memory.live;
        },
      )
      → Refused s (send_write_response platform room connection entry s)
        ⊎ (send_write_response platform room connection entry s
            ≡ ok tt (holding (requested entry s.memory) s))
  unfolding send_write_response
  given entry s at open_handle gives = elim (Bool-cases platform.async_init) [
    | inr no_init ↦ inl (
        fails_by (suc s.memory.next) (async_request none) e_transport_error s
          (rw (at, gives, open_handle, no_init, send_write_response, gives)))
    | inl inits ↦ elim (Bool-cases platform.async_send) [
      | inr no_send ↦ inl (
          fails_by (suc s.memory.next) (async_request (some entry)) e_transport_error s (
            rw (
              at,
              gives,
              open_handle,
              inits,
              no_send,
              send_write_response,
              gives,
              replace-head s.memory.next (async_request none) (async_request (some entry))
                  s.memory.live,
            )))
      | inl sends ↦ inr (
          rw (
            at,
            gives,
            open_handle,
            inits,
            sends,
            send_write_response,
            gives,
            replace-head s.memory.next (async_request none) (async_request (some entry))
                s.memory.live,
          ))
    ]
  ]

  pub send_write_response_lem :
      (entry : ℕ) (s : DataServer)
      → connection_at connection s ≡ some c
      → c.connection_handle ≡ some handle
      → Refused s (send_write_response platform room connection entry s)
        ⊎ (send_write_response platform room connection entry s
            ≡ ok tt (holding (requested entry s.memory) s))
  unfolding send_write_response
  send_write_response_lem entry s at open_handle = elim (Bool-cases (room s.memory.next)) [
    | inr full ↦ inl (
      e_nomem,
      record { next = suc s.memory.next; live = s.memory.live },
      rw (
        at,
        allocate-full room (async_request none) s.memory full,
        send_write_response,
        allocate-full room (async_request none) s.memory full,
      ),
      refl,
    )
    | inl free_room ↦
        given entry s at open_handle (allocate-room room (async_request none) s.memory free_room)
  ]
