-- ===== src/Transport/DataClient/Writing.antt =====
-- src/transport/data_client.cpp, lines 89-150 and 282-305: the memory of a write.
use commutil.Common.{
  ℕ, suc, ◌≡◌, ◌⊎◌, inl, inr, refl, ap, ◌∙◌, Bool, true, false, Option, none, some, List, ◌∷◌,
  length, Bool-cases,
}
use commutil.Err.{ErrorCode, e_nomem, e_transport_error, Out, ok, err}
use commutil.Transport.Memory.{
  Block, request_buffer, client_buffer_data, async_request, Memory, allocate, remove, remove-head,
  allocate-full, allocate-room, free_live, replace-head,
}
use commutil.Transport.Loop.{Platform}
use commutil.Transport.DataServer.Send.{write_by_ref, write_dispose_buffer, has_flag}
use commutil.Transport.DataClient.{
  DataClient, free_and, give_back, send_write_request, write_with, write,
}

-- The client with other memory.
abbrev pub holding : Memory → DataClient → DataClient
holding m s = record s { memory = m }

-- The memory with one more object.
abbrev pub with_block : Block → Memory → Memory
with_block b m = record { next = suc m.next; live = (m.next, b) ∷ m.live }

-- An error is returned, and just what was live before is live.
abbrev pub Refused : DataClient → Out DataClient (Unit {0}) → Type 0
Refused s out =
    (e : ErrorCode) × (m : Memory) × (out ≡ err e (holding m s)) × (m.live ≡ s.memory.live)

-- The memory with the data of a buffer that is to be written, and with the request for that.
abbrev pub queued : ℕ → ℕ → Bool → Option ℕ → Memory → Memory
queued address n dispose user_data m =
    with_block (async_request (some m.next))
      (with_block (client_buffer_data address n dispose user_data) m)

-- The memory after a write was queued, by reference or with a copy of the buffer.
abbrev pub sent : Bool → Bool → ℕ → List ℕ → Option ℕ → Memory → Memory
sent true dispose buffer bytes user_data m = queued buffer (length bytes) dispose user_data m
sent false dispose buffer bytes user_data m =
    queued m.next (length bytes) true user_data (with_block (request_buffer bytes) m)

-- What a call allocated first is freed, with an error.
freed_and :
    (address : ℕ) (e : ErrorCode) (m : Memory) (live : List (ℕ × Block)) (s : DataClient)
    → remove address m.live ≡ some live
    → free_and address e (holding m s) ≡ err e (holding (record m { live = live }) s)
unfolding free_and
freed_and address e m live s taken = rw (free_live address live m taken, free_and)

module _ (platform : Platform) (room : ℕ → Bool) where
  fails_by :
      {out : Out DataClient (Unit {0})} (b : Block) (e : ErrorCode) (s : DataClient)
      → out ≡ free_and s.memory.next e (holding (with_block b s.memory) s)
      → Refused s out
  fails_by b e s run = (
    e,
    record { next = suc s.memory.next; live = s.memory.live },
    run
        ∙ freed_and s.memory.next e (with_block b s.memory) s.memory.live s
            (remove-head s.memory.next b s.memory.live),
    refl,
  )

  abbrev Requested : ℕ → DataClient → Type 0
  Requested entry s =
      Refused s (send_write_request platform room entry s)
      ⊎ (send_write_request platform room entry s
          ≡ ok tt (holding (with_block (async_request (some entry)) s.memory) s))

  given :
      (entry : ℕ) (s : DataClient)
      → allocate room (async_request none) s.memory
        ≡ (some s.memory.next, with_block (async_request none) s.memory)
      → Requested entry s
  unfolding send_write_request
  given entry s gives =
      let placed =
        replace-head s.memory.next (async_request none) (async_request (some entry))
          s.memory.live in
      elim (Bool-cases platform.async_init) [
        | inr no_init ↦ inl (
            fails_by (async_request none) e_transport_error s
              (rw (gives, no_init, send_write_request, gives)))
        | inl inits ↦ elim (Bool-cases platform.async_send) [
          | inr no_send ↦ inl (
              fails_by (async_request (some entry)) e_transport_error s
                (rw (gives, inits, no_send, send_write_request, gives, placed)))
          | inl sends ↦ inr (rw (gives, inits, sends, send_write_request, gives, placed))
        ]
      ]

  send_write_request_lem : (entry : ℕ) (s : DataClient) → Requested entry s
  unfolding send_write_request
  send_write_request_lem entry s = elim (Bool-cases (room s.memory.next)) [
    | inr full ↦
        let no_room = allocate-full room (async_request none) s.memory full in
        inl (
          e_nomem,
          record { next = suc s.memory.next; live = s.memory.live },
          rw (no_room, send_write_request, no_room),
          refl,
        )
    | inl free_room ↦ given entry s (allocate-room room (async_request none) s.memory free_room)
  ]

  -- The error with which a write gives its buffer back.
  abbrev Returned : Bool → ℕ → DataClient → Out DataClient (Unit {0}) → Type 0
  Returned by_ref address s out =
      (e : ErrorCode) × (m : Memory) × (out ≡ give_back by_ref address e (holding m s))
      × (m.live ≡ s.memory.live)

  module _ (address n : ℕ) (dispose : Bool) (user_data : Option ℕ) (by_ref : Bool)
      (s : DataClient) where
    abbrev entry_data : Block
    entry_data = client_buffer_data address n dispose user_data

    abbrev Written : Type 0
    Written =
        Returned by_ref address s (write_with platform room address n dispose user_data by_ref s)
        ⊎ (write_with platform room address n dispose user_data by_ref s
            ≡ ok tt (holding (queued address n dispose user_data s.memory) s))

    after_send :
        allocate room entry_data s.memory ≡ (some s.memory.next, with_block entry_data s.memory)
        → Written
    unfolding write_with
    after_send gives =
        elim (send_write_request_lem s.memory.next (holding (with_block entry_data s.memory) s)) [
          | inl (e, m, run, same) ↦ inl (
            e,
            record m { live = s.memory.live },
            rw (
              gives,
              write_with,
              gives,
              run,
              free_live s.memory.next s.memory.live m (
                  ap (remove s.memory.next) same
                  ∙ remove-head s.memory.next entry_data s.memory.live),
            ),
            refl,
          )
          | inr run ↦ inr (rw (gives, write_with, gives, run))
        ]

    write_with_lem : Written
    unfolding write_with
    write_with_lem = elim (Bool-cases (room s.memory.next)) [
      | inr full ↦
          let no_room = allocate-full room entry_data s.memory full in
          inl (
            e_nomem,
            record { next = suc s.memory.next; live = s.memory.live },
            rw (no_room, write_with, no_room),
            refl,
          )
      | inl free_room ↦ after_send (allocate-room room entry_data s.memory free_room)
    ]

  module _ (buffer : ℕ) (bytes : List ℕ) (flags : ℕ) (user_data : Option ℕ) (s : DataClient) where
    abbrev Answer : Bool → Bool → Type 0
    Answer by_ref dispose =
        Refused s (write platform room buffer bytes flags user_data s)
        ⊎ (write platform room buffer bytes flags user_data s
            ≡ ok tt (holding (sent by_ref dispose buffer bytes user_data s.memory) s))

    by_reference :
        (dispose : Bool)
        → has_flag flags write_by_ref ≡ true
        → has_flag flags write_dispose_buffer ≡ dispose
        → Answer true dispose
    unfolding write give_back
    by_reference dispose e d =
        elim (write_with_lem buffer (length bytes) dispose user_data true s) [
          | inl (code, m, run, same) ↦ inl (code, m, rw (e, d, write, run), same)
          | inr run ↦ inr (rw (e, d, write, run))
        ]

    abbrev with_copy : DataClient
    with_copy = holding (with_block (request_buffer bytes) s.memory) s

    by_copy : (dispose : Bool) → has_flag flags write_by_ref ≡ false → Answer false dispose
    unfolding write give_back
    by_copy dispose e = elim (Bool-cases (room s.memory.next)) [
      | inr full ↦
          let no_room = allocate-full room (request_buffer bytes) s.memory full in
          inl (
            e_nomem,
            record { next = suc s.memory.next; live = s.memory.live },
            rw (e, no_room, write, no_room),
            refl,
          )
      | inl free_room ↦
          let gives = allocate-room room (request_buffer bytes) s.memory free_room in
          elim (write_with_lem s.memory.next (length bytes) true user_data false with_copy) [
            | inl (code, m, run, same) ↦ inl (
              code,
              record m { live = s.memory.live },
              (rw (e, gives, write, gives, run))
                  ∙ freed_and s.memory.next code m s.memory.live s (
                      ap (remove s.memory.next) same
                      ∙ remove-head s.memory.next (request_buffer bytes) s.memory.live),
              refl,
            )
            | inr run ↦ inr (rw (e, gives, write, gives, run))
          ]
    ]

    -- A write either is queued, with the data of its buffer, which hold the user's address, the request
    -- to write it and, unless the buffer is passed by reference, a copy of it; or an error is returned,
    -- and just what was live before is live.
    pub write_lem : Answer (has_flag flags write_by_ref) (has_flag flags write_dispose_buffer)
    write_lem = choose (has_flag flags write_by_ref) refl
      where
        choose :
            (by_ref : Bool)
            → has_flag flags write_by_ref ≡ by_ref
            → Answer by_ref (has_flag flags write_dispose_buffer)
        choose true e = by_reference (has_flag flags write_dispose_buffer) e refl
        choose false e = by_copy (has_flag flags write_dispose_buffer) e
