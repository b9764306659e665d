-- ===== src/Transport/DataClient/Closing.antt =====
-- src/transport/data_client.cpp, lines 192-204 and 231-240: errors, and the handle that they close.
use commutil.Common.{ℕ, ◌≡◌, Bool, Option, some, List}
use commutil.Err.{ok, fault}
use commutil.Transport.Memory.{Block, client_buffer_data, find, remove, free_live}
use commutil.Transport.Loop.{negsuc, DataListener}
use commutil.Transport.DataClient.{
  DataClient, DataLoopListener, open_transport, closing_transport, on_read, on_write,
  close_transport, report_write, free_buffer,
}

-- The client whose handle is closing, with other live objects.
abbrev pub closing : List (ℕ × Block) → DataClient → DataClient
closing live s = record s {
  transport = closing_transport;
  memory = record (s.memory) { live = live };
}

close_opened :
    (s : DataClient)
    → s.transport ≡ open_transport
    → close_transport s ≡ ok tt (record s { transport = closing_transport })
unfolding close_transport
close_opened s opened = rw (opened)

free_one :
    (address : ℕ) (rest : List (ℕ × Block)) (s : DataClient)
    → remove address s.memory.live ≡ some rest
    → free_buffer (some address) s ≡ ok tt (record s { memory = record (s.memory) { live = rest } })
unfolding free_buffer
free_one address rest s taken = rw (free_live address rest s.memory taken, free_buffer)

module _ {L : Type 0} (listener : DataListener L) (loop_listener : Option (DataLoopListener L))
    (s : DataClient) (user : L) where
  read_error :
      (status address : ℕ) (bytes : List ℕ) (is_datagram : Bool) (rest : List (ℕ × Block))
      → s.transport ≡ open_transport
      → remove address s.memory.live ≡ some rest
      → on_read listener loop_listener (negsuc status) (some address) bytes is_datagram (user, s)
        ≡ (listener.on_read_error 0 (negsuc status) user, ok tt (closing rest s))
  unfolding on_read
  read_error status address bytes is_datagram rest opened taken = rw (
    close_opened s opened,
    on_read,
    free_one address rest (record s { transport = closing_transport }) taken,
  )

  write_error :
      (status entry address n : ℕ) (dispose : Bool) (user_data : Option ℕ) (live : List (ℕ × Block))
      (later : L)
      → find entry live ≡ some (client_buffer_data address n dispose user_data)
      → on_write listener loop_listener entry (negsuc status) (later, closing live s)
        ≡ (listener.on_write_error 0 (negsuc status) later, fault)
  unfolding on_write report_write close_transport
  write_error status entry address n dispose user_data live later found = rw (found, on_write)

  -- A failed read of an open client frees its buffer, and the listener hears of it; the handle is closing
  -- then, and the client keeps it. If a write that was on its way fails after that, as libuv fails
  -- the writes of a closed handle, the listener hears of it, and `uv_close` is called for a handle that is
  -- closing already.
  pub on_write-on_read :
      (read_status write_status buf : ℕ) (bytes : List ℕ) (is_datagram : Bool) (entry address n : ℕ)
      (dispose : Bool) (user_data : Option ℕ) (rest : List (ℕ × Block))
      → s.transport ≡ open_transport
      → remove buf s.memory.live ≡ some rest
      → find entry rest ≡ some (client_buffer_data address n dispose user_data)
      → (on_read listener loop_listener (negsuc read_status) (some buf) bytes is_datagram (user, s)
          ≡ (listener.on_read_error 0 (negsuc read_status) user, ok tt (closing rest s)))
        × ((later : L)
            → on_write listener loop_listener entry (negsuc write_status) (later, closing rest s)
              ≡ (listener.on_write_error 0 (negsuc write_status) later, fault))
  on_write-on_read read_status write_status buf bytes is_datagram entry address n dispose user_data
        rest opened taken found =
      (
        read_error read_status buf bytes is_datagram rest opened taken,
        λ later. write_error write_status entry address n dispose user_data rest later found,
      )
