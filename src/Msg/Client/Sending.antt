-- ===== src/Msg/Client/Sending.antt =====
-- src/msg/msg_client.cpp, lines 103-140: a message that is written, and its memory.
use commutil.Common.{ℕ, suc, ◌≡◌, ◌⊎◌, inl, inr, refl, ap, ◌∙◌, Bool, true, Option, length}
use commutil.Err.{e_nomem, ok}
use commutil.Io.Bytes.{ByteOrder}
use commutil.Msg.Message.{Msg}
use commutil.Msg.Outgoing.{
  IsWhole, msg_bytes, with_buffer, write_flags, serialize_msg, serialize_msg_lem,
}
use commutil.Msg.Client.Requests.{transmit}
use commutil.Transport.Memory.{request_buffer, remove, remove-head, free_live}
use commutil.Transport.Loop.{Platform}
use commutil.Transport.DataClient
use commutil.Transport.DataClient.{DataClient, free_and}
use commutil.Transport.DataClient.Writing.{holding, Refused, queued, write_lem}

-- The data client that waits for the loop to write the message.
abbrev pub waiting : ByteOrder → Option ℕ → Msg → DataClient → DataClient
waiting o user_data m d =
    holding
      (queued d.memory.next (length (msg_bytes o m)) true user_data
        (with_buffer (msg_bytes o m) d.memory))
      d

module _ (platform : Platform) (room : ℕ → Bool) (o : ByteOrder) (user_data : Option ℕ) (m : Msg)
    (d : DataClient) where
  abbrev with_message : DataClient
  with_message = holding (with_buffer (msg_bytes o m) d.memory) d

  not_written :
      serialize_msg room o m d.memory
        ≡ ok (d.memory.next, msg_bytes o m) (with_buffer (msg_bytes o m) d.memory)
      → Refused with_message (
          DataClient.write platform room d.memory.next
            (msg_bytes o m)
            write_flags
            user_data
            with_message)
      → Refused d (transmit platform room o user_data m d)
  unfolding transmit free_and
  not_written made (e, left, run, same) = (
    e,
    record left { live = d.memory.live },
    rw (
      made,
      transmit,
      run,
      free_and,
      free_live d.memory.next d.memory.live left (
          ap (remove d.memory.next) same
          ∙ remove-head d.memory.next (request_buffer (msg_bytes o m)) d.memory.live),
    ),
    refl,
  )

  -- The message waits in a buffer of its own, or just what was live before is live.
  pub transmit_lem :
      IsWhole m
      → Refused d (transmit platform room o user_data m d)
        ⊎ (transmit platform room o user_data m d ≡ ok tt (waiting o user_data m d))
  unfolding transmit
  transmit_lem whole = elim (serialize_msg_lem o m whole room d.memory) [
    | inl no_memory ↦ inl (
      e_nomem,
      record { next = suc d.memory.next; live = d.memory.live },
      rw (no_memory, transmit),
      refl,
    )
    | inr made ↦
        elim (write_lem platform room d.memory.next (msg_bytes o m) write_flags user_data
          with_message) [
            | inl answer ↦ inl (not_written made answer)
            | inr run ↦ inr (rw (made, transmit, run))
          ]
  ]
