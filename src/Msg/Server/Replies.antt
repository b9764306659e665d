-- ===== src/Msg/Server/Replies.antt =====
-- src/msg/msg_server.cpp, lines 227-251: a reply with a message, over the data server.
use commutil.Common.{ℕ, suc, ◌≡◌, ◌⊎◌, inl, inr, refl, ap, ◌∙◌, Bool, true, some, arith, length}
use commutil.Err.{e_nomem, ok}
use commutil.Io.Bytes.{ByteOrder}
use commutil.Msg.Message.{Msg}
use commutil.Msg.Outgoing.{
  IsWhole, msg_bytes, with_buffer, write_flags, serialize_msg, serialize_msg_lem,
}
use commutil.Msg.Server.{reply_msg}
use commutil.Transport.Memory.{request_buffer, remove, remove-head, free_live}
use commutil.Transport.Loop.{ℤ, DataListener, Platform}
use commutil.Transport.DataServer.{DataServer, ConnectionData, rs_running, connection_at}
use commutil.Transport.DataServer.Send
use commutil.Transport.DataServer.Send.{free_and, on_async_write}
use commutil.Transport.DataServer.Sending.{holding, Refused, queued}
use commutil.Transport.DataServer.Replies
use commutil.Transport.DataServer.Writes.{Settles, on_write-Settles}

-- The server that waits for the loop to write the message.
abbrev pub waiting : ByteOrder → ℕ → Msg → DataServer → DataServer
waiting o connection m d =
    holding
      (queued connection d.memory.next (length (msg_bytes o m)) true
        (with_buffer (msg_bytes o m) d.memory))
      d

-- The callbacks of libuv take the message up and settle it, to leave just what was live in the server.
abbrev pub Settled :
    {L : Type 0}
    → DataListener L
    → ByteOrder
    → ℕ
    → ConnectionData
    → Msg
    → ℤ
    → L
    → DataServer
    → Type 0
Settled listener o connection c m status user d =
    (t : DataServer) × (next : ℕ) × (on_async_write (suc (suc d.memory.next))
        (waiting o connection m d)
      ≡ ok tt t)
    × Settles listener connection c (suc (suc d.memory.next)) (suc d.memory.next) status user t
        (holding (record { next = next; live = d.memory.live }) d)

module _ (platform : Platform) (room : ℕ → Bool) (o : ByteOrder) (connection : ℕ)
    (c : ConnectionData) (handle : ℕ) (m : Msg) (d : DataServer) where
  abbrev with_message : DataServer
  with_message = holding (with_buffer (msg_bytes o m) d.memory) d

  -- The answer of the data server settles that of the message server.
  refused :
      serialize_msg room o m d.memory
        ≡ ok (d.memory.next, msg_bytes o m) (with_buffer (msg_bytes o m) d.memory)
      → Refused with_message (
          Send.reply_msg platform room connection d.memory.next
            (msg_bytes o m)
            write_flags
            with_message)
      → Refused d (reply_msg platform room o connection m d)
  unfolding reply_msg free_and
  refused made (e, left, run, same) = (
    e,
    record left { live = d.memory.live },
    rw (
      made,
      reply_msg,
      run,
      free_and,
      free_live d.memory.next d.memory.live left (
          ap (remove d.memory.next) same
          ∙ remove-head d.memory.next (request_buffer (msg_bytes o m)) d.memory.live),
    ),
    refl,
  )

  sent_or_returned :
      IsWhole m
      → d.run_state ≡ rs_running
      → connection_at connection d ≡ some c
      → c.connection_handle ≡ some handle
      → Refused d (reply_msg platform room o connection m d)
        ⊎ (reply_msg platform room o connection m d ≡ ok tt (waiting o connection m d))
  unfolding reply_msg connection_at
  sent_or_returned whole running at open_handle = elim (serialize_msg_lem o m whole room d.memory) [
    | inl no_memory ↦ inl (
      e_nomem,
      record { next = suc d.memory.next; live = d.memory.live },
      rw (no_memory, reply_msg),
      refl,
    )
    | inr made ↦
        elim (Replies.reply_msg_lem platform room connection c handle d.memory.next (msg_bytes o m)
          write_flags with_message running at open_handle) [
            | inl answer ↦ inl (refused made answer)
            | inr run ↦ inr (rw (made, reply_msg, run))
          ]
  ]

  -- On a running server with an open connection a reply with a message whose length counts its header and
  -- its payload is either refused, and just what was live before is live; or a buffer with the bytes of
  -- its header and its payload waits to be written, and when libuv has written it, with success or
  -- not, just what was live before the reply is live, in whichever order the callbacks come.
  pub reply_msg-Settled :
      {L : Type 0} (listener : DataListener L) (status : ℤ) (user : L)
      → IsWhole m
      → d.run_state ≡ rs_running
      → connection_at connection d ≡ some c
      → c.connection_handle ≡ some handle
      → Refused d (reply_msg platform room o connection m d)
        ⊎ ((reply_msg platform room o connection m d ≡ ok tt (waiting o connection m d))
            × Settled listener o connection c m status user d)
  reply_msg-Settled listener status user whole running at open_handle =
      elim (sent_or_returned whole running at open_handle) [
        | inl answer ↦ inl answer
        | inr run ↦
            let (t, taken, settles) =
              on_write-Settles listener connection c d.memory.next (length (msg_bytes o m)) true
                (with_buffer (msg_bytes o m) d.memory) status user d.memory.live d at (omega arith)
                (remove-head d.memory.next (request_buffer (msg_bytes o m)) d.memory.live) in
            inr (run, (t, suc (suc (suc d.memory.next)), taken, settles))
      ]
