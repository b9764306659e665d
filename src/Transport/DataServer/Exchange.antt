-- ===== src/Transport/DataServer/Exchange.antt =====
-- src/transport/data_server.cpp: a reply from its call to its last callback.
use commutil.Common.{ℕ, suc, ◌≡◌, ◌⊎◌, inl, inr, Bool, true, false, some, List, ◌∷◌, arith, length}
use commutil.Err.{Out, ok}
use commutil.Transport.Memory.{request_buffer, remove-head}
use commutil.Transport.Loop.{ℤ, DataListener, Platform}
use commutil.Transport.DataServer.{DataServer, ConnectionData, rs_running, connection_at}
use commutil.Transport.DataServer.Send.{write_by_ref, has_flag, reply_msg, on_async_write}
use commutil.Transport.DataServer.Sending.{holding, Refused}
use commutil.Transport.DataServer.Replies.{by_copy}
use commutil.Transport.DataServer.Writes.{Settles, on_write-Settles}

-- The reply was taken, and when its buffer was written, just what was live before the reply is live.
abbrev pub Exchanged :
    {L : Type 0}
    → DataListener L
    → ℕ
    → ConnectionData
    → ℤ
    → L
    → DataServer
    → Out DataServer (Unit {0})
    → Type 0
Exchanged listener connection c status user s out =
    (t u : DataServer) × (next : ℕ) × (out ≡ ok tt t)
    × (on_async_write (suc (suc s.memory.next)) t ≡ ok tt u)
    × Settles listener connection c (suc (suc s.memory.next)) (suc s.memory.next) status user u
        (holding (record { next = next; live = s.memory.live }) s)

-- On a running server, whether a reply to an open connection with a copy of the caller's buffer is
-- refused, or written in the end, with success or not, and in whichever order the callbacks come: just
-- what was live before is live afterwards.
pub reply_msg-Settles :
    {L : Type 0} (listener : DataListener L) (platform : Platform) (room : ℕ → Bool)
    (connection : ℕ) (c : ConnectionData) (handle buffer : ℕ) (bytes : List ℕ) (flags : ℕ)
    (status : ℤ) (user : L) (s : DataServer)
    → s.run_state ≡ rs_running
    → connection_at connection s ≡ some c
    → c.connection_handle ≡ some handle
    → has_flag flags write_by_ref ≡ false
    → Refused s (reply_msg platform room connection buffer bytes flags s)
      ⊎ Exchanged listener connection c status user s
          (reply_msg platform room connection buffer bytes flags s)
reply_msg-Settles listener platform room connection c handle buffer bytes flags status user s
      running at open_handle copied =
    elim (by_copy platform room connection c handle buffer bytes flags s running at open_handle true
      copied) [
        | inl refused ↦ inl refused
        | inr run ↦
            let (u, taken, settles) =
              on_write-Settles listener connection c s.memory.next (length bytes) true
                (record {
                  next = suc s.memory.next;
                  live = (s.memory.next, request_buffer bytes) ∷ s.memory.live;
                })
                status user s.memory.live s at (omega arith)
                (remove-head s.memory.next (request_buffer bytes) s.memory.live) in
            inr (_, u, suc (suc (suc s.memory.next)), run, taken, settles)
      ]
