-- ===== src/Msg/Server/Lifecycle.antt =====
-- src/msg/msg_server.cpp, lines 12-118: an initialization that fails at its last step, and what can be done then.
use commutil.Common.{
  ℕ, ◌≡◌, ◌⊎◌, ◌≢◌, inl, inr, sym, ap, ◌∙◌, Bool, true, false, none, some, List, [], arith, length,
  ltb, get_elem?, set, set-set, get_elem?-set_self, get_elem?-lt, le→ltb, length-replicate,
  Bool-cases, replicate,
}
use commutil.Err.{ErrorCode, e_nomem, e_invalid_state, Out, ok, err, fault}
use commutil.Io.Bytes.{ByteOrder}
use commutil.Msg.Assembler
use commutil.Msg.Assembler.{MsgAssembler}
use commutil.Msg.Multiplexer
use commutil.Msg.Multiplexer.{MsgEvent, MsgMultiplexer, all_room, resize, unassigned}
use commutil.Msg.Server.{
  MsgServer, DataServers, Resources, server_at, with_servers, undo_multiplexer, initialize, start,
  stop, terminate,
}
use commutil.Transport.Loop.{Platform}
use commutil.Transport.DataServer
use commutil.Transport.DataServer.{DataServer, RunState, rs_running, rs_idle}
use commutil.Transport.DataServer.States.{Ready, Undone, initialize_lem, wrong_state}

-- The multiplexer has its queues, and can be terminated.
abbrev Prepared : (ℕ → Bool) → ℕ → ℕ → MsgMultiplexer → Type 0
Prepared room n k m =
    (u v : MsgMultiplexer) × (Multiplexer.initialize room n k m ≡ ok tt u)
    × (Multiplexer.terminate u ≡ ok tt v)

has_queues :
    (room : ℕ → Bool) (n k : ℕ) (m : MsgMultiplexer) → all_room room k ≡ true → Prepared room n k m
unfolding Multiplexer.initialize Multiplexer.terminate
has_queues room n k m free_room =
    (queues, record queues { msg_queues = [] }, rw (free_room, Multiplexer.initialize), rw (enough))
  where
    empty : List (List MsgEvent)
    empty = replicate k []

    queues : MsgMultiplexer
    queues = record m {
      concurrency = k;
      connection_map = resize m.connection_map n unassigned;
      msg_queues = empty;
    }

    enough : ltb (length empty) k ≡ false
    enough = le→ltb (length empty) k (omega (arith, length-replicate {A = List MsgEvent} k []))

no_queues :
    (room : ℕ → Bool) (n k : ℕ) (m : MsgMultiplexer)
    → all_room room k ≡ false
    → (u : MsgMultiplexer) × (Multiplexer.initialize room n k m ≡ err e_nomem u)
unfolding Multiplexer.initialize
no_queues room n k m full = (
  record m {
    concurrency = k;
    connection_map = resize m.connection_map n unassigned;
    msg_queues = [];
  },
  rw (full, Multiplexer.initialize),
)

-- No message server is initialized with the data server at an address, with whatever resources; and the
-- data servers stay as they are.
abbrev pub Refuses : ℕ → DataServers → Type 0
Refuses at servers =
    (platform : Platform) (r : Resources) (o : ByteOrder) (max_connections concurrency : ℕ)
    (u : MsgServer)
    → (e : ErrorCode) × (v : MsgServer) × (initialize platform r o max_connections concurrency
          (some at) (servers, u)
        ≡ err e (servers, v))

-- The message server goes through a null pointer.
abbrev pub Detached : DataServers × MsgServer → Type 0
Detached w =
    (platform : Platform) (ended : Bool)
    → (start platform ended w ≡ some fault)
      × (stop platform ended w ≡ some fault)
      × (terminate platform w ≡ fault)

detached : (servers : DataServers) (t : MsgServer) → t.data_server ≡ none → Detached (servers, t)
unfolding start stop terminate server_at
detached servers t null platform ended = (rw (null, start), rw (null, stop), rw (null, terminate))

no_restart :
    (at : ℕ) (servers : DataServers) (d : DataServer)
    → get_elem? servers at ≡ some d
    → set servers at d ≡ servers
    → d.run_state ≡ rs_running
    → Refuses at servers
unfolding initialize server_at with_servers undo_multiplexer
no_restart at servers d there kept running platform r o n k u =
    elim (Bool-cases (all_room r.queue_room k)) [
      | inr full ↦
          let (m, run) = no_queues r.queue_room n k u.msg_multiplexer full in
          (e_nomem, record u { msg_multiplexer = m }, rw (run, initialize))
      | inl free_room ↦
          let (m, v, run, ends) = has_queues r.queue_room n k u.msg_multiplexer free_room in
          (
            e_invalid_state,
            record u { msg_multiplexer = v; msg_assembler = Assembler.terminate u.msg_assembler },
            rw (run, initialize, there, refused, undo_multiplexer, ends)
                (ap
                  (λ ds. err e_invalid_state (
                    ds,
                    record u {
                      msg_multiplexer = v;
                      msg_assembler = Assembler.terminate u.msg_assembler;
                    },
                  ))
                  kept),
          )
    ]
  where
    not_idle : d.run_state ≢ rs_idle
    not_idle h = absurd (cc (h, running))

    refused :
        DataServer.initialize platform r.connection_array r.connection_room n d
        ≡ err e_invalid_state d
    refused = (wrong_state platform r.connection_array r.connection_room n 0 0 [] 0 d).0 not_idle

state_after : DataServer → Out DataServer (Unit {0}) → RunState
state_after s (ok _ t) = t.run_state
state_after s _ = s.run_state

is_running :
    (platform : Platform) (n : ℕ) (s d : DataServer) {out : Out DataServer (Unit {0})}
    → Ready n s out ⊎ Undone platform s out
    → out ≡ ok tt d
    → d.run_state ≡ rs_running
unfolding state_after
is_running platform n s d (inl (connections, run, vacant)) done =
    ap (state_after s) (sym done ∙ run)
is_running platform n s d (inr (e, t, run, _, _, _, _)) done = absurd (cc (run, done))

-- Where a message server that has no data server is initialized with a closed and idle one, whose
-- initialization succeeds, but the assembler is not initialized: the error of the assembler is returned,
-- and the data server runs and is not saved. To start, stop or terminate the message server then goes
-- through the null pointer; and as long as the data servers are as they are, no message server is
-- initialized with this one, whatever the resources.
pub initialize-Refuses :
    (platform : Platform) (r : Resources) (o : ByteOrder) (max_connections concurrency at : ℕ)
    (servers : DataServers) (s : MsgServer) (given d : DataServer) (e : ErrorCode)
    (a : MsgAssembler (Unit {0}))
    → s.data_server ≡ none
    → get_elem? servers at ≡ some given
    → given.run_state ≡ rs_idle
    → given.server_loop.is_open ≡ false
    → all_room r.queue_room concurrency ≡ true
    → DataServer.initialize platform r.connection_array r.connection_room max_connections given
      ≡ ok tt d
    → Assembler.initialize r.stream_array r.stream_room max_connections o s.msg_assembler ≡ err e a
    → (t : MsgServer) × (initialize platform r o max_connections concurrency (some at) (servers, s)
        ≡ err e (set servers at d, t))
      × (d.run_state ≡ rs_running)
      × Detached (set servers at d, t)
      × Refuses at (set servers at d)
unfolding initialize server_at with_servers undo_multiplexer
initialize-Refuses platform r o n k at servers s given d e a null there idle closed room opened
      failed =
    let (u, v, run, ends) = has_queues r.queue_room n k s.msg_multiplexer room in
    (
      record s { msg_multiplexer = v; msg_assembler = a },
      rw (run, initialize, there, opened, failed, undo_multiplexer, ends),
      running,
      detached (set servers at d) (record s { msg_multiplexer = v; msg_assembler = a }) null,
      no_restart at (set servers at d) d
          (get_elem?-set_self servers at d (get_elem?-lt servers at given there))
          (set-set servers at d d) running,
    )
  where
    running : d.run_state ≡ rs_running
    running =
        is_running platform n given d
          (initialize_lem platform r.connection_array r.connection_room n given idle closed) opened
