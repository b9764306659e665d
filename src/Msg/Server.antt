-- ===== src/Msg/Server.antt =====
-- inc/msg/msg_session.h, src/msg/msg_session.cpp, inc/msg/msg_server.h, src/msg/msg_server.cpp: a server of messages,
-- made of a data server, an assembler and a multiplexer, and its sessions.
pub mod Sessions
pub mod Lifecycle
pub mod Replies
use commutil.Common.{
  ℕ, zero, suc, Bool, true, false, Option, none, some, List, [], ◌∷◌, ◌++◌, get_elem?, set, add64,
  ◌==◌, if◌then◌else◌,
}
use commutil.Err.{
  ErrorCode, e_invalid_connection, e_session_not_found, e_session_stale, Out, ok, err, fault,
}
use commutil.Io.Bytes.{ByteOrder}
use commutil.Msg.Message.{Msg}
use commutil.Msg.Frame.{Gzip, FrameListener, read_msg_frame}
use commutil.Msg.Assembler
use commutil.Msg.Assembler.{MsgAssembler, MsgAction, msg_can_delete}
use commutil.Msg.Multiplexer
use commutil.Msg.Multiplexer.{MsgMultiplexer, resize}
use commutil.Msg.Outgoing.{serialize_msg, write_flags}
use commutil.Transport.Loop.{Platform}
use commutil.Transport.DataServer
use commutil.Transport.DataServer.{DataServer, ConnectionDetails}
use commutil.Transport.DataServer.Send
use commutil.Transport.DataServer.Send.{free_and}

pub record MsgSession : Type 0 where
  pub session_id : ℕ
  pub connection_id : ℕ
  pub connection_index : ℕ

-- What the factory gives; null: it does not give a session.
abbrev pub MsgSessionFactory : Type 0
MsgSessionFactory = ℕ → ConnectionDetails → Option MsgSession

-- The default factory, where `room` tells whether there is memory for the session with an id.
unfoldable pub default_session_factory : (ℕ → Bool) → MsgSessionFactory
default_session_factory room id c =
    if room id
    then some (record {
      session_id = id;
      connection_id = c.details_id;
      connection_index = c.details_index;
    })
    else none

-- `data_server` is a pointer: null, or the address of a data server of the program, which lives apart from
-- the message server. `deleted` are the sessions that went back to the factory, in order. The listener of
-- the assembler keeps no state here.
pub record MsgServer : Type 0 where
  pub data_server : Option ℕ
  pub msg_assembler : MsgAssembler (Unit {0})
  pub msg_multiplexer : MsgMultiplexer
  pub sessions : List (Option MsgSession)
  pub next_session_id : ℕ
  pub deleted : List MsgSession

-- What there is memory for when the server starts.
pub record Resources : Type 0 where
  pub queue_room : ℕ → Bool
  pub connection_array : Bool
  pub connection_room : ℕ → Bool
  pub stream_array : Bool
  pub stream_room : ℕ → Bool

-- The multiplexer is terminated, and an error returned.
unfoldable pub undo_multiplexer : ErrorCode → MsgServer → Out MsgServer (Unit {0})
undo_multiplexer e s = elim (Multiplexer.terminate s.msg_multiplexer) [
  | ok _ m ↦ err e (record s { msg_multiplexer = m })
  | _ ↦ fault
]

-- The data servers of the program, by their addresses; to follow a pointer that is null or to none of
-- them is not defined.
abbrev pub DataServers : Type 0
DataServers = List DataServer

-- The data server that a pointer leads to.
unfoldable pub server_at : Option ℕ → DataServers → Option (ℕ × DataServer)
server_at none servers = none
server_at (some at) servers = elim (get_elem? servers at) [ none ↦ none | some d ↦ some (at, d) ]

-- The result of an operation of the message server, with the data servers as they are.
unfoldable pub with_servers :
    DataServers → Out MsgServer (Unit {0}) → Out (DataServers × MsgServer) (Unit {0})
with_servers servers (ok _ s) = ok tt (servers, s)
with_servers servers (err e s) = err e (servers, s)
with_servers servers fault = fault

-- `initialize` for a pointer to a data server, which is saved at the end.
unfoldable pub initialize :
    Platform
    → Resources
    → ByteOrder
    → ℕ
    → ℕ
    → Option ℕ
    → DataServers × MsgServer
    → Out (DataServers × MsgServer) (Unit {0})
unfolding server_at with_servers
initialize platform r o max_connections concurrency data_server (servers, s) =
    elim (Multiplexer.initialize r.queue_room max_connections concurrency s.msg_multiplexer) [
      | err e m ↦ err e (servers, record s { msg_multiplexer = m })
      | fault ↦ fault
      | ok _ m ↦ elim (server_at data_server servers) [
        | none ↦ fault
        | some (at, given) ↦
            elim (DataServer.initialize platform r.connection_array r.connection_room
              max_connections given) [
                | err e d ↦ with_servers (set servers at d) (
                    undo_multiplexer e (record s {
                      msg_multiplexer = m;
                      msg_assembler = Assembler.terminate s.msg_assembler;
                    }))
                | fault ↦ fault
                | ok _ d ↦
                    elim (Assembler.initialize r.stream_array r.stream_room max_connections o
                      s.msg_assembler) [
                        | err e a ↦ with_servers (set servers at d) (
                            undo_multiplexer e
                              (record s { msg_multiplexer = m; msg_assembler = a }))
                        | fault ↦ fault
                        | ok _ a ↦ ok tt (
                          set servers at d,
                          record s {
                            data_server = data_server;
                            msg_multiplexer = m;
                            msg_assembler = a;
                            sessions = resize s.sessions max_connections none;
                          },
                        )
                      ]
              ]
      ]
    ]

-- The sessions that are there.
unfoldable pub present : List (Option MsgSession) → List MsgSession
present [] = []
present (none ∷ rest) = present rest
present (some session ∷ rest) = session ∷ present rest

unfoldable pub terminate :
    Platform → DataServers × MsgServer → Out (DataServers × MsgServer) (Unit {0})
unfolding server_at present
terminate platform (servers, s) = elim (server_at s.data_server servers) [
  | none ↦ fault
  | some (at, running) ↦ elim (DataServer.terminate platform running) [
    | err e d ↦ err e (set servers at d, s)
    | fault ↦ fault
    | ok _ d ↦ elim (Multiplexer.terminate s.msg_multiplexer) [
      | err e m ↦ err e (
        set servers at d,
        record s { msg_assembler = Assembler.terminate s.msg_assembler; msg_multiplexer = m },
      )
      | fault ↦ fault
      | ok _ m ↦ ok tt (
        set servers at d,
        record s {
          msg_assembler = Assembler.terminate s.msg_assembler;
          msg_multiplexer = m;
          deleted = s.deleted ++ present s.sessions;
          sessions = [];
        },
      )
    ]
  ]
]

-- `stop` of the multiplexer may not return, for its first argument.
unfoldable pub start :
    Platform → Bool → DataServers × MsgServer → Option (Out (DataServers × MsgServer) (Unit {0}))
unfolding server_at
start platform ended (servers, s) =
    let m = Multiplexer.start s.msg_multiplexer in
    elim (server_at s.data_server servers) [
      | none ↦ some fault
      | some (at, ready) ↦ elim (DataServer.start platform ready) [
        | ok _ d ↦ some (ok tt (set servers at d, record s { msg_multiplexer = m }))
        | fault ↦ some fault
        | err e d ↦ elim (Multiplexer.stop ended m) [
          | none ↦ none
          | some (ok _ stopped) ↦
              some (err e (set servers at d, record s { msg_multiplexer = stopped }))
          | some _ ↦ some fault
        ]
      ]
    ]

unfoldable pub stop :
    Platform → Bool → DataServers × MsgServer → Option (Out (DataServers × MsgServer) (Unit {0}))
unfolding server_at
stop platform ended (servers, s) = elim (server_at s.data_server servers) [
  | none ↦ some fault
  | some (at, running) ↦ elim (DataServer.stop platform running) [
    | err e d ↦ some (err e (set servers at d, s))
    | fault ↦ some fault
    | ok _ d ↦ elim (Multiplexer.stop ended s.msg_multiplexer) [
      | none ↦ none
      | some (ok _ m) ↦ some (ok tt (set servers at d, record s { msg_multiplexer = m }))
      | some (err e m) ↦ some (err e (set servers at d, record s { msg_multiplexer = m }))
      | some fault ↦ some fault
    ]
  ]
]

-- `onConnect` with a status of zero, for an entry of the array without a session.
unfoldable pub add_session : MsgSessionFactory → ConnectionDetails → MsgServer → Out MsgServer Bool
add_session factory c s =
    let t = record s { next_session_id = add64 s.next_session_id 1 } in
    elim (factory s.next_session_id c) [
      | none ↦ ok false t
      | some session ↦
          ok true (record t { sessions = set s.sessions c.details_index (some session) })
    ]

-- An index out of range has no defined behaviour.
unfoldable pub on_connect :
    MsgSessionFactory → ConnectionDetails → ℕ → MsgServer → Out MsgServer Bool
unfolding add_session
on_connect factory c (suc status) s = ok false s
on_connect factory c zero s = elim (get_elem? s.sessions c.details_index) [
  | none ↦ fault
  | some (some session) ↦ ok false s
  | some none ↦ add_session factory c s
]

-- The session listener's state goes with the server; null: there is no listener.
unfoldable pub on_disconnect :
    {L : Type 0}
    → Option (MsgSession → ConnectionDetails → L → L)
    → ConnectionDetails
    → L × MsgServer
    → Out (L × MsgServer) (Unit {0})
on_disconnect {L = L} listener c (user, s) = elim (get_elem? s.sessions c.details_index) [
  | none ↦ fault
  | some none ↦ ok tt (user, s)
  | some (some session) ↦
      let heard : L = elim listener [ none ↦ user | some hears ↦ hears session c user ] in
      ok tt (
        heard,
        record s {
          sessions = set s.sessions c.details_index none;
          deleted = s.deleted ++ session ∷ [];
        },
      )
]

unfoldable pub get_session : ConnectionDetails → MsgServer → Out MsgServer MsgSession
get_session c s = elim (get_elem? s.sessions c.details_index) [
  | none ↦ err e_invalid_connection s
  | some none ↦ err e_session_not_found s
  | some (some session) ↦
      if session.connection_id == c.details_id then ok session s else err e_session_stale s
]

-- `onMsg`, with the frame listener's state.
unfoldable pub on_msg :
    {L : Type 0} → FrameListener L → Gzip → ByteOrder → Msg → L → Out L MsgAction
on_msg listener gzip o m l = elim (read_msg_frame listener gzip o m l) [
  | ok _ next ↦ ok msg_can_delete next
  | err e next ↦ ok msg_can_delete next
  | fault ↦ fault
]

-- `replyMsg`, for the index of the connection, on the data server that the pointer leads to.
unfoldable pub reply_msg :
    Platform → (ℕ → Bool) → ByteOrder → ℕ → Msg → DataServer → Out DataServer (Unit {0})
reply_msg platform room o connection m d = elim (serialize_msg room o m d.memory) [
  | err e left ↦ err e (record d { memory = left })
  | fault ↦ fault
  | ok (address, bytes) held ↦
      elim (Send.reply_msg platform room connection address bytes write_flags
        (record d { memory = held })) [
          | ok _ t ↦ ok tt t
          | err e t ↦ free_and address e t
          | fault ↦ fault
        ]
]
