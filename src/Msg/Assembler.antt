-- ===== src/Msg/Assembler.antt =====
-- inc/msg/msg_assembler.h, src/msg/msg_assembler.cpp: messages from the buffers that arrive on each connection.
pub mod Rounds
pub mod Wire
pub mod Sequence
pub mod Delivery
pub mod Errors
use commutil.Common.{
  ℕ, zero, suc, ◌≡◌, Bool, true, false, Option, none, some, List, [], ◌∷◌, ◌++◌, get_elem?, set,
  replicate, ltb, ◌==◌, if◌then◌else◌,
}
use commutil.Err.{ErrorCode, e_end_of_stream, e_nomem, Out, ok, err, fault}
use commutil.Io.Bytes.{ByteOrder}
use commutil.Io.Stream.{peek}
use commutil.Io.Segmented
use commutil.Io.Segmented.{SegmentedInputStream, append_buffer, skip_bytes}
use commutil.Io.Segmented.Read.{segmented_input}
use commutil.Io.Segmented.Search.{search_bytes}
use commutil.Msg.Header
use commutil.Msg.Header.{MsgHeader, header_size, magic_size, msg_magic, of_memory, is_valid}
use commutil.Msg.Header.Flat.{to_host}
use commutil.Msg.Message.{Msg, Allocate, alloc_msg_like, deserialize}

pub data MsgState : Type 0 where
  ms_waiting_header ms_waiting_body ms_resync : MsgState

pub record MsgStream : Type 0 where
  pub is : SegmentedInputStream
  pub msg_header : MsgHeader
  pub state : MsgState

unfoldable pub make_stream : ByteOrder → MsgStream
unfolding Segmented.make Header.make_default
make_stream o = record {
  is = Segmented.make o;
  msg_header = Header.make_default;
  state = ms_waiting_header;
}

unfoldable pub reset_stream : MsgStream → MsgStream
unfolding Segmented.reset
reset_stream s = record s { is = Segmented.reset s.is; state = ms_resync }

-- inc/msg/msg_listener.h
pub data MsgAction : Type 0 where
  msg_no_action msg_can_delete msg_cannot_delete : MsgAction

-- The user's listener, on a state of its own; the first argument is the index of the connection, and
-- the status of a connect is given as a word of 32 bits.
pub record MsgListener (L : Type 0) : Type 0 where
  pub on_connect : ℕ → ℕ → L → Bool × L
  pub on_disconnect : ℕ → L → L
  pub on_msg : ℕ → Msg → L → MsgAction × L

-- One connection at work: its stream, the listener's state, and the messages that were freed after
-- they were dispatched, in order.
pub record Assembly (L : Type 0) : Type 0 where
  pub stream : MsgStream
  pub user : L
  pub freed : List Msg

-- `onWaitHeader`. Where the peek fails the header is as it was.
unfoldable pub on_wait_header : MsgStream → Out MsgStream (Unit {0})
unfolding reset_stream to_host
on_wait_header s = if ltb s.is.size header_size then ok tt s else elim (peek header_size s.is) [
  | ok bytes is ↦
      let h = to_host s.is.byte_order (of_memory bytes) in
      if is_valid h
      then ok tt (record { is = is; msg_header = h; state = ms_waiting_body })
      else elim (skip_bytes header_size is) [
        | ok n left ↦ ok tt (record { is = left; msg_header = h; state = ms_resync })
        | err e left ↦ ok tt (reset_stream (record { is = left; msg_header = h; state = s.state }))
        | fault ↦ fault
      ]
  | err e is ↦ ok tt (reset_stream (record s { is = is }))
  | fault ↦ fault
]

unfoldable pub on_resync : MsgStream → Out MsgStream (Unit {0})
unfolding reset_stream
on_resync s = if ltb s.is.size magic_size then ok tt s else elim (search_bytes msg_magic s.is) [
  | ok _ is ↦ ok tt (record s { is = is; state = ms_waiting_header })
  | err e_end_of_stream is ↦ ok tt (record s { is = is })
  | err e is ↦ ok tt (reset_stream (record s { is = is }))
  | fault ↦ fault
]

abbrev pub can_delete : MsgAction → Bool
can_delete msg_no_action = false
can_delete msg_can_delete = true
can_delete msg_cannot_delete = false

module _ {L : Type 0} (listener : MsgListener L) (new : Allocate) (connection : ℕ) where
  open listener use {on_msg}

  -- The dispatch of a message, and its release if the listener allows it.
  unfoldable pub dispatch : Msg → Assembly L → Assembly L
  dispatch m a =
      let (action, user) = on_msg connection m a.user in
      record a { user = user; freed = if can_delete action then a.freed ++ m ∷ [] else a.freed }

  -- What follows the allocation in `onWaitBody`. The result is whether the loop goes on.
  unfoldable pub read_body : Option Msg → Assembly L → Out (Assembly L) Bool
  unfolding reset_stream dispatch
  read_body none a = elim (skip_bytes a.stream.msg_header.length a.stream.is) [
    | ok n is ↦ ok false (record a { stream = record (a.stream) { is = is } })
    | err e is ↦ ok false (record a { stream = reset_stream (record (a.stream) { is = is }) })
    | fault ↦ fault
  ]
  read_body (some m) a = elim (deserialize m a.stream.is) [
    | ok filled is ↦ ok true (
        dispatch filled
          (record a { stream = record (a.stream) { is = is; state = ms_waiting_header } }))
    | err e is ↦ ok false (record a { stream = reset_stream (record (a.stream) { is = is }) })
    | fault ↦ fault
  ]

  unfoldable pub on_wait_body : Assembly L → Out (Assembly L) Bool
  unfolding read_body
  on_wait_body a =
      if ltb a.stream.is.size a.stream.msg_header.length
      then ok false a
      else elim (alloc_msg_like new a.stream.msg_header) [
        | ok m _ ↦ read_body m a
        | err e _ ↦ err e a
        | fault ↦ fault
      ]

  -- A handler of the stream alone; the loop goes on after it.
  abbrev pub on_stream : Out MsgStream (Unit {0}) → Assembly L → Out (Assembly L) Bool
  on_stream (ok _ s) a = ok true (record a { stream = s })
  on_stream (err e s) a = err e (record a { stream = s })
  on_stream fault a = fault

  -- The body of the loop of `onBytesReceived`, and its switch on the state.
  unfoldable pub round_in : MsgState → Assembly L → Out (Assembly L) Bool
  unfolding on_wait_header on_wait_body on_resync
  round_in ms_waiting_header a = on_stream (on_wait_header a.stream) a
  round_in ms_waiting_body a = on_wait_body a
  round_in ms_resync a = on_stream (on_resync a.stream) a

  unfoldable pub assemble_round : Assembly L → Out (Assembly L) Bool
  unfolding round_in
  assemble_round a = round_in a.stream.state a

  -- The loop, for at most so many tests of its condition; `none`: it has not ended.
  unfoldable pub assemble : ℕ → Assembly L → Option (Out (Assembly L) (Unit {0}))
  unfolding assemble_round
  assemble zero a = none
  assemble (suc rounds) a = elim (a.stream.is.size == 0) [
    | true ↦ some (ok tt a)
    | false ↦ elim (assemble_round a) [
      | ok true b ↦ assemble rounds b
      | ok false b ↦ some (ok tt b)
      | err e b ↦ some (err e b)
      | fault ↦ some fault
    ]
  ]

  -- `onBytesReceived`
  unfoldable pub receive : ℕ → List ℕ → Assembly L → Option (Out (Assembly L) (Unit {0}))
  unfolding assemble
  receive rounds buffer a =
      assemble rounds
        (record a { stream = record (a.stream) { is = append_buffer buffer (a.stream.is) } })

-- The assembler itself: a stream for each connection.
pub record MsgAssembler (L : Type 0) : Type 0 where
  pub msg_streams : List MsgStream
  pub user : L
  pub freed : List Msg

-- `room` tells whether there is memory for the array, and then for each stream.
unfoldable pub make_streams : (ℕ → Bool) → ByteOrder → ℕ → Option (List MsgStream)
unfolding make_stream
make_streams room o zero = some []
make_streams room o (suc n) = elim (make_streams room o n) [
  | none ↦ none
  | some streams ↦ if room n then some (streams ++ make_stream o ∷ []) else none
]

module _ {L : Type 0} where
  unfoldable pub initialize :
      Bool → (ℕ → Bool) → ℕ → ByteOrder → MsgAssembler L → Out (MsgAssembler L) (Unit {0})
  unfolding make_streams
  initialize array room max_connections o a =
      if array
      then elim (make_streams room o max_connections) [
        | none ↦ err e_nomem (record a { msg_streams = [] })
        | some streams ↦ ok tt (record a { msg_streams = streams })
      ]
      else err e_nomem (record a { msg_streams = [] })

  unfoldable pub terminate : MsgAssembler L → MsgAssembler L
  terminate a = record a { msg_streams = [] }

  unfoldable pub on_connect : MsgListener L → ℕ → ℕ → MsgAssembler L → Out (MsgAssembler L) Bool
  unfolding reset_stream
  on_connect listener index status a = elim (get_elem? a.msg_streams index) [
    | none ↦ fault
    | some s ↦
        let (accepted, user) = listener.on_connect index status a.user in
        ok accepted
          (record a { msg_streams = set a.msg_streams index (reset_stream s); user = user })
  ]

  unfoldable pub on_disconnect :
      MsgListener L → ℕ → MsgAssembler L → Out (MsgAssembler L) (Unit {0})
  unfolding reset_stream
  on_disconnect listener index a = elim (get_elem? a.msg_streams index) [
    | none ↦ fault
    | some s ↦ ok tt (record a {
      msg_streams = set a.msg_streams index (reset_stream s);
      user = listener.on_disconnect index a.user;
    })
  ]

  -- `onBytesReceived` on the stream of the connection.
  unfoldable pub on_bytes_received :
      MsgListener L
      → Allocate
      → ℕ
      → ℕ
      → List ℕ
      → MsgAssembler L
      → Option (Out (MsgAssembler L) (Unit {0}))
  unfolding receive
  on_bytes_received listener new rounds index buffer a = elim (get_elem? a.msg_streams index) [
    | none ↦ some fault
    | some s ↦
        elim (receive listener new index rounds buffer
          (record { stream = s; user = a.user; freed = a.freed })) [
            | none ↦ none
            | some (ok _ b) ↦ some (ok tt (stored b))
            | some (err e b) ↦ some (err e (stored b))
            | some fault ↦ some fault
          ]
  ]
    where
      stored : Assembly L → MsgAssembler L
      stored b = record {
        msg_streams = set a.msg_streams index b.stream;
        user = b.user;
        freed = b.freed;
      }
