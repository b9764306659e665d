-- ===== src/Msg/Client.antt =====
-- inc/msg/msg_client.h, src/msg/msg_client.cpp: a client of messages, made of a data client, an assembler and a pool of
-- requests.
pub mod Requests
pub mod Sending
pub mod Slots
pub mod Arrivals
pub mod Transactions
use commutil.Common.{
  ℕ, zero, suc, Bool, true, false, not, Option, none, some, List, ltb, ◌==◌, get_elem?, set,
  if◌then◌else◌,
}
use commutil.Err.{
  ErrorCode, e_ok, e_invalid_argument, e_invalid_state, e_resource_limit, e_inprogress, Out, ok,
  err, fault,
}
use commutil.Io.Bytes.{ByteOrder}
use commutil.Msg.Message.{Msg}
use commutil.Msg.Assembler
use commutil.Msg.Assembler.{MsgAssembler, MsgAction, msg_can_delete, msg_cannot_delete, MsgListener}
use commutil.Msg.Request
use commutil.Msg.Request.{MsgRequest, clear_request}
use commutil.Msg.RequestPool
use commutil.Msg.RequestPool.{
  MsgRequestPool, get_request_data, get_vacant_request, fetch_add_request_id,
  abort_pending_requests, wait_pending_response,
}
use commutil.Msg.Outgoing.{serialize_msg, write_flags}
use commutil.Transport.Memory.{Memory}
use commutil.Transport.Loop.{ℤ, pos, Platform}
use commutil.Transport.DataServer.Send.{has_flag}
use commutil.Transport.DataClient
use commutil.Transport.DataClient.{DataClient, free_and}

pub record ConnectData : Type 0 where
  pub connect_arrived : ℕ
  pub connect_status : ℤ

unfoldable pub reset_connect_data : ConnectData
reset_connect_data = record { connect_arrived = 0; connect_status = pos 0 }

unfoldable pub notify_connect : ℤ → ConnectData
notify_connect status = record { connect_arrived = 1; connect_status = status }

-- `waitConnect` of ConnectData: `meanwhile` is what other threads do until the wait ends; `none`: it does not end.
unfoldable pub wait_connect_data :
    (ConnectData → ConnectData) → ConnectData → Option (ℤ × ConnectData)
wait_connect_data meanwhile d =
    let t = if d.connect_arrived == 0 then meanwhile d else d in
    if t.connect_arrived == 0 then none else some (t.connect_status, t)

-- The data client is a pointer, which is null before the initialization.
pub record MsgClient : Type 0 where
  pub data_client : Option DataClient
  pub msg_assembler : MsgAssembler (Unit {0})
  pub request_pool : MsgRequestPool
  pub connect_data : ConnectData

abbrev pub max_concurrent_requests : ℕ
max_concurrent_requests = 1024

abbrev pub request_flag_tx : ℕ
request_flag_tx = 1

abbrev pub request_flag_reuse : ℕ
request_flag_reuse = 2

-- `initialize`, with the data client that it is given, which may change even if it fails.
unfoldable pub initialize :
    Platform
    → Bool
    → (ℕ → Bool)
    → ByteOrder
    → ℕ
    → DataClient
    → MsgClient
    → Out (DataClient × MsgClient) (Unit {0})
initialize platform array room o max_requests d s =
    if ltb max_concurrent_requests max_requests
    then err e_invalid_argument (d, s)
    else elim (DataClient.initialize platform d) [
      | err e t ↦ err e (t, s)
      | fault ↦ fault
      | ok _ t ↦ elim (Assembler.initialize array room 1 o s.msg_assembler) [
        | err e a ↦ err e (t, record s { msg_assembler = a })
        | fault ↦ fault
        | ok _ a ↦ ok tt (
          t,
          record s {
            data_client = some t;
            msg_assembler = a;
            request_pool = RequestPool.initialize max_requests s.request_pool;
          },
        )
      ]
    ]

-- A call of the data client; null is an error of the caller, or has no defined behaviour.
abbrev pub on_client :
    Out MsgClient (Unit {0})
    → (DataClient → Out DataClient (Unit {0}))
    → MsgClient
    → Out MsgClient (Unit {0})
on_client missing call s = elim s.data_client [
  | none ↦ missing
  | some d ↦ elim (call d) [
    | ok _ t ↦ ok tt (record s { data_client = some t })
    | err e t ↦ err e (record s { data_client = some t })
    | fault ↦ fault
  ]
]

unfoldable pub terminate : Platform → MsgClient → Out MsgClient (Unit {0})
terminate platform s =
    let emptied = record s { request_pool = RequestPool.terminate s.request_pool } in
    elim (on_client fault (DataClient.terminate platform) emptied) [
      | ok _ t ↦ ok tt (record t { msg_assembler = Assembler.terminate t.msg_assembler })
      | err e t ↦ err e t
      | fault ↦ fault
    ]

unfoldable pub start : MsgClient → Out MsgClient (Unit {0})
start s = on_client (err e_invalid_state s) DataClient.start s

unfoldable pub stop : Platform → MsgClient → Out MsgClient (Unit {0})
stop platform s = on_client (err e_invalid_state s) (DataClient.stop platform) s

unfoldable pub is_ready : MsgClient → ErrorCode
is_ready s = elim s.data_client [
  | none ↦ e_invalid_state
  | some d ↦ if d.is_ready then e_ok else e_inprogress
]

unfoldable pub wait_ready :
    (DataClient → DataClient) → MsgClient → Option (Out MsgClient (Unit {0}))
wait_ready meanwhile s = elim s.data_client [
  | none ↦ some (err e_invalid_state s)
  | some d ↦ elim (DataClient.wait_ready meanwhile d) [
    | none ↦ none
    | some (status, t) ↦ some (ok tt (record s { data_client = some t }))
  ]
]

unfoldable pub wait_connect : (ConnectData → ConnectData) → MsgClient → Option (Out MsgClient ℤ)
wait_connect meanwhile s = elim s.data_client [
  | none ↦ some (err e_invalid_state s)
  | some _ ↦ elim (wait_connect_data meanwhile s.connect_data) [
    | none ↦ none
    | some (status, t) ↦ some (ok status (record s { connect_data = t }))
  ]
]

module _ {L : Type 0} (listener : Option (MsgListener L)) where
  -- The listener counts statuses as words.
  unfoldable pub on_connect : ℕ → ℤ → ℕ → L × MsgClient → Bool × (L × MsgClient)
  unfolding notify_connect
  on_connect index status word (user, s) =
      let t = record s { connect_data = notify_connect status } in
      elim listener [
        | none ↦ (true, (user, t))
        | some l ↦ let (accepted, next) = l.on_connect index word user in (accepted, (next, t))
      ]

  unfoldable pub on_disconnect : ℕ → L × MsgClient → L × MsgClient
  unfolding reset_connect_data
  on_disconnect index (user, s) =
      let t = record s {
        request_pool = abort_pending_requests s.request_pool;
        connect_data = reset_connect_data;
      } in
      elim listener [ none ↦ (user, t) | some l ↦ (l.on_disconnect index user, t) ]

  abbrev hear : Bool → ℕ → Msg → L → L
  hear quiet index m user = elim listener [
    | none ↦ user
    | some l ↦ if quiet then user else (l.on_msg index m user).1
  ]

  -- The flags are zero where no request is found, so that the listener hears of the message.
  unfoldable pub on_msg : ℕ → Msg → L × MsgClient → Out (L × MsgClient) MsgAction
  on_msg index m (user, s) = elim (RequestPool.set_response m s.request_pool) [
    | ok flags p ↦
        ok msg_cannot_delete
          (hear (has_flag flags request_flag_tx) index m user, record s { request_pool = p })
    | err e p ↦ ok msg_can_delete (hear false index m user, record s { request_pool = p })
    | fault ↦ fault
  ]
