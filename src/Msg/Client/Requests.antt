-- ===== src/Msg/Client/Requests.antt =====
-- src/msg/msg_client.cpp, lines 74-159: sending a message, and waiting for its response.
use commutil.Common.{ℕ, Bool, Option, none, some, get_elem?, set, if◌then◌else◌}
use commutil.Err.{e_resource_limit, Out, ok, err, fault}
use commutil.Io.Bytes.{ByteOrder}
use commutil.Msg.Message.{Msg}
use commutil.Msg.Request
use commutil.Msg.Request.{MsgRequest, clear_request}
use commutil.Msg.RequestPool.{
  MsgRequestPool, get_request_data, get_vacant_request, fetch_add_request_id, wait_pending_response,
}
use commutil.Msg.Outgoing.{serialize_msg, write_flags}
use commutil.Transport.Loop.{Platform}
use commutil.Transport.DataServer.Send.{has_flag}
use commutil.Transport.DataClient
use commutil.Transport.DataClient.{DataClient, free_and}
use commutil.Msg.Client.{MsgClient, request_flag_tx, request_flag_reuse, on_client}

-- The error path of `sendMsg`: the request of a slot is cleared.
unfoldable pub clear_slot : ℕ → MsgRequestPool → MsgRequestPool
unfolding clear_request
clear_slot index p = elim (get_elem? p.requests index) [
  | none ↦ p
  | some r ↦ record p { requests = set p.requests index (clear_request r).1 }
]

-- The message with the slot and the id of its request.
unfoldable pub stamp : ℕ → ℕ → Msg → Msg
stamp index id m = record m {
  header = record (m.header) { request_index = index; request_id = id };
}

-- What `sendMsg` does with the data client: serialization, and a write of the buffer.
unfoldable pub transmit :
    Platform → (ℕ → Bool) → ByteOrder → Option ℕ → Msg → DataClient → Out DataClient (Unit {0})
transmit platform room o user_data m d = elim (serialize_msg room o m d.memory) [
  | err e left ↦ err e (record d { memory = left })
  | fault ↦ fault
  | ok (address, bytes) held ↦
      elim (DataClient.write platform room address bytes write_flags user_data
        (record d { memory = held })) [
          | ok _ t ↦ ok tt t
          | err e t ↦ free_and address e t
          | fault ↦ fault
        ]
]

unfoldable pub finish : ℕ → Out MsgClient (Unit {0}) → Out MsgClient (Unit {0})
unfolding clear_slot
finish index (ok _ t) = ok tt t
finish index (err e t) = err e (record t { request_pool = clear_slot index t.request_pool })
finish index fault = fault

-- The id and the index that are returned, and the message.
pub record Sent : Type 0 where
  pub sent_id : ℕ
  pub sent_index : ℕ
  pub message : Msg

-- A reused request stays in its slot, whose flags change. The index that is returned is zero.
unfoldable pub resend : Platform → (ℕ → Bool) → ByteOrder → ℕ → Msg → MsgClient → Out MsgClient Sent
unfolding finish
resend platform room o flags m s = elim (get_request_data m s.request_pool) [
  | none ↦ err e_resource_limit s
  | some (index, r) ↦
      let p = record (s.request_pool) {
        requests = set s.request_pool.requests index (Request.set_flags flags r);
      } in
      elim (finish index
        (on_client fault (transmit platform room o none m) (record s { request_pool = p }))) [
          | ok _ t ↦ ok (record { sent_id = m.header.request_id; sent_index = 0; message = m }) t
          | err e t ↦ err e t
          | fault ↦ fault
        ]
]

-- A new request gets a slot, with the message as it is stamped; its address goes with the buffer.
unfoldable pub send_new :
    Platform → (ℕ → Bool) → ByteOrder → ℕ → ℕ → ℕ → Msg → MsgClient → Out MsgClient Sent
unfolding finish
send_new platform room o now flags msg_address m s =
    let (id, counted) = fetch_add_request_id s.request_pool in
    elim (get_vacant_request id counted) [
      | err e p ↦ err e (record s { request_pool = p })
      | fault ↦ fault
      | ok none p ↦ err e_resource_limit (record s { request_pool = p })
      | ok (some index) p ↦ elim (get_elem? p.requests index) [
        | none ↦ fault
        | some r ↦
            let stamped = stamp index id m in
            let slot = Request.set_request now (some stamped) (Request.set_flags flags r) in
            let taken = record s {
              request_pool = record p { requests = set p.requests index slot };
            } in
            elim (finish index
              (on_client fault (transmit platform room o (some msg_address) stamped) taken)) [
                | ok _ t ↦ ok (record { sent_id = id; sent_index = index; message = stamped }) t
                | err e t ↦ err e t
                | fault ↦ fault
              ]
      ]
    ]

-- `sendMsg`, for a message at an address.
unfoldable pub send_msg :
    Platform → (ℕ → Bool) → ByteOrder → ℕ → ℕ → ℕ → Msg → MsgClient → Out MsgClient Sent
send_msg platform room o now flags msg_address m s =
    if has_flag flags request_flag_reuse
    then resend platform room o flags m s
    else send_new platform room o now flags msg_address m s

-- `transactMsgResponse`: `arrivals` is what the loop does with the client between the send and the wait, and
-- `meanwhile` what it does with the slot during the wait; `none`: the wait does not end.
unfoldable pub transact_msg_response :
    Platform
    → (ℕ → Bool)
    → ByteOrder
    → ℕ
    → ℕ
    → Bool
    → (MsgClient → MsgClient)
    → (MsgRequest → MsgRequest)
    → Msg
    → MsgClient
    → Option (Out MsgClient Msg)
transact_msg_response platform room o now msg_address infinite arrivals meanwhile m s =
    elim (send_msg platform room o now request_flag_tx msg_address m s) [
      | err e t ↦ some (err e t)
      | fault ↦ some fault
      | ok sent t ↦
          let u = arrivals t in
          elim (wait_pending_response sent.sent_index sent.sent_id infinite meanwhile
            u.request_pool) [
              | none ↦ none
              | some (ok response p) ↦ some (ok response (record u { request_pool = p }))
              | some (err e p) ↦ some (err e (record u { request_pool = p }))
              | some fault ↦ some fault
            ]
    ]
