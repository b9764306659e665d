-- ===== src/Msg/Client/Arrivals.antt =====
-- src/msg/msg_client.cpp, lines 142-159 and 206-234: a response that comes for a request, and the end of the wait.
use commutil.Common.{ℕ, ◌≡◌, Bool, Option, none, some}
use commutil.Err.{Out, ok, err, fault}
use commutil.Io.Bytes.{ByteOrder}
use commutil.Msg.Message.{Msg}
use commutil.Msg.Assembler.{MsgListener, msg_cannot_delete}
use commutil.Msg.Request
use commutil.Msg.Request.{MsgRequest, rs_pending, idle, clear_response}
use commutil.Msg.RequestPool.{MsgRequestPool, wait_pending_response}
use commutil.Msg.RequestPool.Responses.{Names, answered, set_response_lem}
use commutil.Msg.Client.{MsgClient, request_flag_tx, on_msg}
use commutil.Msg.Client.Requests.{Sent, send_msg, transact_msg_response}
use commutil.Transport.Loop.{Platform}

-- The client after a message arrived.
abbrev pub delivered : {L : Type 0} → Option (MsgListener L) → L → Msg → MsgClient → MsgClient
delivered listener user response t = elim (on_msg listener 0 response (user, t)) [
  | ok action (heard, u) ↦ u
  | err e (heard, u) ↦ u
  | fault ↦ t
]

-- A response in a slot whose request is a transaction goes there, and the listener does not hear of it.
pub on_msg_lem :
    {L : Type 0} (listener : Option (MsgListener L)) (user : L) (response : Msg) (t : MsgClient)
    (r : MsgRequest)
    → Names response t.request_pool r
    → r.flags ≡ request_flag_tx
    → on_msg listener 0 response (user, t)
      ≡ ok msg_cannot_delete (user, record t { request_pool = answered response r t.request_pool })
unfolding on_msg
on_msg_lem none user response t r named quiet =
    rw (set_response_lem response t.request_pool r named, on_msg)
on_msg_lem (some l) user response t r named quiet =
    rw (set_response_lem response t.request_pool r named, on_msg, quiet)

-- When the response to a request comes: between the send and the wait, during the wait, or not before
-- its end.
pub data Arrival : Type 0 where
  before_wait during_wait not_in_time : Arrival

-- What the loop does with the client between the send and the wait: `others`, for other messages, and the
-- response, if it comes then.
abbrev pub arrivals :
    {L : Type 0}
    → Option (MsgListener L)
    → L
    → Msg
    → (MsgClient → MsgClient)
    → Arrival
    → MsgClient
    → MsgClient
arrivals listener user response others before_wait t = delivered listener user response (others t)
arrivals listener user response others during_wait t = others t
arrivals listener user response others not_in_time t = others t

-- What it does with the slot of the request during the wait; a response that is in the slot before
-- ends the wait, whatever `meanwhile` would do.
abbrev pub slot_changes : Msg → (MsgRequest → MsgRequest) → Arrival → MsgRequest → MsgRequest
slot_changes response meanwhile before_wait r = meanwhile r
slot_changes response meanwhile during_wait r = Request.set_response (some response) r
slot_changes response meanwhile not_in_time r = r

-- The end of a wait as the end of a transaction.
abbrev pub waited : MsgClient → Option (Out MsgRequestPool Msg) → Option (Out MsgClient Msg)
waited u none = none
waited u (some (ok response p)) = some (ok response (record u { request_pool = p }))
waited u (some (err e p)) = some (err e (record u { request_pool = p }))
waited u (some fault) = some fault

-- A transaction ends as the wait does that comes after the arrivals.
pub ends_with_wait :
    (platform : Platform) (room : ℕ → Bool) (o : ByteOrder) (now msg_address : ℕ) (infinite : Bool)
    (comes : MsgClient → MsgClient) (meanwhile : MsgRequest → MsgRequest) (m : Msg) (sent : Sent)
    (s t : MsgClient) (out : Option (Out MsgRequestPool Msg))
    → send_msg platform room o now request_flag_tx msg_address m s ≡ ok sent t
    → wait_pending_response sent.sent_index sent.sent_id infinite meanwhile (comes t).request_pool
      ≡ out
    → transact_msg_response platform room o now msg_address infinite comes meanwhile m s
      ≡ waited (comes t) out
unfolding transact_msg_response
ends_with_wait platform room o now msg_address infinite comes meanwhile m sent s t none run waits =
    rw (run, transact_msg_response, waits)
ends_with_wait platform room o now msg_address infinite comes meanwhile m sent s t
      (some (ok response p)) run waits =
    rw (run, transact_msg_response, waits)
ends_with_wait platform room o now msg_address infinite comes meanwhile m sent s t (some (err e p))
      run waits =
    rw (run, transact_msg_response, waits)
ends_with_wait platform room o now msg_address infinite comes meanwhile m sent s t (some fault) run
      waits =
    rw (run, transact_msg_response, waits)
