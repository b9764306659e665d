-- ===== src/Msg/Client/Transactions.antt =====
-- src/msg/msg_client.cpp, lines 142-159 and 206-234: a request, its response, and the wait for it.
use commutil.Common.{
  ℕ, ◌<◌, ◌≡◌, refl, sym, ap, ◌∙◌, Bool, true, false, length, Option, none, some, get_elem?,
  get_elem?-set_self, get_elem?-lt,
}
use commutil.Err.{Out, ok, err, e_timed_out}
use commutil.Io.Bytes.{ByteOrder}
use commutil.Msg.Message.{Msg}
use commutil.Msg.Assembler.{MsgListener, msg_cannot_delete}
use commutil.Msg.Request
use commutil.Msg.Request.{MsgRequest, rs_pending, idle, clear_response}
use commutil.Msg.RequestPool.{MsgRequestPool, wait_pending_response}
use commutil.Msg.RequestPool.Responses.{Names, answered, served, wait_pending_response-set_response}
use commutil.Msg.RequestPool.Waits.{
  with_slot, wait_pending_response-during, wait_pending_response-endless,
  wait_pending_response-short,
}
use commutil.Msg.Client.{MsgClient, request_flag_tx, on_msg}
use commutil.Msg.Client.Requests.{send_msg, transact_msg_response}
use commutil.Msg.Client.Sending.{waiting}
use commutil.Msg.Client.Slots.{sent_as, pending_slot, client_after, Queued}
use commutil.Transport.Loop.{Platform}
use commutil.Transport.DataClient.{DataClient}
use commutil.Msg.Client.Arrivals.{
  Arrival, before_wait, during_wait, not_in_time, delivered, on_msg_lem, arrivals, slot_changes,
  waited, ends_with_wait,
}

module _ (platform : Platform) (room : ℕ → Bool) (o : ByteOrder) (now msg_address : ℕ) (m : Msg)
    (d : DataClient) (s : MsgClient) (r : MsgRequest) (response : Msg) where
  abbrev pub index : ℕ
  index = response.header.request_index

  abbrev pub slot : MsgRequest
  slot = pending_slot platform room o now request_flag_tx msg_address m d s index r

  abbrev pub sent_client : MsgClient
  sent_client = client_after platform room o now request_flag_tx msg_address m d s index slot (
      waiting o (some msg_address)
        (sent_as platform room o now request_flag_tx msg_address m d s index) d)

  slot_named :
      get_elem? s.request_pool.requests index ≡ some r
      → get_elem? sent_client.request_pool.requests index ≡ some slot
  slot_named at =
      get_elem?-set_self s.request_pool.requests index slot
        (get_elem?-lt s.request_pool.requests index r at)

  slot_id : slot.request_id ≡ s.request_pool.next_request_id
  unfolding Request.set_request Request.set_flags
  slot_id = refl

  slot_waits : slot.request_status ≡ rs_pending
  unfolding Request.set_request Request.set_flags
  slot_waits = refl

  slot_quiet : slot.flags ≡ request_flag_tx
  unfolding Request.set_request Request.set_flags
  slot_quiet = refl

  -- The response is returned, and the slot is idle.
  abbrev pub Answered : Option (Out MsgClient Msg) → Type 0
  Answered out =
      (u : MsgClient) × (out ≡ some (ok response u))
      × (left : MsgRequest) × (get_elem? u.request_pool.requests index ≡ some left)
      × (idle left.request_status ≡ true)

  -- How a transaction ends, with no timeout (`true`) or with one.
  abbrev pub Ends : Arrival → Bool → Option (Out MsgClient Msg) → Type 0
  Ends before_wait infinite out = Answered out
  Ends during_wait infinite out = Answered out
  Ends not_in_time true out = out ≡ none
  Ends not_in_time false out =
      (u : MsgClient) × (out ≡ some (err e_timed_out u))
      × (get_elem? u.request_pool.requests index ≡ some slot)

  module _ {L : Type 0} (listener : Option (MsgListener L)) (user : L)
      (others : MsgClient → MsgClient) (meanwhile : MsgRequest → MsgRequest)
      (run : Queued platform room o now request_flag_tx msg_address m d s index r)
      (same : response.header.request_id ≡ s.request_pool.next_request_id)
      (kept : get_elem? (others sent_client).request_pool.requests index ≡ some slot) where
    abbrev transacted : Arrival → Bool → Option (Out MsgClient Msg)
    transacted when infinite =
        transact_msg_response platform room o now msg_address infinite
          (arrivals listener user response others when) (slot_changes response meanwhile when) m s

    named : Names response (others sent_client).request_pool slot
    named = (kept, slot_id ∙ sym same)

    in_range : index < length (others sent_client).request_pool.requests
    in_range = get_elem?-lt (others sent_client).request_pool.requests index slot kept

    heard :
        on_msg listener 0 response (user, others sent_client)
        ≡ ok msg_cannot_delete (
          user,
          record (others sent_client) {
            request_pool = answered response slot (others sent_client).request_pool;
          },
        )
    heard = on_msg_lem listener user response (others sent_client) slot named slot_quiet

    arrived : delivered listener user response (others sent_client) ≡ record (others sent_client) {
      request_pool = answered response slot (others sent_client).request_pool;
    }
    arrived = rw (heard, delivered)

    sent_first :
        (when : Arrival) (infinite : Bool) (out : Option (Out MsgRequestPool Msg))
        → wait_pending_response index s.request_pool.next_request_id infinite
            (slot_changes response meanwhile when)
            (arrivals listener user response others when sent_client).request_pool
          ≡ out
        → transacted when infinite
          ≡ waited (arrivals listener user response others when sent_client) out
    unfolding send_msg
    sent_first when infinite out waits =
        ends_with_wait platform room o now msg_address infinite
          (arrivals listener user response others when) (slot_changes response meanwhile when) m _ s
          sent_client out run waits

    comes_before : (infinite : Bool) → Answered (transacted before_wait infinite)
    comes_before infinite =
        let (_, waits, left, there, vacant) =
          wait_pending_response-set_response response (others sent_client).request_pool slot named
            infinite meanwhile in
        (
          record (delivered listener user response (others sent_client)) {
            request_pool = served response (others sent_client).request_pool slot named;
          },
          sent_first before_wait infinite
              (some (ok response (served response (others sent_client).request_pool slot named)))
              (ap
                  (λ u.
                    wait_pending_response index s.request_pool.next_request_id infinite meanwhile
                      u.request_pool)
                  arrived
                ∙ ap
                    (λ i.
                      wait_pending_response index i infinite meanwhile
                        (answered response slot (others sent_client).request_pool))
                    (sym same)
                ∙ waits),
          left,
          there,
          vacant,
        )

    comes_during : (infinite : Bool) → Answered (transacted during_wait infinite)
    comes_during infinite =
        let left = clear_response (Request.set_response (some response) slot) in
        let pool = with_slot index left (others sent_client).request_pool in
        (
          record (others sent_client) { request_pool = pool },
          sent_first during_wait infinite (some (ok response pool)) (
              wait_pending_response-during index s.request_pool.next_request_id
                (Request.set_response (some response)) (others sent_client).request_pool slot kept
                slot_id slot_waits infinite response refl),
          left,
          get_elem?-set_self (others sent_client).request_pool.requests index left in_range,
          unfold clear_response in refl,
        )

    comes_late : (infinite : Bool) → Ends not_in_time infinite (transacted not_in_time infinite)
    comes_late true = sent_first not_in_time true none (
        wait_pending_response-endless index s.request_pool.next_request_id (λ x. x)
          (others sent_client).request_pool slot kept slot_id slot_waits refl)
    comes_late false =
        let pool = with_slot index slot (others sent_client).request_pool in
        (
          record (others sent_client) { request_pool = pool },
          sent_first not_in_time false (some (err e_timed_out pool)) (
              wait_pending_response-short index s.request_pool.next_request_id (λ x. x)
                (others sent_client).request_pool slot kept slot_id slot_waits refl),
          get_elem?-set_self (others sent_client).request_pool.requests index slot in_range,
        )

    -- A transaction whose request was queued, and whose response names the slot and the id of the
    -- request, while other messages leave the slot alone: if the response comes before the wait or
    -- during it, the transaction ends with this response, with a timeout or without, and the slot is
    -- idle. If it does not come in time, the transaction does not end without a timeout, and with one
    -- returns E_TIMED_OUT and leaves the slot as it was. Where the response comes, `onMsg` puts it in
    -- the slot, and the client's listener does not hear of it.
    pub transact_msg_response_lem :
        (when : Arrival) (infinite : Bool)
        → (on_msg listener 0 response (user, others sent_client)
            ≡ ok msg_cannot_delete (user, delivered listener user response (others sent_client)))
          × (get_elem?
                (delivered listener user response (others sent_client)).request_pool.requests
                index
              ≡ some (Request.set_response (some response) slot))
          × Ends when infinite (
              transact_msg_response platform room o now msg_address infinite
                (arrivals listener user response others when)
                (slot_changes response meanwhile when)
                m
                s)
    transact_msg_response_lem when infinite = (
      heard ∙ ap (λ u. ok msg_cannot_delete (user, u)) (sym arrived),
      ap (λ u. get_elem? u.request_pool.requests index) arrived
          ∙ get_elem?-set_self (others sent_client).request_pool.requests index
              (Request.set_response (some response) slot) in_range,
      ends when infinite,
    )
      where
        ends : (when : Arrival) (infinite : Bool) → Ends when infinite (transacted when infinite)
        ends before_wait infinite = comes_before infinite
        ends during_wait infinite = comes_during infinite
        ends not_in_time infinite = comes_late infinite
