-- ===== src/Msg/Client/Slots.antt =====
-- src/msg/msg_client.cpp, lines 74-140: a new request, its slot and its message.
use commutil.Common.{
  ℕ, ◌<◌, ◌^◌, ◌≡◌, ◌⊎◌, inl, inr, refl, ap, ◌∙◌, Bool, true, none, some, List, arith, length,
  get_elem?, set, get_elem?-set_self, set-set, get_elem?-lt, u32_mod, length-set, add64,
}
use commutil.Err.{ErrorCode, e_resource_limit, ok, err, fault}
use commutil.Io.Bytes.{ByteOrder}
use commutil.Msg.Message.{Msg}
use commutil.Msg.Outgoing.{IsWhole}
use commutil.Msg.Request
use commutil.Msg.Request.{MsgRequest, rs_pending, idle, clear_request}
use commutil.Msg.RequestPool.{MsgRequestPool, get_vacant_request, fetch_add_request_id}
use commutil.Msg.RequestPool.Vacancy.{BusyAt, grabbed, get_vacant_request_lem}
use commutil.Msg.Client.{MsgClient, on_client}
use commutil.Msg.Client.Requests.{stamp, transmit, clear_slot, finish, send_new}
use commutil.Msg.Client.Sending.{waiting, transmit_lem}
use commutil.Transport.Memory.{Memory}
use commutil.Transport.Loop.{Platform}
use commutil.Transport.DataClient.{DataClient}
use commutil.Transport.DataClient.Writing.{holding}

stamp-IsWhole :
    (index id : ℕ) (m : Msg)
    → index < u32_mod
    → id < 256 ^ 8
    → IsWhole m
    → IsWhole (stamp index id m)
unfolding stamp
stamp-IsWhole index id m small narrow w = record {
  widths = record {
    magic = w.widths.magic;
    length_32 = w.widths.length_32;
    msg_id_16 = w.widths.msg_id_16;
    flags_16 = w.widths.flags_16;
    request_id_64 = narrow;
    request_index_32 = omega (arith, small);
    uncompressed_length_32 = w.widths.uncompressed_length_32;
    batch_size_32 = w.widths.batch_size_32;
    reserved_32 = w.widths.reserved_32;
  };
  counted = w.counted;
}

-- The pool when the id of the next request was taken.
abbrev pub counted : MsgRequestPool → MsgRequestPool
counted p = record p { next_request_id = add64 p.next_request_id 1 }

abbrev pub with_requests : List MsgRequest → MsgClient → MsgClient
with_requests rs s = record s { request_pool = record (counted s.request_pool) { requests = rs } }

module _ (platform : Platform) (room : ℕ → Bool) (o : ByteOrder) (now flags msg_address : ℕ)
    (m : Msg) (d : DataClient) (s : MsgClient) where
  abbrev pub id : ℕ
  id = s.request_pool.next_request_id

  -- The message as the slot has it, and the slot of a request that was sent.
  abbrev pub sent_as : ℕ → Msg
  sent_as index = stamp index id m

  abbrev pub pending_slot : ℕ → MsgRequest → MsgRequest
  pending_slot index r =
      Request.set_request now (some (sent_as index)) (Request.set_flags flags (grabbed id r))

  -- The slot of a request that was not sent.
  abbrev pub lost_slot : ℕ → MsgRequest → MsgRequest
  lost_slot index r = (clear_request (pending_slot index r)).1

  -- The client with another slot at an index, and another data client.
  abbrev pub client_after : ℕ → MsgRequest → DataClient → MsgClient
  client_after index r d' = record (with_requests (set s.request_pool.requests index r) s) {
    data_client = some d';
  }

  module _ (index : ℕ) (r : MsgRequest) (at : get_elem? s.request_pool.requests index ≡ some r)
      (attached : s.data_client ≡ some d) where
    abbrev taken_pool : MsgRequestPool
    taken_pool = record (counted s.request_pool) {
      requests = set s.request_pool.requests index (grabbed id r);
    }

    taken : MsgClient
    taken =
        with_requests
          (set (set s.request_pool.requests index (grabbed id r)) index (pending_slot index r)) s

    in_range : index < length s.request_pool.requests
    in_range = get_elem?-lt s.request_pool.requests index r at

    slot_taken : get_elem? taken_pool.requests index ≡ some (grabbed id r)
    slot_taken = get_elem?-set_self s.request_pool.requests index (grabbed id r) in_range

    slot_pending : get_elem? taken.request_pool.requests index ≡ some (pending_slot index r)
    unfolding taken
    slot_pending =
        get_elem?-set_self (set s.request_pool.requests index (grabbed id r)) index
          (pending_slot index r)
          (omega (arith, in_range, length-set s.request_pool.requests index (grabbed id r)))

    pending_once :
        set taken_pool.requests index (pending_slot index r)
        ≡ set s.request_pool.requests index (pending_slot index r)
    pending_once = set-set s.request_pool.requests index (grabbed id r) (pending_slot index r)

    lost_once :
        set taken.request_pool.requests index (lost_slot index r)
        ≡ set s.request_pool.requests index (lost_slot index r)
    unfolding taken
    lost_once =
        set-set taken_pool.requests index (pending_slot index r) (lost_slot index r)
        ∙ set-set s.request_pool.requests index (grabbed id r) (lost_slot index r)

    -- The end of a send, for what the data client did.
    sends :
        (e : DataClient)
        → transmit platform room o (some msg_address) (sent_as index) d ≡ ok tt e
        → finish index
            (on_client fault (transmit platform room o (some msg_address) (sent_as index)) taken)
          ≡ ok tt (client_after index (pending_slot index r) e)
    unfolding finish taken
    sends e run =
        rw (attached, on_client, run, finish)
          (ap (λ rs. ok tt (record (with_requests rs s) { data_client = some e })) pending_once)

    fails :
        (code : ErrorCode) (e : DataClient)
        → transmit platform room o (some msg_address) (sent_as index) d ≡ err code e
        → finish index
            (on_client fault (transmit platform room o (some msg_address) (sent_as index)) taken)
          ≡ err code (client_after index (lost_slot index r) e)
    unfolding finish taken clear_slot
    fails code e run =
        rw (attached, on_client, run, finish, clear_slot, slot_pending)
          (ap (λ rs. err code (record (with_requests rs s) { data_client = some e })) lost_once)

  -- No slot is idle: only the id is used up.
  abbrev pub NoSlot : Type 0
  NoSlot =
      ((j : ℕ) → BusyAt s.request_pool j)
      × (send_new platform room o now flags msg_address m s
          ≡ err e_resource_limit (record s { request_pool = counted s.request_pool }))

  -- The slot at an index, which was idle, is the one that changes: it waits, with the message or without.
  abbrev pub Queued : ℕ → MsgRequest → Type 0
  Queued index r =
      send_new platform room o now flags msg_address m s
      ≡ ok (record { sent_id = id; sent_index = index; message = sent_as index })
          (client_after index (pending_slot index r)
            (waiting o (some msg_address) (sent_as index) d))

  abbrev pub Lost : ℕ → MsgRequest → Type 0
  Lost index r =
      (e : ErrorCode) × (left : Memory) × (send_new platform room o now flags msg_address m s
        ≡ err e (client_after index (lost_slot index r) (holding left d)))
      × (left.live ≡ d.memory.live)
      × ((lost_slot index r).request_status ≡ rs_pending)
      × ((lost_slot index r).request ≡ none)

  given_slot :
      (index : ℕ) (r : MsgRequest)
      → get_elem? s.request_pool.requests index ≡ some r
      → s.data_client ≡ some d
      → get_vacant_request id (counted s.request_pool)
        ≡ ok (some index) (record (counted s.request_pool) {
          requests = set s.request_pool.requests index (grabbed id r);
        })
      → IsWhole (sent_as index)
      → Queued index r ⊎ Lost index r
  unfolding send_new fetch_add_request_id taken clear_request Request.set_request Request.set_flags
  given_slot index r at attached grabs whole =
      elim (transmit_lem platform room o (some msg_address) (sent_as index) d whole) [
        | inl (e, left, run, same) ↦ inr (
          e,
          left,
          rw (
            grabs,
            send_new,
            slot_taken index r at attached,
            fails index r at attached e (holding left d) run,
          ),
          same,
          refl,
          refl,
        )
        | inr run ↦ inl (
            rw (
              grabs,
              send_new,
              slot_taken index r at attached,
              sends index r at attached (waiting o (some msg_address) (sent_as index) d) run,
            ))
      ]

  -- Where the client is initialized, with fewer than 2^32 slots and at least one, a message whose length
  -- counts its header and its payload, sent as a new request, gets an idle slot, if there is one, with the
  -- next id. Either a buffer with the bytes of the message, which names the slot and the id, waits to be
  -- written, and the slot keeps the message; or the send fails and just what was live before is
  -- live, but the slot stays pending, without a message. No other slot changes.
  pub send_new_lem :
      0 < length s.request_pool.requests
      → length s.request_pool.requests < u32_mod
      → s.request_pool.next_request_id < 256 ^ 8
      → s.data_client ≡ some d
      → IsWhole m
      → NoSlot
        ⊎ ((index : ℕ) × (r : MsgRequest) × (get_elem? s.request_pool.requests index ≡ some r)
            × (idle r.request_status ≡ true)
            × (Queued index r ⊎ Lost index r))
  unfolding send_new fetch_add_request_id
  send_new_lem some_slot small narrow attached whole =
      elim (get_vacant_request_lem id (counted s.request_pool) some_slot small) [
        | inr (busy, run) ↦ inl (busy, rw (run, send_new))
        | inl (index, r, at, vacant, run) ↦ inr (
          index,
          r,
          at,
          vacant,
          given_slot index r at attached run (
              stamp-IsWhole index id m
                (omega (arith, get_elem?-lt s.request_pool.requests index r at, small)) narrow
                whole),
        )
      ]
