-- ===== src/Msg/Backlog/Pruning.antt =====
-- src/msg/msg_backlog.cpp, lines 52-156: requests whose slots were cleared before they are removed.
use commutil.Common.{
  ℕ, suc, ◌-◌, ◌<◌, ◌≡◌, ◌≢◌, refl, sym, ap, ◌∙◌, true, none, some, List, [], ◌∷◌, arith, get_elem?,
  set, get_elem?-set_self, get_elem?-set_ne, get_elem?-lt, ==_self, sub64, le→ltb, lt→ltb, u64_mod,
  u32_mod,
}
use native.Mathlib.Nat.{mod-lt}
use commutil.Err.{e_ok, e_data_corrupt, e_internal_error, ok, err}
use commutil.Msg.Message.{Msg, payload_size_bytes}
use commutil.Msg.Request.{MsgRequest, clear_response}
use commutil.Msg.RequestPool.{MsgRequestPool, clear_pending_request}
use commutil.Msg.RequestPool.Responses.{Names, find_request_lem}
use commutil.Transport.Memory.{other_address}
use commutil.Msg.Backlog.{
  BacklogEntry, MsgBacklog, or_made, slot_of, request_time, none_earlier, partitioned, take_out,
  take_out_at, find_request_by_time, find_entry, erase_entry, remove_pending_request, prune_entry,
  prune_backlog, without,
}

-- The pool after the request of a message was cleared.
abbrev pub cleared : Msg → MsgRequest → MsgRequestPool → MsgRequestPool
cleared m r p = record p { requests = set p.requests m.header.request_index (clear_response r) }

clear_lem :
    (m : Msg) (r : MsgRequest) (p : MsgRequestPool)
    → Names m p r
    → clear_pending_request m p ≡ ok tt (cleared m r p)
unfolding clear_pending_request
clear_lem m r p named = rw (find_request_lem m p r named, clear_pending_request)

-- The time of a request that was cleared is zero, and others keep theirs.
cleared_time :
    (m : Msg) (r : MsgRequest) (p : MsgRequestPool) (e : BacklogEntry)
    → Names m p r
    → e.slot ≡ m.header.request_index
    → request_time (cleared m r p) e ≡ 0
unfolding slot_of clear_response or_made
cleared_time m r p e named same =
    ap (λ o. (or_made o).request_time_millis)
      (ap (get_elem? (cleared m r p).requests) same
        ∙ get_elem?-set_self p.requests m.header.request_index (clear_response r)
            (get_elem?-lt p.requests m.header.request_index r named.0))

other_time :
    (m : Msg) (r : MsgRequest) (p : MsgRequestPool) (e : BacklogEntry)
    → e.slot ≢ m.header.request_index
    → request_time (cleared m r p) e ≡ request_time p e
unfolding slot_of
other_time m r p e differs =
    ap (λ o. (or_made o).request_time_millis)
      (get_elem?-set_ne p.requests m.header.request_index e.slot (clear_response r)
        (λ h. differs (sym h)))

none_before_zero :
    (time : BacklogEntry → ℕ) (xs : List BacklogEntry) → none_earlier time 0 xs ≡ true
unfolding none_earlier
none_before_zero time [] = refl
none_before_zero time (x ∷ xs) = rw (le→ltb (time x) 0 (omega arith)) (none_before_zero time xs)

always_partitioned :
    (time : BacklogEntry → ℕ) (xs : List BacklogEntry) → partitioned time 0 xs ≡ true
unfolding partitioned
always_partitioned time [] = refl
always_partitioned time (x ∷ xs) = rw (le→ltb (time x) 0 (omega arith)) (none_before_zero time xs)

-- A search by the time zero ends at the first entry, if that has another time and another message.
not_found :
    (time : BacklogEntry → ℕ) (address : ℕ) (x : BacklogEntry) (xs : List BacklogEntry)
    → x.msg_address ≢ address
    → time x ≢ 0
    → find_request_by_time time 0 address (x ∷ xs) ≡ none
unfolding find_request_by_time take_out_at
not_found time address x xs differs later = rw (
  le→ltb (time x) 0 (omega arith),
  other_address x.msg_address address differs,
  other_address (time x) 0 later,
)

-- When the slot of a request in the backlog is cleared, and then the request is to be removed from the
-- backlog, it is not found, unless it is the first of the set by request time or the first has the time
-- zero: E_DATA_CORRUPT is returned, and the backlog keeps the entry.
pub remove_pending_request-clear_pending_request :
    (m : Msg) (r : MsgRequest) (p : MsgRequestPool) (address : ℕ) (b : MsgBacklog)
    (e x : BacklogEntry) (rest : List BacklogEntry)
    → Names m p r
    → find_entry m.header.request_id b.request_map ≡ some e
    → e.slot ≡ m.header.request_index
    → b.request_set ≡ x ∷ rest
    → x.msg_address ≢ address
    → x.slot ≢ m.header.request_index
    → request_time p x ≢ 0
    → (clear_pending_request m p ≡ ok tt (cleared m r p))
      × (remove_pending_request (cleared m r p) address m b ≡ err e_data_corrupt b)
unfolding remove_pending_request
remove_pending_request-clear_pending_request m r p address b e x rest named at same first differs
      elsewhere later =
    (
      clear_lem m r p named,
      rw (
        at,
        remove_pending_request,
        cleared_time m r p e named same,
        always_partitioned (request_time (cleared m r p)) b.request_set,
        ap (find_request_by_time (request_time (cleared m r p)) 0 address) first
            ∙ not_found (request_time (cleared m r p)) address x rest differs
                (λ h. later (sym (other_time m r p x elsewhere) ∙ h)),
      ),
    )

-- A backlog with one entry, and one that lost it.
abbrev pub lone : BacklogEntry → ℕ → MsgBacklog
lone e size = record {
  backlog_size_bytes = size;
  request_map = (e.msg.header.request_id, e) ∷ [];
  request_set = e ∷ [];
  min_heap = e ∷ [];
}

abbrev pub emptied : ℕ → MsgBacklog
emptied size = record {
  backlog_size_bytes = size;
  request_map = [];
  request_set = [];
  min_heap = [];
}

module _ (e : BacklogEntry) where
  found_in_map :
      (id : ℕ) → (find_entry id ((id, e) ∷ []) ≡ some e) × (erase_entry id ((id, e) ∷ []) ≡ [])
  unfolding find_entry erase_entry
  found_in_map id = (rw (==_self id), rw (==_self id))

  found_in_set :
      (time : BacklogEntry → ℕ)
      → (partitioned time (time e) (e ∷ []) ≡ true)
        × (find_request_by_time time (time e) e.msg_address (e ∷ []) ≡ some (e, []))
  unfolding partitioned none_earlier find_request_by_time take_out_at
  found_in_set time = (
    rw (le→ltb (time e) (time e) (omega arith)),
    rw (le→ltb (time e) (time e) (omega arith), ==_self e.msg_address),
  )

  found_in_heap : take_out e.msg_address (e ∷ []) ≡ some (e, [])
  unfolding take_out
  found_in_heap = rw (==_self e.msg_address)

  lone_removed :
      (p : MsgRequestPool) (size : ℕ)
      → remove_pending_request p e.msg_address e.msg (lone e size)
        ≡ ok tt (emptied (sub64 size (payload_size_bytes e.msg)))
  unfolding remove_pending_request
  lone_removed p size =
      let (there, gone) = found_in_map e.msg.header.request_id in
      let (apart, found) = found_in_set (request_time p) in
      rw (there, remove_pending_request, apart, found, found_in_heap, gone)

module _ (e : BacklogEntry) (r : MsgRequest) (p : MsgRequestPool) (max_size : ℕ) where
  n : ℕ
  n = payload_size_bytes e.msg

  narrow : n < u32_mod
  unfolding n payload_size_bytes
  narrow = mod-lt _ (omega arith)

  taken_off : without n n ≡ 0
  taken_off = rw (le→ltb n n (omega arith)) (omega (arith, narrow))

  wraps : 0 < n → sub64 0 n ≡ u64_mod - n
  wraps h = omega (arith, h, narrow)

  one_round :
      Names e.msg p r
      → 0 < n
      → prune_entry e e_ok (p, lone e n) ≡ ok e_ok (cleared e.msg r p, emptied (u64_mod - n))
  unfolding prune_entry n
  one_round named h = rw (
    clear_lem e.msg r p named,
    prune_entry,
    taken_off,
    lone_removed e (cleared e.msg r p) 0,
    wraps h,
  )

  -- When one request is in the backlog and its message is larger than the limit, the size of the message is
  -- taken off twice: the count wraps around below zero, and E_INTERNAL_ERROR is returned, with an empty
  -- backlog that counts 2^64 less the size.
  pub prune_backlog-lone :
      (rounds : ℕ)
      → Names e.msg p r
      → max_size < payload_size_bytes e.msg
      → prune_backlog (suc (suc rounds)) max_size e_ok (p, lone e (payload_size_bytes e.msg))
        ≡ some
            (err e_internal_error (cleared e.msg r p, emptied (u64_mod - payload_size_bytes e.msg)))
  unfolding prune_backlog n
  prune_backlog-lone rounds named large = rw (
    lt→ltb max_size n large,
    prune_backlog,
    one_round named (omega (arith, large)),
    lt→ltb max_size (u64_mod - n) (omega (arith, large, narrow)),
  )
