-- ===== src/Msg/Backlog.antt =====
-- inc/msg/msg_backlog.h, src/msg/msg_backlog.cpp: the requests that are sent again, in a map by id and in two ordered
-- sets. The slots of the pool, through which the sets compare, are read and written by each call.
pub mod Pruning
pub mod Ordering
pub mod Removal
use commutil.Common.{
  ℕ, zero, suc, Bool, true, false, not, Option, none, some, List, [], ◌∷◌, get_elem?, ltb, ◌==◌,
  ◌%◌, if◌then◌else◌, add64, sub64, length, u32_mod,
}
use commutil.Err.{
  ErrorCode, e_ok, e_not_found, e_already_exists, e_data_corrupt, e_internal_error, Out, ok, err,
  fault,
}
use commutil.Msg.Message.{Msg, payload_size_bytes}
use commutil.Msg.Request
use commutil.Msg.Request.{MsgRequest}
use commutil.Msg.RequestPool.{MsgRequestPool, get_request_data, clear_pending_request}

-- The message with its address, and the index of the slot that the other pointer points to.
pub record BacklogEntry : Type 0 where
  pub msg_address : ℕ
  pub msg : Msg
  pub slot : ℕ

pub record MsgBacklog : Type 0 where
  pub backlog_size_bytes : ℕ
  pub request_map : List (ℕ × BacklogEntry)
  pub request_set : List BacklogEntry
  pub min_heap : List BacklogEntry

unfoldable pub or_made : Option MsgRequest → MsgRequest
unfolding Request.make
or_made none = Request.make
or_made (some r) = r

-- The pool keeps its slots while the backlog has entries.
unfoldable pub slot_of : MsgRequestPool → BacklogEntry → MsgRequest
slot_of p e = or_made (get_elem? p.requests e.slot)

abbrev pub request_time : MsgRequestPool → BacklogEntry → ℕ
request_time p e = (slot_of p e).request_time_millis

abbrev pub resend_time : MsgRequestPool → BacklogEntry → ℕ
resend_time p e = (slot_of p e).resend_time_millis

-- The order of a set: by a time, and then by the id of the request.
unfoldable pub before : (BacklogEntry → ℕ) → BacklogEntry → BacklogEntry → Bool
before time a b =
    if ltb (time a) (time b)
    then true
    else if ltb (time b) (time a)
    then false
    else ltb a.msg.header.request_id b.msg.header.request_id

unfoldable pub in_order : (BacklogEntry → ℕ) → List BacklogEntry → Bool
unfolding before
in_order time [] = true
in_order time (a ∷ []) = true
in_order time (a ∷ b ∷ rest) =
    let later = in_order time (b ∷ rest) in if before time a b then later else false

-- `std::set::insert`, for a set in order; `none`: an equivalent entry is there.
unfoldable pub insert :
    (BacklogEntry → ℕ) → BacklogEntry → List BacklogEntry → Option (List BacklogEntry)
unfolding before
insert time e [] = some (e ∷ [])
insert time e (x ∷ xs) =
    let rest = insert time e xs in
    if before time e x
    then some (e ∷ x ∷ xs)
    else if before time x e
    then elim rest [ none ↦ none | some more ↦ some (x ∷ more) ]
    else none

abbrev pub behind :
    BacklogEntry
    → Option (BacklogEntry × List BacklogEntry)
    → Option (BacklogEntry × List BacklogEntry)
behind x none = none
behind x (some (found, others)) = some (found, x ∷ others)

-- An entry of a message, with the entries that are left when it is erased.
unfoldable pub take_out : ℕ → List BacklogEntry → Option (BacklogEntry × List BacklogEntry)
take_out address [] = none
take_out address (x ∷ xs) =
    let rest = take_out address xs in
    if x.msg_address == address then some (x, xs) else behind x rest

-- The loop of `findRequestByTime`, from the lower bound on.
unfoldable pub take_out_at :
    (BacklogEntry → ℕ) → ℕ → ℕ → List BacklogEntry → Option (BacklogEntry × List BacklogEntry)
take_out_at time at address [] = none
take_out_at time at address (x ∷ xs) =
    let rest = take_out_at time at address xs in
    if x.msg_address == address then some (x, xs) else if time x == at then behind x rest else none

-- What `std::lower_bound` asks of the set: the entries with an earlier time come first.
unfoldable pub none_earlier : (BacklogEntry → ℕ) → ℕ → List BacklogEntry → Bool
none_earlier time at [] = true
none_earlier time at (x ∷ xs) =
    let rest = none_earlier time at xs in if ltb (time x) at then false else rest

unfoldable pub partitioned : (BacklogEntry → ℕ) → ℕ → List BacklogEntry → Bool
unfolding none_earlier
partitioned time at [] = true
partitioned time at (x ∷ xs) =
    let rest = partitioned time at xs in if ltb (time x) at then rest else none_earlier time at xs

-- `findRequestByTime`, in a set that is so.
unfoldable pub find_request_by_time :
    (BacklogEntry → ℕ) → ℕ → ℕ → List BacklogEntry → Option (BacklogEntry × List BacklogEntry)
unfolding take_out_at
find_request_by_time time at address [] = none
find_request_by_time time at address (x ∷ xs) =
    let rest = find_request_by_time time at address xs in
    if ltb (time x) at then behind x rest else take_out_at time at address (x ∷ xs)

unfoldable pub find_entry : ℕ → List (ℕ × BacklogEntry) → Option BacklogEntry
find_entry id [] = none
find_entry id (entry ∷ rest) = if entry.0 == id then some entry.1 else find_entry id rest

unfoldable pub erase_entry : ℕ → List (ℕ × BacklogEntry) → List (ℕ × BacklogEntry)
erase_entry id [] = []
erase_entry id (entry ∷ rest) = if entry.0 == id then rest else entry ∷ erase_entry id rest

-- `addPendingRequest`. A set whose keys have changed their order has no defined behaviour.
unfoldable pub add_pending_request :
    MsgRequestPool → ℕ → Msg → MsgBacklog → Out MsgBacklog (Unit {0})
add_pending_request p address m b = elim (get_request_data m p) [
  | none ↦ err e_not_found b
  | some (index, r) ↦
      let e : BacklogEntry = record { msg_address = address; msg = m; slot = index } in
      elim (find_entry m.header.request_id b.request_map) [
        | some _ ↦ err e_already_exists b
        | none ↦
            if not (in_order (request_time p) b.request_set)
            then fault
            else elim (insert (request_time p) e b.request_set) [
              | none ↦ err e_data_corrupt b
              | some requests ↦
                  if not (in_order (resend_time p) b.min_heap)
                  then fault
                  else elim (insert (resend_time p) e b.min_heap) [
                    | none ↦ err e_data_corrupt b
                    | some heap ↦ ok tt (record {
                      backlog_size_bytes = add64 b.backlog_size_bytes (payload_size_bytes m);
                      request_map = (m.header.request_id, e) ∷ b.request_map;
                      request_set = requests;
                      min_heap = heap;
                    })
                  ]
            ]
      ]
]

unfoldable pub remove_pending_request :
    MsgRequestPool → ℕ → Msg → MsgBacklog → Out MsgBacklog (Unit {0})
remove_pending_request p address m b = elim (find_entry m.header.request_id b.request_map) [
  | none ↦ err e_not_found b
  | some entry ↦
      if not (partitioned (request_time p) (request_time p entry) b.request_set)
      then fault
      else elim (find_request_by_time (request_time p) (request_time p entry) address
          b.request_set) [
            | none ↦ err e_data_corrupt b
            | some (found, requests) ↦ elim (take_out address b.min_heap) [
              | none ↦ err e_data_corrupt b
              | some (_, heap) ↦ ok tt (record {
                backlog_size_bytes = sub64 b.backlog_size_bytes (payload_size_bytes m);
                request_map = erase_entry m.header.request_id b.request_map;
                request_set = requests;
                min_heap = heap;
              })
            ]
          ]
]

-- The first error is kept.
abbrev pub or_error : ErrorCode → ErrorCode → ErrorCode
or_error e_ok e = e
or_error e _ = e

abbrev pub returned {ℓ} : {S : Type ℓ} → ErrorCode → S → Out S (Unit {0})
returned e_ok s = ok tt s
returned e s = err e s

-- The size that the loop takes off for an entry.
abbrev pub without : ℕ → ℕ → ℕ
without size message_size = if ltb size message_size then 0 else sub64 size message_size

-- One round of `pruneBacklog`, for the first entry of the set.
unfoldable pub prune_entry :
    BacklogEntry
    → ErrorCode
    → MsgRequestPool × MsgBacklog
    → Out (MsgRequestPool × MsgBacklog) ErrorCode
prune_entry e rc (p, b) =
    let smaller = record b {
      backlog_size_bytes = without b.backlog_size_bytes (payload_size_bytes e.msg);
    } in
    elim (clear_pending_request e.msg p) [
      | fault ↦ fault
      | ok _ q ↦ elim (remove_pending_request q e.msg_address e.msg smaller) [
        | ok _ c ↦ ok rc (q, c)
        | err rc2 c ↦ ok (or_error rc rc2) (q, c)
        | fault ↦ fault
      ]
      | err rc1 q ↦ elim (remove_pending_request q e.msg_address e.msg smaller) [
        | ok _ c ↦ ok (or_error rc rc1) (q, c)
        | err rc2 c ↦ ok (or_error (or_error rc rc1) rc2) (q, c)
        | fault ↦ fault
      ]
    ]

-- `pruneBacklog`, for at most so many tests of the loop's condition; `none`: the loop has not ended.
unfoldable pub prune_backlog :
    ℕ
    → ℕ
    → ErrorCode
    → MsgRequestPool × MsgBacklog
    → Option (Out (MsgRequestPool × MsgBacklog) (Unit {0}))
prune_backlog zero max_size rc s = none
prune_backlog (suc rounds) max_size rc (p, b) = elim (ltb max_size b.backlog_size_bytes) [
  | false ↦ some (returned rc (p, b))
  | true ↦ elim b.request_set [
    | [] ↦ some (err e_internal_error (p, b))
    | e ∷ _ ↦ elim (prune_entry e rc (p, b)) [
      | ok code t ↦ prune_backlog rounds max_size code t
      | err code t ↦ some (err code t)
      | fault ↦ some fault
    ]
  ]
]

unfoldable pub get_entry_count : MsgBacklog → ℕ
get_entry_count b = length b.request_map % u32_mod

unfoldable pub is_empty : MsgBacklog → Bool
is_empty b = length b.request_map == 0

unfoldable pub has_ready_resend_request : ℕ → MsgRequestPool → MsgBacklog → Bool
has_ready_resend_request barrier p b = elim b.request_set [
  | [] ↦ false
  | e ∷ _ ↦ ltb (resend_time p e) barrier
]

-- The first entry of an empty set has no defined behaviour.
unfoldable pub get_ready_resend_request : MsgBacklog → Out MsgBacklog Msg
get_ready_resend_request b = elim b.request_set [ [] ↦ fault | e ∷ _ ↦ ok e.msg b ]

unfoldable pub update_ready_resend_request : MsgRequestPool → MsgBacklog → Out MsgBacklog (Unit {0})
update_ready_resend_request p b = elim b.request_set [
  | [] ↦ fault
  | e ∷ rest ↦
      if not (in_order (request_time p) rest)
      then fault
      else elim (insert (request_time p) e rest) [
        | none ↦ ok tt (record b { request_set = rest })
        | some requests ↦ ok tt (record b { request_set = requests })
      ]
]
