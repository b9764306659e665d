-- ===== src/Msg/Backlog/Ordering.antt =====
-- inc/msg/msg_backlog.h, lines 75-109, and src/msg/msg_backlog.cpp, lines 13-50: the order of the two sets.
use commutil.Common.{
  ℕ, ◌≡◌, ◌⊎◌, inl, inr, refl, true, Option, none, some, List, [], ◌∷◌, Bool-cases, Option-cases,
  add64,
}
use mathlib.Core.Path.{subst}
use commutil.Err.{ErrorCode, e_not_found, e_already_exists, e_data_corrupt, Out, ok, err}
use commutil.Msg.Message.{Msg, payload_size_bytes}
use commutil.Msg.Request.{MsgRequest}
use commutil.Msg.RequestPool.{MsgRequestPool, get_request_data}
use commutil.Msg.Backlog.{
  BacklogEntry, MsgBacklog, request_time, resend_time, before, in_order, insert, find_entry,
  add_pending_request,
}

-- An entry comes before the first of a list, if there is one.
abbrev pub BeforeFirst : (BacklogEntry → ℕ) → BacklogEntry → List BacklogEntry → Type 0
BeforeFirst time a [] = Unit
BeforeFirst time a (b ∷ rest) = before time a b ≡ true

abbrev pub IsOrdered : (BacklogEntry → ℕ) → List BacklogEntry → Type 0
IsOrdered time [] = Unit
IsOrdered time (a ∷ rest) = BeforeFirst time a rest × IsOrdered time rest

in_order-IsOrdered :
    (time : BacklogEntry → ℕ) (xs : List BacklogEntry) → IsOrdered time xs → in_order time xs ≡ true
unfolding in_order
in_order-IsOrdered time [] o = refl
in_order-IsOrdered time (a ∷ []) o = refl
in_order-IsOrdered time (a ∷ b ∷ rest) (first, o) = rw first (in_order-IsOrdered time (b ∷ rest) o)

module _ (time : BacklogEntry → ℕ) (e : BacklogEntry) where
  -- An insertion into a set that is in order gives one that is.
  Inserted : List BacklogEntry → Option (List BacklogEntry) → Type 0
  Inserted xs none = Unit
  Inserted xs (some ys) =
      IsOrdered time ys
      × ((a : BacklogEntry)
          → BeforeFirst time a xs
          → before time a e ≡ true
          → BeforeFirst time a ys)

  insert-Inserted : (xs : List BacklogEntry) → IsOrdered time xs → Inserted xs (insert time e xs)
  unfolding insert Inserted
  insert-Inserted [] o = ((tt, tt), λ a h g. g)
  insert-Inserted (x ∷ xs) (first, o) = elim (Bool-cases (before time e x)) [
    | inl earlier ↦ rw (earlier) ((earlier, (first, o)), λ a h g. g)
    | inr not_earlier ↦ elim (Bool-cases (before time x e)) [
      | inl later ↦ rw (not_earlier, later) (into (insert time e xs) (insert-Inserted xs o) later)
      | inr same ↦ rw (not_earlier, same) tt
    ]
  ]
    where
      into :
          (made : Option (List BacklogEntry))
          → Inserted xs made
          → before time x e ≡ true
          → Inserted (x ∷ xs) (elim made [ none ↦ none | some more ↦ some (x ∷ more) ])
      into none i later = tt
      into (some more) (ordered, heads) later = ((heads x first later, ordered), λ a h g. h)

-- The two sets of a backlog are in order.
abbrev pub BothOrdered : MsgRequestPool → MsgBacklog → Type 0
BothOrdered p b = IsOrdered (request_time p) b.request_set × IsOrdered (resend_time p) b.min_heap

-- The entry of a request: its message, and the slot that the pool has for it.
abbrev pub entry_for : ℕ → Msg → ℕ → BacklogEntry
entry_for address m index = record { msg_address = address; msg = m; slot = index }

-- The backlog with the entry in the map, its size counted, and other sets.
abbrev pub with_entry :
    ℕ → Msg → ℕ → List BacklogEntry → List BacklogEntry → MsgBacklog → MsgBacklog
with_entry address m index requests heap b = record {
  backlog_size_bytes = add64 b.backlog_size_bytes (payload_size_bytes m);
  request_map = (m.header.request_id, entry_for address m index) ∷ b.request_map;
  request_set = requests;
  min_heap = heap;
}

abbrev pub Adds : MsgRequestPool → ℕ → Msg → MsgBacklog → Out MsgBacklog (Unit {0}) → Type 0
Adds p address m b out =
    ((code : ErrorCode) × (out ≡ err code b))
    ⊎ ((index : ℕ) × (r : MsgRequest) × (requests heap : List BacklogEntry) × (get_request_data m p
          ≡ some (index, r))
        × (out ≡ ok tt (with_entry address m index requests heap b))
        × (insert (request_time p) (entry_for address m index) b.request_set ≡ some requests)
        × (insert (resend_time p) (entry_for address m index) b.min_heap ≡ some heap)
        × BothOrdered p (with_entry address m index requests heap b))

pub kept_sorted :
    (time : BacklogEntry → ℕ) (e : BacklogEntry) (xs ys : List BacklogEntry)
    → IsOrdered time xs
    → insert time e xs ≡ some ys
    → IsOrdered time ys
unfolding Inserted
kept_sorted time e xs ys o made = (subst (Inserted time e xs) made (insert-Inserted time e xs o)).0

module _ (p : MsgRequestPool) (address : ℕ) (m : Msg) (b : MsgBacklog) (orders : BothOrdered p b)
    (index : ℕ) (r : MsgRequest) (has_slot : get_request_data m p ≡ some (index, r))
    (is_new : find_entry m.header.request_id b.request_map ≡ none) where
  into_heap :
      (requests : List BacklogEntry)
      → insert (request_time p) (entry_for address m index) b.request_set ≡ some requests
      → Adds p address m b (add_pending_request p address m b)
  unfolding add_pending_request
  into_heap requests made =
      elim (Option-cases (insert (resend_time p) (entry_for address m index) b.min_heap)) [
        | inl twice ↦ inl (
          e_data_corrupt,
          rw (
            has_slot,
            add_pending_request,
            is_new,
            in_order-IsOrdered (request_time p) b.request_set orders.0,
            made,
            in_order-IsOrdered (resend_time p) b.min_heap orders.1,
            twice,
          ),
        )
        | inr (heap, put) ↦ inr (
          index,
          r,
          requests,
          heap,
          has_slot,
          rw (
            has_slot,
            add_pending_request,
            is_new,
            in_order-IsOrdered (request_time p) b.request_set orders.0,
            made,
            in_order-IsOrdered (resend_time p) b.min_heap orders.1,
            put,
          ),
          made,
          put,
          (
            kept_sorted (request_time p) _ b.request_set requests orders.0 made,
            kept_sorted (resend_time p) _ b.min_heap heap orders.1 put,
          ),
        )
      ]

  into_set : Adds p address m b (add_pending_request p address m b)
  unfolding add_pending_request
  into_set =
      elim (Option-cases (insert (request_time p) (entry_for address m index) b.request_set)) [
        | inl twice ↦ inl (
          e_data_corrupt,
          rw (
            has_slot,
            add_pending_request,
            is_new,
            in_order-IsOrdered (request_time p) b.request_set orders.0,
            twice,
          ),
        )
        | inr (requests, made) ↦ into_heap requests made
      ]

-- Adding a request to a backlog whose sets are in order, the one by request time and the other by resend
-- time, either fails and changes nothing; or the request has a slot in the pool, stands in the map under
-- its id, its size is counted, it is inserted into both sets, and both are in order again.
pub add_pending_request-BothOrdered :
    (p : MsgRequestPool) (address : ℕ) (m : Msg) (b : MsgBacklog)
    → BothOrdered p b
    → Adds p address m b (add_pending_request p address m b)
unfolding add_pending_request
add_pending_request-BothOrdered p address m b orders = elim (Option-cases (get_request_data m p)) [
  | inl no_slot ↦ inl (e_not_found, rw (no_slot, add_pending_request))
  | inr (place, has_slot) ↦ elim (Option-cases (find_entry m.header.request_id b.request_map)) [
    | inl is_new ↦ into_set p address m b orders place.0 place.1 has_slot is_new
    | inr (e, there) ↦ inl (e_already_exists, rw (has_slot, add_pending_request, there))
  ]
]
