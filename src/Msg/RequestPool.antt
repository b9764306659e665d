-- ===== src/Msg/RequestPool.antt =====
-- inc/msg/msg_request_pool.h, src/msg/msg_request_pool.cpp: the slots of the requests that wait for a response.
pub mod Vacancy
pub mod Responses
pub mod Waits
use commutil.Common.{
  ℕ, zero, suc, ◌+◌, ◌-◌, ◌%◌, ◌≡◌, Bool, true, false, Option, none, some, List, [], ◌∷◌, ◌++◌,
  length, get_elem?, set, replicate, ltb, ◌==◌, not, if◌then◌else◌, u32_mod, add64, add32, drop,
  take,
}
use commutil.Err.{
  ErrorCode, e_invalid_argument, e_data_corrupt, e_internal_error, Out, ok, err, fault,
}
use commutil.Msg.Message.{Msg}
use commutil.Msg.Request
use commutil.Msg.Request.{
  MsgRequest, try_grab, abort_response, wait_response, clear_response, has_response,
}

-- `notified` are the calls of `onResponseArrived`, in order: the request and the response of each.
pub record MsgRequestPool : Type 0 where
  pub requests : List MsgRequest
  pub next_request_id : ℕ
  pub has_listener : Bool
  pub notified : List (Option Msg × Msg)

-- `std::vector::resize`, on a vector of any size.
unfoldable pub initialize : ℕ → MsgRequestPool → MsgRequestPool
unfolding Request.make
initialize pool_size p = record p {
  requests =
      if ltb (length p.requests) pool_size
      then p.requests ++ replicate (pool_size - length p.requests) Request.make
      else take pool_size p.requests;
}

unfoldable pub terminate : MsgRequestPool → MsgRequestPool
terminate p = record p { requests = [] }

unfoldable pub set_listener : Bool → MsgRequestPool → MsgRequestPool
set_listener listening p = record p { has_listener = listening }

unfoldable pub fetch_add_request_id : MsgRequestPool → ℕ × MsgRequestPool
fetch_add_request_id p =
    (p.next_request_id, record p { next_request_id = add64 p.next_request_id 1 })

-- The loop of `getVacantRequest`: the rounds left, and i.
unfoldable pub search_vacant : ℕ → ℕ → ℕ → ℕ → ℕ → MsgRequestPool → Out MsgRequestPool (Option ℕ)
unfolding try_grab
search_vacant zero i start count request_id p = ok none p
search_vacant (suc rounds) i start count request_id p =
    let index = (start + i) % count % u32_mod in
    let rest = search_vacant rounds (i + 1) start count request_id p in
    elim (get_elem? p.requests index) [
      | none ↦ fault
      | some r ↦
          let (grabbed, t) = try_grab request_id r in
          if grabbed then ok (some index) (record p { requests = set p.requests index t }) else rest
    ]

-- `getVacantRequest`. The remainder by the size of an empty pool is not defined.
unfoldable pub get_vacant_request : ℕ → MsgRequestPool → Out MsgRequestPool (Option ℕ)
unfolding search_vacant
get_vacant_request request_id p =
    let request_count = length p.requests % u32_mod in
    if request_count == 0
    then fault
    else search_vacant (length p.requests) 0 (request_id % u32_mod % request_count) request_count
        request_id p

-- The slot that a message's header names, as every operation looks it up.
unfoldable pub find_request : Msg → MsgRequestPool → Out MsgRequestPool (ℕ × MsgRequest)
find_request m p = elim (get_elem? p.requests m.header.request_index) [
  | none ↦ err e_invalid_argument p
  | some r ↦
      if r.request_id == m.header.request_id
      then ok (m.header.request_index, r) p
      else err e_data_corrupt p
]

-- `getRequestData`, where null stands for both errors.
unfoldable pub get_request_data : Msg → MsgRequestPool → Option (ℕ × MsgRequest)
unfolding find_request
get_request_data m p = elim (find_request m p) [
  | ok slot q ↦ some slot
  | err e q ↦ none
  | fault ↦ none
]

abort_all : List MsgRequest → List MsgRequest
abort_all [] = []
abort_all (r ∷ rs) = abort_response r ∷ abort_all rs

unfoldable pub abort_pending_requests : MsgRequestPool → MsgRequestPool
unfolding abort_all
abort_pending_requests p = record p { requests = abort_all p.requests }

-- What `waitPendingResponse` does after the wait.
unfoldable pub after_wait :
    ℕ → Out MsgRequest (Option Msg) → MsgRequestPool → Out MsgRequestPool Msg
unfolding clear_response
after_wait index (ok (some m) r) p =
    ok m (record p { requests = set p.requests index (clear_response r) })
after_wait index (ok none r) p =
    err e_internal_error (record p { requests = set p.requests index r })
after_wait index (err e r) p = err e (record p { requests = set p.requests index r })
after_wait index fault p = fault

-- `waitPendingResponse`; `none` where the wait does not end.
unfoldable pub wait_pending_response :
    ℕ → ℕ → Bool → (MsgRequest → MsgRequest) → MsgRequestPool → Option (Out MsgRequestPool Msg)
unfolding after_wait
wait_pending_response index request_id infinite meanwhile p = elim (get_elem? p.requests index) [
  | none ↦ some (err e_invalid_argument p)
  | some r ↦
      if r.request_id == request_id
      then elim (wait_response infinite meanwhile r) [
        | none ↦ none
        | some out ↦ some (after_wait index out p)
      ]
      else some (err e_data_corrupt p)
]

unfoldable pub clear_pending_request : Msg → MsgRequestPool → Out MsgRequestPool (Unit {0})
unfolding find_request
clear_pending_request m p = elim (find_request m p) [
  | ok (index, r) q ↦ ok tt (record q { requests = set q.requests index (clear_response r) })
  | err e q ↦ err e q
  | fault ↦ fault
]

-- `setResponse` returns the flags of the request.
unfoldable pub set_response : Msg → MsgRequestPool → Out MsgRequestPool ℕ
unfolding find_request Request.set_response
set_response m p = elim (find_request m p) [
  | ok (index, r) q ↦ ok r.flags (record q {
    requests = set q.requests index (Request.set_response (some m) r);
    notified = if q.has_listener then q.notified ++ (r.request, m) ∷ [] else q.notified;
  })
  | err e q ↦ err e q
  | fault ↦ fault
]

unfoldable pub get_request : Msg → MsgRequestPool → Out MsgRequestPool (Option Msg)
unfolding find_request
get_request m p = elim (find_request m p) [
  | ok (index, r) q ↦ ok r.request q
  | err e q ↦ err e q
  | fault ↦ fault
]

count_ready : List MsgRequest → ℕ
count_ready [] = 0
count_ready (r ∷ rs) = if has_response r then add32 (count_ready rs) 1 else count_ready rs

unfoldable pub get_ready_request_count : MsgRequestPool → ℕ
unfolding count_ready
get_ready_request_count p = count_ready p.requests
