-- ===== src/Msg/RequestPool/Waits.antt =====
-- src/msg/msg_request.cpp, lines 70-115, and src/msg/msg_request_pool.cpp: a wait for a pending request.
use commutil.Common.{
  ℕ, ◌≡◌, ap, ◌∙◌, Bool, true, false, none, some, arith, get_elem?, set, ◌==◌, if◌then◌else◌,
}
use commutil.Err.{ok, err, e_timed_out}
use commutil.Msg.Message.{Msg}
use commutil.Msg.Request
use commutil.Msg.Request.{
  MsgRequest, rs_pending, idle, settled, pending, clear_response, wait_response, wait_result,
}
use commutil.Msg.RequestPool.{MsgRequestPool, wait_pending_response}

-- The pool with another slot at an index.
abbrev pub with_slot : ℕ → MsgRequest → MsgRequestPool → MsgRequestPool
with_slot index r p = record p { requests = set p.requests index r }

-- A pending slot is what other threads make of it until the wait ends.
wait_changed :
    (infinite : Bool) (meanwhile : MsgRequest → MsgRequest) (m : Msg) (r : MsgRequest)
    → r.request_status ≡ rs_pending
    → meanwhile r ≡ Request.set_response (some m) r
    → wait_response infinite meanwhile r ≡ some (ok (some m) (Request.set_response (some m) r))
unfolding wait_response wait_result Request.set_response
wait_changed true meanwhile m r waits made =
    rw (ap idle waits, ap settled waits)
      (ap (λ t. if settled t.request_status then some (wait_result t) else none) made)
wait_changed false meanwhile m r waits made =
    rw (ap idle waits, ap settled waits) (ap (λ t. some (wait_result t)) made)

wait_endless :
    (meanwhile : MsgRequest → MsgRequest) (r : MsgRequest)
    → r.request_status ≡ rs_pending
    → meanwhile r ≡ r
    → wait_response true meanwhile r ≡ none
unfolding wait_response
wait_endless meanwhile r waits kept = rw (ap idle waits, ap settled waits, kept, ap settled waits)

timed_out : (r : MsgRequest) → r.request_status ≡ rs_pending → wait_result r ≡ err e_timed_out r
unfolding wait_result
timed_out r waits = ground arith

wait_short :
    (meanwhile : MsgRequest → MsgRequest) (r : MsgRequest)
    → r.request_status ≡ rs_pending
    → meanwhile r ≡ r
    → wait_response false meanwhile r ≡ some (err e_timed_out r)
unfolding wait_response
wait_short meanwhile r waits kept =
    rw (ap idle waits, ap settled waits)
      (ap (λ t. some (wait_result t)) kept ∙ ap (λ out. some out) (timed_out r waits))

module _ (index id : ℕ) (meanwhile : MsgRequest → MsgRequest) (p : MsgRequestPool) (r : MsgRequest)
    (at : get_elem? p.requests index ≡ some r) (same : r.request_id ≡ id)
    (waits : r.request_status ≡ rs_pending) where
  same_id : (r.request_id == id) ≡ true
  same_id = ground (arith, same)

  -- A response that is put into a pending slot while its request is waited for ends the wait, whatever
  -- the timeout, and the slot is cleared.
  pub wait_pending_response-during :
      (infinite : Bool) (m : Msg)
      → meanwhile r ≡ Request.set_response (some m) r
      → wait_pending_response index id infinite meanwhile p
        ≡ some (ok m (with_slot index (clear_response (Request.set_response (some m) r)) p))
  unfolding wait_pending_response
  wait_pending_response-during infinite m made =
      rw (at, wait_pending_response, same_id, wait_changed infinite meanwhile m r waits made)

  -- A pending slot that nothing happens to keeps a wait without a timeout from its end.
  pub wait_pending_response-endless :
      meanwhile r ≡ r → wait_pending_response index id true meanwhile p ≡ none
  unfolding wait_pending_response
  wait_pending_response-endless kept =
      rw (at, wait_pending_response, same_id, wait_endless meanwhile r waits kept)

  -- Where the wait has a timeout, E_TIMED_OUT is returned, and the slot is as before.
  pub wait_pending_response-short :
      meanwhile r ≡ r
      → wait_pending_response index id false meanwhile p
        ≡ some (err e_timed_out (with_slot index r p))
  unfolding wait_pending_response
  wait_pending_response-short kept =
      rw (at, wait_pending_response, same_id, wait_short meanwhile r waits kept)
