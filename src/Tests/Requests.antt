-- ===== src/Tests/Requests.antt =====
-- A pool of three slots, for src/msg/msg_request_pool.cpp.
use commutil.Common.{ℕ, ◌≡◌, ◌≢◌, ◌⊎◌, refl, true, none, some, [], ◌∷◌, arith, get_elem?}
use commutil.Err.{ok, err}
use commutil.Msg.Header.{msg_magic}
use commutil.Msg.Message.{Msg}
use commutil.Msg.Request
use commutil.Msg.Request.{MsgRequest, rs_idle, rs_pending, idle}
use commutil.Msg.RequestPool.{
  MsgRequestPool, get_vacant_request, set_response, get_request, clear_pending_request,
  wait_pending_response,
}
use commutil.Msg.RequestPool.Vacancy.{Takes, BusyAt, get_vacant_request_lem}
use commutil.Msg.RequestPool.Responses.{
  answered, served, refusal, find_request_refused, wait_pending_response-set_response,
}

abbrev slot : ℕ → Request.MsgRequestStatus → MsgRequest
slot id status = record {
  request_id = id;
  request_status = status;
  flags = 1;
  request = none;
  response = none;
  request_time_millis = 0;
  resend_time_millis = 0;
}

abbrev pool : MsgRequestPool
pool = record {
  requests = slot 3 rs_pending ∷ slot 4 rs_pending ∷ slot 2 rs_idle ∷ [];
  next_request_id = 5;
  has_listener = true;
  notified = [];
}

abbrev reply : ℕ → ℕ → Msg
reply id index = record {
  header = record {
    magic = msg_magic;
    length = 40;
    msg_id = 7;
    flags = 0;
    request_id = id;
    request_index = index;
    uncompressed_length = 0;
    batch_size = 1;
    reserved = 0;
  };
  payload = [];
}

get_vacant_request_lem_example :
    Takes 5 pool (get_vacant_request 5 pool)
    ⊎ (((j : ℕ) → BusyAt pool j) × (get_vacant_request 5 pool ≡ ok none pool))
get_vacant_request_lem_example = get_vacant_request_lem 5 pool (omega arith) (omega arith)

-- The slot is the idle one.
found_slot :
    get_vacant_request 3 pool
    ≡ ok
        (some 2)
        (record pool { requests = slot 3 rs_pending ∷ slot 4 rs_pending ∷ slot 3 rs_pending ∷ [] })
unfolding get_vacant_request Request.try_grab
found_slot = refl

other_id : (r : MsgRequest) → get_elem? pool.requests 1 ≡ some r → r.request_id ≢ 9
other_id r at e = absurd (ground (arith, at, e))

find_request_refused_example :
    (set_response (reply 9 1) pool ≡ err (refusal (reply 9 1) pool) pool)
    × (get_request (reply 9 1) pool ≡ err (refusal (reply 9 1) pool) pool)
    × (clear_pending_request (reply 9 1) pool ≡ err (refusal (reply 9 1) pool) pool)
find_request_refused_example = find_request_refused (reply 9 1) pool other_id

abbrev same_slot : MsgRequest → MsgRequest
same_slot r = r

wait_pending_response-set_response_example :
    (set_response (reply 4 1) pool ≡ ok 1 (answered (reply 4 1) (slot 4 rs_pending) pool))
    × (wait_pending_response 1 4 true same_slot (answered (reply 4 1) (slot 4 rs_pending) pool)
        ≡ some (ok (reply 4 1) (served (reply 4 1) pool (slot 4 rs_pending) (refl, refl))))
    × (t : MsgRequest) × (get_elem?
          (served (reply 4 1) pool (slot 4 rs_pending) (refl, refl)).requests
          1
        ≡ some t)
    × (idle t.request_status ≡ true)
wait_pending_response-set_response_example =
    wait_pending_response-set_response (reply 4 1) pool (slot 4 rs_pending) (refl, refl) true
      same_slot
