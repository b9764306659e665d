-- ===== src/Msg/RequestPool/Responses.antt =====
-- src/msg/msg_request_pool.cpp, lines 53-140: a response meets its request.
use commutil.Common.{
  ◌<◌, ◌≡◌, ◌≢◌, refl, ap, Bool, true, false, none, some, [], ◌∷◌, ◌++◌, arith, length, inl, inr,
  get_elem?, set, ◌==◌, if◌then◌else◌, length-set, get_elem?-set_self, get_elem?-lt, Option-cases,
}
use commutil.Err.{ErrorCode, ok, err, e_invalid_argument, e_data_corrupt}
use commutil.Msg.Message.{Msg}
use commutil.Msg.Request
use commutil.Msg.Request.{
  MsgRequest, rs_idle, rs_arrived, idle, settled, clear_response, wait_response,
}
use commutil.Msg.RequestPool.{
  MsgRequestPool, find_request, set_response, get_request, clear_pending_request,
  wait_pending_response,
}

-- The slot that the header of a message names, if the slot's id is that of the message.
abbrev pub Names : Msg → MsgRequestPool → MsgRequest → Type 0
Names m p r =
    (get_elem? p.requests m.header.request_index ≡ some r) × (r.request_id ≡ m.header.request_id)

pub find_request_lem :
    (m : Msg) (p : MsgRequestPool) (r : MsgRequest)
    → Names m p r
    → find_request m p ≡ ok (m.header.request_index, r) p
unfolding find_request
find_request_lem m p r (at, same) = rw (at, find_request, test)
  where
    test : (r.request_id == m.header.request_id) ≡ true
    test = ground arith

-- The pool after a response was put into its slot.
abbrev pub answered : Msg → MsgRequest → MsgRequestPool → MsgRequestPool
answered m r p = record p {
  requests = set p.requests m.header.request_index (Request.set_response (some m) r);
  notified = if p.has_listener then p.notified ++ (r.request, m) ∷ [] else p.notified;
}

-- A response that names a slot by index and id is put there; the listener, if there is one, hears of
-- it once, with the request of the slot, and the flags of the request are returned.
pub set_response_lem :
    (m : Msg) (p : MsgRequestPool) (r : MsgRequest)
    → Names m p r
    → set_response m p ≡ ok r.flags (answered m r p)
unfolding set_response
set_response_lem m p r named = rw (find_request_lem m p r named, set_response)

-- The code that a message gets whose slot does not exist, or exists for another request.
abbrev pub refusal : Msg → MsgRequestPool → ErrorCode
refusal m p = elim (get_elem? p.requests m.header.request_index) [
  | none ↦ e_invalid_argument
  | some r ↦ e_data_corrupt
]

-- A message whose index is out of range, or whose id is not that of the slot, is refused with
-- E_INVALID_ARGUMENT or E_DATA_CORRUPT by each of the three operations, which change nothing.
pub find_request_refused :
    (m : Msg) (p : MsgRequestPool)
    → ((r : MsgRequest)
        → get_elem? p.requests m.header.request_index ≡ some r
        → r.request_id ≢ m.header.request_id)
    → (set_response m p ≡ err (refusal m p) p)
      × (get_request m p ≡ err (refusal m p) p)
      × (clear_pending_request m p ≡ err (refusal m p) p)
unfolding set_response get_request clear_pending_request find_request
find_request_refused m p differs =
    elim (Option-cases (get_elem? p.requests m.header.request_index)) [
      | inl out ↦ (
        rw (out, set_response, find_request) (ap (λ e. err e p) (missing out)),
        rw (out, get_request, find_request) (ap (λ e. err e p) (missing out)),
        rw (out, clear_pending_request, find_request) (ap (λ e. err e p) (missing out)),
      )
      | inr (r, at) ↦ (
        rw (at, set_response, find_request, other r (differs r at))
            (ap (λ e. err e p) (taken r at)),
        rw (at, get_request, find_request, other r (differs r at)) (ap (λ e. err e p) (taken r at)),
        rw (at, clear_pending_request, find_request, other r (differs r at))
            (ap (λ e. err e p) (taken r at)),
      )
    ]
  where
    other :
        (r : MsgRequest)
        → r.request_id ≢ m.header.request_id
        → (r.request_id == m.header.request_id) ≡ false
    other r ne = ground arith

    missing : get_elem? p.requests m.header.request_index ≡ none → e_invalid_argument ≡ refusal m p
    missing out = rw (out, refusal)

    taken :
        (r : MsgRequest)
        → get_elem? p.requests m.header.request_index ≡ some r
        → e_data_corrupt ≡ refusal m p
    taken r at = rw (at, refusal)

-- A wait on a slot that has the response ends at once.
wait_arrived :
    (infinite : Bool) (meanwhile : MsgRequest → MsgRequest) (m : Msg) (r : MsgRequest)
    → wait_response infinite meanwhile (Request.set_response (some m) r)
      ≡ some (ok (some m) (Request.set_response (some m) r))
unfolding wait_response Request.wait_result Request.set_response
wait_arrived true meanwhile m r = refl
wait_arrived false meanwhile m r = refl

module _ (m : Msg) (p : MsgRequestPool) (r : MsgRequest) (named : Names m p r) where
  in_range : m.header.request_index < length p.requests
  in_range = get_elem?-lt p.requests m.header.request_index r named.0

  answered-slot :
      get_elem? (answered m r p).requests m.header.request_index
      ≡ some (Request.set_response (some m) r)
  answered-slot = get_elem?-set_self p.requests m.header.request_index _ in_range

  -- The pool after the wait.
  abbrev pub served : MsgRequestPool
  served = record (answered m r p) {
    requests =
        set (answered m r p).requests m.header.request_index
          (clear_response (Request.set_response (some m) r));
  }

  wait_served :
      (infinite : Bool) (meanwhile : MsgRequest → MsgRequest)
      → wait_pending_response m.header.request_index m.header.request_id infinite meanwhile
          (answered m r p)
        ≡ some (ok m served)
  unfolding wait_pending_response
  wait_served infinite meanwhile =
      rw (answered-slot, wait_pending_response, same_id, wait_arrived infinite meanwhile m r)
    where
      same_id : ((Request.set_response (some m) r).request_id == m.header.request_id) ≡ true
      same_id = unfold Request.set_response in ground (arith, named.1)

  -- A response that arrives is what a later wait for its request returns, at once, whatever the
  -- timeout and whatever other threads would do meanwhile; the slot is idle afterwards.
  pub wait_pending_response-set_response :
      (infinite : Bool) (meanwhile : MsgRequest → MsgRequest)
      → (set_response m p ≡ ok r.flags (answered m r p))
        × (wait_pending_response m.header.request_index m.header.request_id infinite meanwhile
              (answered m r p)
            ≡ some (ok m served))
        × (t : MsgRequest) × (get_elem? served.requests m.header.request_index ≡ some t)
        × (idle t.request_status ≡ true)
  wait_pending_response-set_response infinite meanwhile = (
    set_response_lem m p r named,
    wait_served infinite meanwhile,
    clear_response (Request.set_response (some m) r),
    get_elem?-set_self (answered m r p).requests m.header.request_index _
        (omega (arith, in_range, length-set p.requests m.header.request_index _)),
    unfold clear_response in refl,
  )

  -- A response that comes for a request that is finished, and whose slot is idle, is stored there all
  -- the same: the slot is idle no longer, though no request waits in it.
  set_response_late :
      idle r.request_status ≡ true
      → (set_response m p ≡ ok r.flags (answered m r p))
        × (t : MsgRequest) × (get_elem? (answered m r p).requests m.header.request_index ≡ some t)
        × (idle t.request_status ≡ false)
  set_response_late finished = (
    set_response_lem m p r named,
    Request.set_response (some m) r,
    answered-slot,
    unfold Request.set_response in refl,
  )
