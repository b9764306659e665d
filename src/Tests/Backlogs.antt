-- ===== src/Tests/Backlogs.antt =====
-- Two requests in a pool of two slots, for src/msg/msg_backlog.cpp.
use commutil.Common.{ℕ, ◌-◌, ◌≡◌, refl, none, some, [], ◌∷◌, ◌⊎◌, arith, u64_mod, false}
use commutil.Err.{ErrorCode, e_ok, e_data_corrupt, e_internal_error, ok, err}
use commutil.Msg.Header.{msg_magic}
use commutil.Msg.Message.{Msg, payload_size_bytes}
use commutil.Msg.Request.{MsgRequest, rs_pending}
use commutil.Msg.RequestPool.{MsgRequestPool, clear_pending_request}
use commutil.Msg.Backlog.{
  BacklogEntry, MsgBacklog, slot_of, or_made, find_entry, add_pending_request,
  remove_pending_request, prune_backlog,
}
use commutil.Msg.Backlog.Ordering.{BothOrdered, Adds, add_pending_request-BothOrdered}
use commutil.Msg.Backlog.Removal.{remove_pending_request-add_pending_request}
use commutil.Msg.Backlog.Pruning.{
  cleared, lone, emptied, prune_backlog-lone, remove_pending_request-clear_pending_request,
}

abbrev message : ℕ → ℕ → Msg
message id index = record {
  header = record {
    magic = msg_magic;
    length = 43;
    msg_id = 7;
    flags = 0;
    request_id = id;
    request_index = index;
    uncompressed_length = 0;
    batch_size = 1;
    reserved = 0;
  };
  payload = 1 ∷ 2 ∷ 3 ∷ [];
}

abbrev slot : ℕ → ℕ → MsgRequest
slot id time = record {
  request_id = id;
  request_status = rs_pending;
  flags = 0;
  request = none;
  response = none;
  request_time_millis = time;
  resend_time_millis = time;
}

abbrev pool : MsgRequestPool
pool = record {
  requests = slot 5 100 ∷ slot 6 200 ∷ [];
  next_request_id = 7;
  has_listener = false;
  notified = [];
}

abbrev entry : ℕ → ℕ → ℕ → BacklogEntry
entry address id index = record { msg_address = address; msg = message id index; slot = index }

abbrev both : MsgBacklog
both = record {
  backlog_size_bytes = 6;
  request_map = (5, entry 50 5 0) ∷ (6, entry 60 6 1) ∷ [];
  request_set = entry 50 5 0 ∷ entry 60 6 1 ∷ [];
  min_heap = entry 50 5 0 ∷ entry 60 6 1 ∷ [];
}

remove_pending_request-clear_pending_request_example :
    (clear_pending_request (message 6 1) pool ≡ ok tt (cleared (message 6 1) (slot 6 200) pool))
    × (remove_pending_request (cleared (message 6 1) (slot 6 200) pool) 60 (message 6 1) both
        ≡ err e_data_corrupt both)
remove_pending_request-clear_pending_request_example =
    remove_pending_request-clear_pending_request (message 6 1) (slot 6 200) pool 60 both
      (entry 60 6 1) (entry 50 5 0) (entry 60 6 1 ∷ []) (refl, refl) (unfold find_entry in refl)
      refl refl (λ h. omega (arith, h)) (λ h. omega (arith, h))
      (λ h. unfold slot_of or_made in omega (arith, h))

prune_backlog-lone_example :
    prune_backlog 2 1 e_ok (pool, lone (entry 50 5 0) (payload_size_bytes (message 5 0)))
    ≡ some (
        err e_internal_error (
          cleared (message 5 0) (slot 5 100) pool,
          emptied (u64_mod - payload_size_bytes (message 5 0)),
        ))
prune_backlog-lone_example =
    prune_backlog-lone (entry 50 5 0) (slot 5 100) pool 1 0 (refl, refl)
      (unfold payload_size_bytes in omega arith)

ordered : BothOrdered pool (lone (entry 60 6 1) 3)
ordered = ((tt, tt), (tt, tt))

add_pending_request-BothOrdered_example :
    Adds pool 50
      (message 5 0)
      (lone (entry 60 6 1) 3)
      (add_pending_request pool 50 (message 5 0) (lone (entry 60 6 1) 3))
add_pending_request-BothOrdered_example =
    add_pending_request-BothOrdered pool 50 (message 5 0) (lone (entry 60 6 1) 3) ordered

remove_pending_request-add_pending_request_example :
    ((code : ErrorCode) × (add_pending_request pool 50 (message 5 0) (lone (entry 60 6 1) 3)
        ≡ err code (lone (entry 60 6 1) 3)))
    ⊎ ((c : MsgBacklog) × (add_pending_request pool 50 (message 5 0) (lone (entry 60 6 1) 3)
          ≡ ok tt c)
        × (remove_pending_request pool 50 (message 5 0) c ≡ ok tt (lone (entry 60 6 1) 3)))
remove_pending_request-add_pending_request_example =
    remove_pending_request-add_pending_request pool 50 (message 5 0) (lone (entry 60 6 1) 3) ordered
      ((λ h. omega (arith, h)), tt) ((λ h. omega (arith, h)), tt) (omega arith)
