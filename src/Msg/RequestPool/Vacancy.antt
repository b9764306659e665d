-- ===== src/Msg/RequestPool/Vacancy.antt =====
-- src/msg/msg_request_pool.cpp, lines 15-27: the search of a slot for a new request.
use native.Mathlib.Nat.{mod-lt, mod-eq_of_lt}
use commutil.Common.{
  ℕ, zero, suc, ◌+◌, ◌%◌, ◌≤◌, ◌<◌, ◌≡◌, ◌⊎◌, inl, inr, refl, ap, ◌∙◌, true, false, Option, none,
  some, arith, length, get_elem?, set, ltb, ◌==◌, u32_mod, Bool-cases, visited, get_elem?-total,
  get_elem?-lt, ltb→lt, ltb→le,
}
use commutil.Err.{Out, ok}
use commutil.Msg.Request.{MsgRequest, rs_pending, idle, try_grab}
use commutil.Msg.RequestPool.{MsgRequestPool, search_vacant, get_vacant_request}

-- A slot that was taken for a request.
abbrev pub grabbed : ℕ → MsgRequest → MsgRequest
grabbed request_id r = record r { request_id = request_id; request_status = rs_pending }

-- The slot at `index` was idle and is the only one that changes: it waits for the request.
abbrev pub Takes : ℕ → MsgRequestPool → Out MsgRequestPool (Option ℕ) → Type 0
Takes request_id p out =
    (index : ℕ) × (r : MsgRequest) × (get_elem? p.requests index ≡ some r)
    × (idle r.request_status ≡ true)
    × (out ≡ ok (some index) (record p { requests = set p.requests index (grabbed request_id r) }))

abbrev pub BusyAt : MsgRequestPool → ℕ → Type 0
BusyAt p index =
    (r : MsgRequest) → get_elem? p.requests index ≡ some r → idle r.request_status ≡ false

module _ (p : MsgRequestPool) (request_id start count : ℕ) (h : count ≡ length p.requests)
    (some_slot : 0 < count) (small : count < u32_mod) where
  index_in :
      (i : ℕ)
      → ((start + i) % count % u32_mod ≡ (start + i) % count) × ((start + i) % count < count)
  index_in i =
      (mod-eq_of_lt (omega (arith, mod-lt (start + i) some_slot)), mod-lt (start + i) some_slot)

  busy_at :
      (k i : ℕ) (r : MsgRequest)
      → k ≡ i
      → get_elem? p.requests ((start + i) % count) ≡ some r
      → idle r.request_status ≡ false
      → BusyAt p ((start + k) % count)
  busy_at k i r e here busy q at = cc

  -- One round, at an idle slot and at a busy one.
  take_slot :
      (rounds i : ℕ) (r : MsgRequest)
      → get_elem? p.requests ((start + i) % count) ≡ some r
      → idle r.request_status ≡ true
      → search_vacant (suc rounds) i start count request_id p
        ≡ ok
            (some ((start + i) % count))
            (record p { requests = set p.requests ((start + i) % count) (grabbed request_id r) })
  unfolding search_vacant try_grab
  take_slot rounds i r here vacant =
      rw (search_vacant, (index_in i).0, here, vacant, (index_in i).0)

  pass_slot :
      (rounds i : ℕ) (r : MsgRequest)
      → get_elem? p.requests ((start + i) % count) ≡ some r
      → idle r.request_status ≡ false
      → search_vacant (suc rounds) i start count request_id p
        ≡ search_vacant rounds (i + 1) start count request_id p
  unfolding search_vacant try_grab
  pass_slot rounds i r here busy = rw (search_vacant, (index_in i).0, here, busy)

  search_vacant_lem :
      (rounds i : ℕ)
      → Takes request_id p (search_vacant rounds i start count request_id p)
        ⊎ (((k : ℕ) → i ≤ k → k < i + rounds → BusyAt p ((start + k) % count))
            × (search_vacant rounds i start count request_id p ≡ ok none p))
  search_vacant_lem zero i = inr (λ k lo hi. absurd (omega arith), unfold search_vacant in refl)
  search_vacant_lem (suc rounds) i =
      let (r, here) =
        get_elem?-total p.requests ((start + i) % count) (omega (arith, (index_in i).1)) in
      elim (Bool-cases (idle r.request_status)) [
        | inl vacant ↦ inl (_, r, here, vacant, take_slot rounds i r here vacant)
        | inr busy ↦ elim (search_vacant_lem rounds (i + 1)) [
          | inl (index, q, at, vacant, run) ↦
              inl (index, q, at, vacant, pass_slot rounds i r here busy ∙ run)
          | inr (others, run) ↦ inr (
            λ k lo hi. elim (from k i lo) [
              | inl e ↦ busy_at k i r e here busy
              | inr past ↦ others k past (omega arith)
            ],
            pass_slot rounds i r here busy ∙ run,
          )
        ]
      ]
    where
      from : (k j : ℕ) → j ≤ k → (k ≡ j) ⊎ (j + 1 ≤ k)
      from k j lo = elim (Bool-cases (ltb j k)) [
        | inl lt ↦ inr (omega (arith, ltb→lt j k lt))
        | inr ge ↦ inl (omega (arith, ltb→le j k ge))
      ]

search_opens :
    (request_id : ℕ) (p : MsgRequestPool)
    → 0 < length p.requests
    → length p.requests < u32_mod
    → get_vacant_request request_id p
      ≡ search_vacant
          (length p.requests)
          0
          (request_id % u32_mod % length p.requests)
          (length p.requests)
          request_id
          p
unfolding get_vacant_request
search_opens request_id p some_slot small = rw (whole, has_slots)
  where
    whole : length p.requests % u32_mod ≡ length p.requests
    whole = omega arith

    has_slots : (length p.requests == 0) ≡ false
    has_slots = ground arith

-- In a pool with slots, fewer than 2^32, a vacant slot is found exactly if there is one: either a
-- slot that was idle, and no other, is taken for the request, or every slot is busy, and the pool is
-- left as it was.
pub get_vacant_request_lem :
    (request_id : ℕ) (p : MsgRequestPool)
    → 0 < length p.requests
    → length p.requests < u32_mod
    → Takes request_id p (get_vacant_request request_id p)
      ⊎ (((j : ℕ) → BusyAt p j) × (get_vacant_request request_id p ≡ ok none p))
get_vacant_request_lem request_id p some_slot small =
    let start = request_id % u32_mod % length p.requests in
    let opened = search_opens request_id p some_slot small in
    elim (search_vacant_lem p request_id start (length p.requests) refl some_slot small
      (length p.requests) 0) [
        | inl (index, r, at, vacant, run) ↦ inl (index, r, at, vacant, opened ∙ run)
        | inr (busy, run) ↦ inr (all_busy start (mod-lt _ some_slot) busy, opened ∙ run)
      ]
  where
    all_busy :
        (start : ℕ)
        → start < length p.requests
        → ((k : ℕ) → 0 ≤ k → k < 0 + length p.requests → BusyAt p ((start + k) % length p.requests))
        → (j : ℕ) → BusyAt p j
    all_busy start s busy j r at =
        let (k, within, here) =
          visited start (length p.requests) j s (get_elem?-lt p.requests j r at) in
        busy k (omega arith) (omega arith) r (ap (get_elem? p.requests) here ∙ at)
