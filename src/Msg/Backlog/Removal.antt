-- ===== src/Msg/Backlog/Removal.antt =====
-- src/msg/msg_backlog.cpp, lines 13-102 and 173-204: a request that is added and removed again.
use commutil.Common.{
  ℕ, ◌≤◌, ◌<◌, ◌≡◌, ◌≢◌, inl, inr, refl, true, false, Option, none, some, List, [], ◌∷◌, arith,
  Bool-cases, ltb, ltb→lt, ltb→le, le→ltb, ◌==◌, ==_self, ==_iff, add64, sub64, u64_mod, u32_mod,
  ◌⊎◌,
}
use mathlib.Core.Path.{subst}
use native.Mathlib.Nat.{mod-lt}
use commutil.Err.{ErrorCode, ok, err}
use commutil.Msg.Message.{Msg, payload_size_bytes}
use commutil.Msg.RequestPool.{MsgRequestPool}
use commutil.Transport.Memory.{other_address}
use commutil.Msg.Backlog.{
  BacklogEntry, MsgBacklog, request_time, resend_time, before, insert, take_out, take_out_at,
  none_earlier, partitioned, find_request_by_time, find_entry, erase_entry, add_pending_request,
  remove_pending_request,
}
use commutil.Msg.Backlog.Ordering.{
  IsOrdered, BothOrdered, entry_for, with_entry, kept_sorted, add_pending_request-BothOrdered,
}

-- No entry has the address of the message.
abbrev pub HasNo : ℕ → List BacklogEntry → Type 0
HasNo address [] = Unit
HasNo address (x ∷ xs) = (x.msg_address ≢ address) × HasNo address xs

module _ (time : BacklogEntry → ℕ) where
  abbrev AllLate : ℕ → List BacklogEntry → Type 0
  AllLate at [] = Unit
  AllLate at (x ∷ xs) = (at ≤ time x) × AllLate at xs

  before-le : (a b : BacklogEntry) → before time a b ≡ true → time a ≤ time b
  unfolding before
  before-le a b h = elim (Bool-cases (ltb (time b) (time a))) [
    | inr not_later ↦ ltb→le (time b) (time a) not_later
    | inl later ↦
        absurd
          (cc (h, later, le→ltb (time a) (time b) (omega (arith, ltb→lt (time b) (time a) later))))
  ]

  late :
      (at : ℕ) (x : BacklogEntry) (xs : List BacklogEntry)
      → IsOrdered time (x ∷ xs)
      → at ≤ time x
      → AllLate at (x ∷ xs)
  late at x [] o h = (h, tt)
  late at x (y ∷ ys) (first, o) h = (h, late at y ys o (omega (arith, h, before-le x y first)))

  none_earlier-late :
      (at : ℕ) (xs : List BacklogEntry) → AllLate at xs → none_earlier time at xs ≡ true
  unfolding none_earlier
  none_earlier-late at [] h = refl
  none_earlier-late at (x ∷ xs) (h, rest) = rw (le→ltb (time x) at h) (none_earlier-late at xs rest)

  partitioned-IsOrdered :
      (at : ℕ) (xs : List BacklogEntry) → IsOrdered time xs → partitioned time at xs ≡ true
  unfolding partitioned
  partitioned-IsOrdered at [] o = refl
  partitioned-IsOrdered at (x ∷ xs) o = elim (Bool-cases (ltb (time x) at)) [
    | inl early ↦ rw (early) (partitioned-IsOrdered at xs o.1)
    | inr not_early ↦
        rw (not_early) (none_earlier-late at xs (late at x xs o (ltb→le (time x) at not_early)).1)
  ]

  module _ (e : BacklogEntry) where
    abbrev FindsBack :
        (List BacklogEntry → Option (BacklogEntry × List BacklogEntry))
        → List BacklogEntry
        → Option (List BacklogEntry)
        → Type 0
    FindsBack finds xs none = Unit
    FindsBack finds xs (some ys) = finds ys ≡ some (e, xs)

    take_out-insert :
        (xs : List BacklogEntry)
        → HasNo e.msg_address xs
        → FindsBack (take_out e.msg_address) xs (insert time e xs)
    unfolding take_out insert
    take_out-insert [] h = rw (==_self e.msg_address)
    take_out-insert (x ∷ xs) (differs, h) = elim (Bool-cases (before time e x)) [
      | inl earlier ↦ rw (earlier, ==_self e.msg_address) refl
      | inr not_earlier ↦ elim (Bool-cases (before time x e)) [
        | inl later ↦ rw (not_earlier, later) (into (insert time e xs) (take_out-insert xs h))
        | inr equal ↦ rw (not_earlier, equal) tt
      ]
    ]
      where
        into :
            (made : Option (List BacklogEntry))
            → FindsBack (take_out e.msg_address) xs made
            → FindsBack
                (take_out e.msg_address)
                (x ∷ xs)
                (elim made [ none ↦ none | some more ↦ some (x ∷ more) ])
        into none i = tt
        into (some more) i = rw (other_address x.msg_address e.msg_address differs, i)

    take_out_at-insert :
        (xs : List BacklogEntry)
        → HasNo e.msg_address xs
        → AllLate (time e) xs
        → FindsBack (take_out_at time (time e) e.msg_address) xs (insert time e xs)
    unfolding take_out_at insert
    take_out_at-insert [] h l = rw (==_self e.msg_address)
    take_out_at-insert (x ∷ xs) (differs, h) (late_x, l) = elim (Bool-cases (before time e x)) [
      | inl earlier ↦ rw (earlier, ==_self e.msg_address) refl
      | inr not_earlier ↦ elim (Bool-cases (before time x e)) [
        | inl later ↦
            rw (not_earlier, later)
              (into (insert time e xs) (take_out_at-insert xs h l)
                ((==_iff (time x) (time e)).1 (omega (arith, late_x, before-le x e later))))
        | inr equal ↦ rw (not_earlier, equal) tt
      ]
    ]
      where
        into :
            (made : Option (List BacklogEntry))
            → FindsBack (take_out_at time (time e) e.msg_address) xs made
            → (time x == time e) ≡ true
            → FindsBack
                (take_out_at time (time e) e.msg_address)
                (x ∷ xs)
                (elim made [ none ↦ none | some more ↦ some (x ∷ more) ])
        into none i equal = tt
        into (some more) i equal = rw (other_address x.msg_address e.msg_address differs, equal, i)

    find-insert :
        (xs : List BacklogEntry)
        → HasNo e.msg_address xs
        → IsOrdered time xs
        → FindsBack (find_request_by_time time (time e) e.msg_address) xs (insert time e xs)
    unfolding find_request_by_time take_out_at insert
    find-insert [] h o = rw (le→ltb (time e) (time e) (omega arith), ==_self e.msg_address)
    find-insert (x ∷ xs) (differs, h) (first, o) = elim (Bool-cases (before time e x)) [
      | inl earlier ↦
          rw (earlier, le→ltb (time e) (time e) (omega arith), ==_self e.msg_address) refl
      | inr not_earlier ↦ elim (Bool-cases (before time x e)) [
        | inl later ↦ elim (Bool-cases (ltb (time x) (time e))) [
          | inl early ↦
              rw (not_earlier, later) (behind_early (insert time e xs) (find-insert xs h o) early)
          | inr not_early ↦
              let (late_x, l) =
                late (time e) x xs (first, o) (ltb→le (time x) (time e) not_early) in
              rw (not_earlier, later)
                (behind_equal (insert time e xs) (take_out_at-insert xs h l) not_early
                  ((==_iff (time x) (time e)).1 (omega (arith, late_x, before-le x e later))))
        ]
        | inr equal ↦ rw (not_earlier, equal) tt
      ]
    ]
      where
        behind_early :
            (made : Option (List BacklogEntry))
            → FindsBack (find_request_by_time time (time e) e.msg_address) xs made
            → ltb (time x) (time e) ≡ true
            → FindsBack
                (find_request_by_time time (time e) e.msg_address)
                (x ∷ xs)
                (elim made [ none ↦ none | some more ↦ some (x ∷ more) ])
        behind_early none i early = tt
        behind_early (some more) i early = rw (early, i)

        behind_equal :
            (made : Option (List BacklogEntry))
            → FindsBack (take_out_at time (time e) e.msg_address) xs made
            → ltb (time x) (time e) ≡ false
            → (time x == time e) ≡ true
            → FindsBack
                (find_request_by_time time (time e) e.msg_address)
                (x ∷ xs)
                (elim made [ none ↦ none | some more ↦ some (x ∷ more) ])
        behind_equal none i not_early equal = tt
        behind_equal (some more) i not_early equal =
            rw (not_early, other_address x.msg_address e.msg_address differs, equal, i)

found_again :
    (time : BacklogEntry → ℕ) (e : BacklogEntry)
    (finds : List BacklogEntry → Option (BacklogEntry × List BacklogEntry))
    (xs ys : List BacklogEntry)
    → FindsBack time e finds xs (insert time e xs)
    → insert time e xs ≡ some ys
    → finds ys ≡ some (e, xs)
found_again time e finds xs ys s made = subst (FindsBack time e finds xs) made s

map_again :
    (id : ℕ) (e : BacklogEntry) (rest : List (ℕ × BacklogEntry))
    → (find_entry id ((id, e) ∷ rest) ≡ some e) × (erase_entry id ((id, e) ∷ rest) ≡ rest)
unfolding find_entry erase_entry
map_again id e rest = (rw (==_self id), rw (==_self id))

module _ (p : MsgRequestPool) (address : ℕ) (m : Msg) (b : MsgBacklog) (orders : BothOrdered p b)
    (no_set : HasNo address b.request_set) (no_heap : HasNo address b.min_heap)
    (counts : b.backlog_size_bytes < u64_mod) where
  narrow : payload_size_bytes m < u32_mod
  unfolding payload_size_bytes
  narrow = mod-lt _ (omega arith)

  counted_back :
      sub64 (add64 b.backlog_size_bytes (payload_size_bytes m)) (payload_size_bytes m)
      ≡ b.backlog_size_bytes
  counted_back = omega (arith, counts, narrow)

  removed :
      (index : ℕ) (requests heap : List BacklogEntry)
      → insert (request_time p) (entry_for address m index) b.request_set ≡ some requests
      → insert (resend_time p) (entry_for address m index) b.min_heap ≡ some heap
      → remove_pending_request p address m (with_entry address m index requests heap b) ≡ ok tt b
  unfolding remove_pending_request
  removed index requests heap made put =
      let e = entry_for address m index in
      let (there, gone) = map_again m.header.request_id e b.request_map in
      rw (
        there,
        remove_pending_request,
        partitioned-IsOrdered (request_time p) (request_time p e) requests
            (kept_sorted (request_time p) e b.request_set requests orders.0 made),
        found_again (request_time p) e
            (find_request_by_time (request_time p) (request_time p e) address) b.request_set
            requests (find-insert (request_time p) e b.request_set no_set orders.0) made,
        found_again (resend_time p) e (take_out address) b.min_heap heap
            (take_out-insert (resend_time p) e b.min_heap no_heap) put,
        gone,
        counted_back,
      )

  -- A request whose message is not in a backlog with sets in order and a count below 2^64 is either refused,
  -- and the backlog stays as it is; or it is added, and then removed with success, where the pool has not
  -- changed, and the backlog is as it was before.
  pub remove_pending_request-add_pending_request :
      ((code : ErrorCode) × (add_pending_request p address m b ≡ err code b))
      ⊎ ((c : MsgBacklog) × (add_pending_request p address m b ≡ ok tt c)
          × (remove_pending_request p address m c ≡ ok tt b))
  remove_pending_request-add_pending_request =
      elim (add_pending_request-BothOrdered p address m b orders) [
        | inl refused ↦ inl refused
        | inr (index, r, requests, heap, slot, run, made, put, ordered) ↦
            inr (
              with_entry address m index requests heap b,
              run,
              removed index requests heap made put,
            )
      ]
