-- ===== src/Transport/HashTable/Put.antt =====
-- inc/transport/concurrent_hash_table.h: how a search goes on after one entry was written.
use commutil.Common.{
  ℕ, zero, suc, ◌≡◌, ◌≢◌, inl, inr, refl, sym, ap, ◌∙◌, Bool, true, false, none, some, get_elem?,
  set, ◌==◌, arith, Bool-cases, Option-cases, get_elem?-lt, get_elem?-set_self, get_elem?-set_ne,
  add32, ==_iff,
}
use commutil.Err.{ok}
use commutil.Transport.HashTable.{ConcurrentHashTable, Entry, masked, probe}
use commutil.Transport.HashTable.Probe.{stop_here, pass_here, fault_here}

apart : (i j : ℕ) → (j == i) ≡ false → i ≢ j
apart i j h e = ground (arith, h, e)

module _ {ℓ} {V : Type ℓ} where
  abbrev pub put : ℕ → Entry V → ConcurrentHashTable V → ConcurrentHashTable V
  put i e t = record t { entries = set t.entries i e }

  -- The entry at an index after a write.
  pub put_here :
      (i j : ℕ) (e new : Entry V) (t : ConcurrentHashTable V)
      → j ≡ i
      → get_elem? t.entries j ≡ some e
      → get_elem? (put i new t).entries j ≡ some new
  put_here i j e new t same at =
      ap (get_elem? (put i new t).entries) same
      ∙ get_elem?-set_self t.entries i new (omega (arith, get_elem?-lt t.entries j e at))

  pub put_there :
      (i j : ℕ) (e new : Entry V) (t : ConcurrentHashTable V)
      → i ≢ j
      → get_elem? t.entries j ≡ some e
      → get_elem? (put i new t).entries j ≡ some e
  put_there i j e new t ne at = get_elem?-set_ne t.entries i j new ne ∙ at

  -- A search that ends at i in the old table, where `stop'` holds of the new entry, and whose test
  -- follows from `stop'` elsewhere, ends at i in the new one.
  module _ (stop stop' : ℕ → Bool) (t : ConcurrentHashTable V) (i : ℕ) (new : Entry V)
      (weaker : (k : ℕ) → stop k ≡ false → stop' k ≡ false) (holds : stop' new.key ≡ true) where
    at_index :
        (rounds idx : ℕ) (e : Entry V)
        → get_elem? t.entries (masked t.size idx) ≡ some e
        → masked t.size idx ≡ i
        → probe stop' (suc rounds) idx (put i new t) ≡ ok (some i) tt
    at_index rounds idx e at same =
        stop_here stop' (put i new t) rounds idx new
          (put_here i (masked t.size idx) e new t same at) holds
        ∙ ap (λ j. ok (some j) tt) same

    pub probe-put :
        (rounds idx : ℕ)
        → probe stop rounds idx t ≡ ok (some i) tt
        → probe stop' rounds idx (put i new t) ≡ ok (some i) tt
    probe-put zero idx run = absurd (cc (ended, run))
      where
        ended : probe stop 0 idx t ≡ ok none tt
        ended = unfold probe in refl
    probe-put (suc rounds) idx run = elim (Option-cases (get_elem? t.entries (masked t.size idx))) [
      | inl out ↦ absurd (cc (fault_here stop t rounds idx out, run))
      | inr (e, at) ↦ elim (Bool-cases (stop e.key)) [
        | inl stops ↦ at_index rounds idx e at (cc (stop_here stop t rounds idx e at stops, run))
        | inr passes ↦ elim (Bool-cases (masked t.size idx == i)) [
          | inl same ↦ at_index rounds idx e at ((==_iff _ _).0 same)
          | inr other ↦
              pass_here stop' (put i new t) rounds idx e
                (put_there i (masked t.size idx) e new t (apart i _ other) at) (weaker e.key passes)
              ∙ probe-put rounds (add32 (masked t.size idx) 1)
                  (sym (pass_here stop t rounds idx e at passes) ∙ run)
        ]
      ]
    ]

  -- A search that treats the old and the new entry at an index alike goes on as before.
  pub probe-congr :
      (stop : ℕ → Bool) (rounds idx : ℕ) (t : ConcurrentHashTable V) (i : ℕ) (old new : Entry V)
      → get_elem? t.entries i ≡ some old
      → stop old.key ≡ false
      → stop new.key ≡ false
      → probe stop rounds idx (put i new t) ≡ probe stop rounds idx t
  probe-congr stop zero idx t i old new at before after = unfold probe in refl
  probe-congr stop (suc rounds) idx t i old new at before after =
      let j = masked t.size idx in
      elim (Bool-cases (j == i)) [
        | inl same ↦
            let here = (==_iff _ _).0 same in
            pass_here stop (put i new t) rounds idx new
              (put_here i j old new t here (ap (get_elem? t.entries) here ∙ at)) after
            ∙ probe-congr stop rounds (add32 j 1) t i old new at before after
            ∙ sym (pass_here stop t rounds idx old (ap (get_elem? t.entries) here ∙ at) before)
        | inr other ↦ elim (Option-cases (get_elem? t.entries j)) [
          | inl out ↦
              fault_here stop (put i new t) rounds idx
                (get_elem?-set_ne t.entries i j new (apart i j other) ∙ out)
              ∙ sym (fault_here stop t rounds idx out)
          | inr (e, there) ↦ elim (Bool-cases (stop e.key)) [
            | inl stops ↦
                stop_here stop (put i new t) rounds idx e
                  (put_there i j e new t (apart i j other) there) stops
                ∙ sym (stop_here stop t rounds idx e there stops)
            | inr passes ↦
                pass_here stop (put i new t) rounds idx e
                  (put_there i j e new t (apart i j other) there) passes
                ∙ probe-congr stop rounds (add32 j 1) t i old new at before after
                ∙ sym (pass_here stop t rounds idx e there passes)
          ]
        ]
      ]
