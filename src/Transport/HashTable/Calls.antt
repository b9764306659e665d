-- ===== src/Transport/HashTable/Calls.antt =====
-- inc/transport/concurrent_hash_table.h, setItem, getItem and removeItem: what one does to the others.
use commutil.Common.{
  ℕ, ◌≡◌, ◌≢◌, ◌⊎◌, inl, inr, refl, ap, ◌∙◌, true, false, ◌||◌, none, some, get_elem?, ◌==◌, arith,
  Bool-cases, ==_self, ==_iff,
}
use commutil.Err.{ok}
use commutil.Transport.HashTable.{
  ConcurrentHashTable, Entry, probe, hash64, set_item, get_item, remove_item, remove_at,
  invalid_entry_id,
}
use commutil.Transport.HashTable.Size.{IsSized}
use commutil.Transport.HashTable.Put.{put, put_here, put_there, probe-put, probe-congr}
use commutil.Transport.HashTable.Probe.{StopsAt, PassesAt, probe_all}

-- The tests of the calls.
vacant_or_own-own : (key k : ℕ) → (k == key || k == 0) ≡ false → (k == key) ≡ false
vacant_or_own-own key k h = elim (Bool-cases (k == key)) [
  | inl same ↦ absurd (cc (h, same))
  | inr other ↦ other
]

taken_by_other :
    (key other k : ℕ) → (k == key || k == 0) ≡ true → other ≢ key → other ≢ 0 → (k == other) ≡ false
taken_by_other key other k h ne nz = ground (arith, h, ne, nz)

module _ {ℓ} {V : Type ℓ} (key : ℕ) (value : V) (t : ConcurrentHashTable V) where
  abbrev entry : Entry V
  entry = record { key = key; value = value }

  -- The outcome of setItem that stores the value at an index.
  abbrev pub Stores : ℕ → Type ℓ
  Stores i =
      StopsAt (λ k. k == key || k == 0) t i
      × (set_item key value t ≡ ok i (put i entry t))
      × (get_item key (put i entry t) ≡ ok (i, some value) tt)

  set_item_found :
      (i : ℕ)
      → StopsAt (λ k. k == key || k == 0) t i
      → probe (λ k. k == key || k == 0) t.size (hash64 key) t ≡ ok (some i) tt
      → Stores i
  unfolding set_item get_item
  set_item_found i (e, at, stops) run =
      ((e, at, stops), rw (run, set_item), rw (found, get_item, put_here i i e entry t refl at))
    where
      found : probe (λ k. k == key) t.size (hash64 key) (put i entry t) ≡ ok (some i) tt
      found =
          probe-put (λ k. k == key || k == 0) (λ k. k == key) t i entry (vacant_or_own-own key)
            (==_self key) t.size (hash64 key) run

  set_item_full :
      probe (λ k. k == key || k == 0) t.size (hash64 key) t ≡ ok none tt
      → set_item key value t ≡ ok invalid_entry_id t
  unfolding set_item
  set_item_full run = rw (run, set_item)

  -- Setting an item either stores the value, so that getItem returns it from the same index, in an
  -- entry that had the key or was vacant; or the invalid index is returned, the table is as it was,
  -- and every entry holds another key.
  pub set_item_lem :
      IsSized t
      → ((i : ℕ) × Stores i)
        ⊎ (((j : ℕ) → PassesAt (λ k. k == key || k == 0) t j)
            × (set_item key value t ≡ ok invalid_entry_id t))
  set_item_lem v = elim (probe_all (λ k. k == key || k == 0) t v (hash64 key)) [
    | inl (i, there, run) ↦ inl (i, set_item_found i there run)
    | inr (full, run) ↦ inr (full, set_item_full run)
  ]

  module _ (v : IsSized t) (other : ℕ) (ne : other ≢ key) (nz : other ≢ 0) where
    other_put : (i : ℕ) → Stores i → get_item other (put i entry t) ≡ get_item other t
    unfolding get_item
    other_put i ((e, at, stops), stored, found) =
        elim (probe_all (λ k. k == other) t v (hash64 other)) [
          | inl (j, (e', there, stops'), run) ↦ rw (
            same ∙ run,
            run,
            get_item,
            put_there i j e' entry t (distinct j e' there stops') there,
            there,
          )
          | inr (others, run) ↦ rw (same ∙ run, run, get_item)
        ]
      where
        not_other : (e.key == other) ≡ false
        not_other = taken_by_other key other e.key stops ne nz

        same :
            probe (λ k. k == other) t.size (hash64 other) (put i entry t)
            ≡ probe (λ k. k == other) t.size (hash64 other) t
        same =
            probe-congr (λ k. k == other) t.size (hash64 other) t i e entry at not_other
              (ground (arith, ne))

        distinct :
            (j : ℕ) (e' : Entry V)
            → get_elem? t.entries j ≡ some e'
            → (e'.key == other) ≡ true
            → i ≢ j
        distinct j e' there stops' i_j = absurd (cc (at, there, i_j, not_other, stops'))

    -- Setting an item does not affect the items of other keys: getItem returns for them what it did.
    -- Key 0 is no key, for it marks a vacant entry.
    pub get_item-set_item_other :
        (i : ℕ) (t' : ConcurrentHashTable V)
        → set_item key value t ≡ ok i t'
        → get_item other t' ≡ get_item other t
    get_item-set_item_other i t' run = elim (set_item_lem v) [
      | inl (j, stores) ↦ ap (get_item other) (cc (stores.1, run)) ∙ other_put j stores
      | inr (full, unchanged) ↦ ap (get_item other) (cc (unchanged, run))
    ]

module _ {ℓ} {V : Type ℓ} (key : ℕ) (t : ConcurrentHashTable V) where
  -- An entry without its key.
  abbrev pub vacated : Entry V → Entry V
  vacated e = record e { key = 0 }

  -- Removing an item vacates one entry that had the key, and returns its index; or no entry has the
  -- key, the invalid index is returned, and the table is as it was.
  pub remove_item_lem :
      IsSized t
      → ((i : ℕ) × (e : Entry V) × (get_elem? t.entries i ≡ some e)
          × (e.key ≡ key)
          × (remove_item key t ≡ ok i (put i (vacated e) t)))
        ⊎ (((j : ℕ) → PassesAt (λ k. k == key) t j) × (remove_item key t ≡ ok invalid_entry_id t))
  unfolding remove_item remove_at
  remove_item_lem v = elim (probe_all (λ k. k == key) t v (hash64 key)) [
    | inl (i, (e, at, stops), run) ↦ inl (i, e, at, (==_iff _ _).0 stops, rw (run, remove_item, at))
    | inr (others, run) ↦ inr (others, rw (run, remove_item))
  ]

  module _ (v : IsSized t) (other : ℕ) (ne : other ≢ key) (nz : other ≢ 0) where
    other_removed :
        (i : ℕ) (e : Entry V)
        → get_elem? t.entries i ≡ some e
        → e.key ≡ key
        → get_item other (put i (vacated e) t) ≡ get_item other t
    unfolding get_item
    other_removed i e at own = elim (probe_all (λ k. k == other) t v (hash64 other)) [
      | inl (j, (e', there, stops'), run) ↦ rw (
        same ∙ run,
        run,
        get_item,
        put_there i j e' (vacated e) t (distinct j e' there stops') there,
        there,
      )
      | inr (others, run) ↦ rw (same ∙ run, run, get_item)
    ]
      where
        not_other : (e.key == other) ≡ false
        not_other = ground (arith, own, ne)

        same :
            probe (λ k. k == other) t.size (hash64 other) (put i (vacated e) t)
            ≡ probe (λ k. k == other) t.size (hash64 other) t
        same =
            probe-congr (λ k. k == other) t.size (hash64 other) t i e (vacated e) at not_other
              (ground (arith, nz))

        distinct :
            (j : ℕ) (e' : Entry V)
            → get_elem? t.entries j ≡ some e'
            → (e'.key == other) ≡ true
            → i ≢ j
        distinct j e' there stops' i_j = absurd (cc (at, there, i_j, not_other, stops'))

    -- Removing an item does not affect the items of other keys.
    pub get_item-remove_item_other :
        (i : ℕ) (t' : ConcurrentHashTable V)
        → remove_item key t ≡ ok i t'
        → get_item other t' ≡ get_item other t
    get_item-remove_item_other i t' run = elim (remove_item_lem v) [
      | inl (j, e, at, own, removed) ↦
          ap (get_item other) (cc (removed, run)) ∙ other_removed j e at own
      | inr (others, unchanged) ↦ ap (get_item other) (cc (unchanged, run))
    ]
