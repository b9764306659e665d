-- ===== src/Transport/HashTable/Size.antt =====
-- inc/transport/concurrent_hash_table.h, lines 35-44: the size of the array.
use commutil.Common.{
  ℕ, zero, suc, ◌+◌, ◌*◌, ◌%◌, ◌^◌, ◌≤◌, ◌<◌, ◌≡◌, ◌⊎◌, inl, inr, refl, ap, Bool, true, some,
  length, replicate, length-replicate, arith, ltb, u64_mod, Bool-cases, ltb→lt, ltb→le,
}
use commutil.Err.{ok}
use commutil.Transport.HashTable.{ConcurrentHashTable, make, round_up, initialize}

-- The array of a table that is in use has 2^k entries. Indexes and counts of 32 bits suffice for it.
pub record IsSized {ℓ} {V : Type ℓ} (t : ConcurrentHashTable V) : Type 0 where
  pub bits : ℕ
  pub few : bits < 32
  pub power : t.size ≡ 2 ^ bits
  pub whole : length t.entries ≡ t.size

-- What the loop looks for: the least power of two that is large enough.
abbrev pub RoundsTo : ℕ → ℕ → Type 0
RoundsTo size n = (size ≤ n) × ((n ≡ 1) ⊎ (n < 2 * size))

round_up_lem :
    (rounds bits size : ℕ)
    → size ≤ 2 ^ 31
    → bits + rounds ≡ 64
    → bits ≤ 31
    → (2 ^ bits ≡ 1) ⊎ (2 ^ bits < 2 * size)
    → (k : ℕ) × (k < 32) × (round_up rounds size (2 ^ bits) ≡ some (2 ^ k)) × RoundsTo size (2 ^ k)
unfolding round_up
round_up_lem zero bits size h e low least = absurd (omega arith)
round_up_lem (suc rounds) bits size h e low least = elim (Bool-cases (ltb (2 ^ bits) size)) [
  | inl more ↦
      let (k, few, run, found) =
        round_up_lem rounds (suc bits) size h (omega arith) (below (ltb→lt _ _ more))
          (inr (omega (arith, ltb→lt _ _ more))) in
      (k, few, rw (more, doubled (ltb→lt _ _ more)) run, found)
  | inr done ↦ (bits, omega arith, rw done, (ltb→le _ _ done, least))
]
  where
    doubled : 2 ^ bits < size → 2 ^ bits * 2 % u64_mod ≡ 2 ^ suc bits
    doubled lt = omega arith

    below : 2 ^ bits < size → suc bits ≤ 31
    below lt = elim (Bool-cases (ltb bits 31)) [
      | inl small ↦ omega (arith, ltb→lt _ _ small)
      | inr large ↦ absurd (omega (arith, top (ltb→le _ _ large)))
    ]
      where
        top : 31 ≤ bits → 2 ^ bits ≡ 2 ^ 31
        top le = ap (λ n. 2 ^ n) {y = 31} (omega arith)

-- A fresh table for at most 2^31 entries, where there is memory for it, has room for the least power
-- of two of entries that is large enough; all of them are vacant.
pub initialize-IsSized {ℓ} :
    {V : Type ℓ} (blank : V) (room : ℕ → Bool) (size : ℕ)
    → size ≤ 2 ^ 31
    → ((n : ℕ) → room n ≡ true)
    → (n : ℕ) × (initialize blank room size make
        ≡ ok tt (record { entries = replicate n (record { key = 0; value = blank }); size = n }))
      × RoundsTo size n
      × IsSized {V = V}
          (record { entries = replicate n (record { key = 0; value = blank }); size = n })
unfolding initialize make
initialize-IsSized blank room size h memory =
    let (k, few, run, found) = round_up_lem 64 0 size h refl (omega arith) (inl refl) in
    (
      2 ^ k,
      rw (run, initialize, memory (2 ^ k)),
      found,
      record { bits = k; few = few; power = refl; whole = length-replicate (2 ^ k) _ },
    )
