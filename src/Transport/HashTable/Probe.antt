-- ===== src/Transport/HashTable/Probe.antt =====
-- inc/transport/concurrent_hash_table.h: the loop over the entries from a key's hash on.
use Prim.Native.Nat.{bit_and}
use native.Mathlib.Nat.{mod-lt, mod-eq_of_lt, mod-add-mod}
use commutil.Common.{
  ℕ, zero, suc, ◌+◌, ◌-◌, ◌%◌, ◌^◌, ◌≤◌, ◌<◌, ◌≡◌, ◌⊎◌, inl, inr, refl, sym, ap, ◌∙◌, Bool, true,
  false, none, some, get_elem?, arith, ltb, u32_mod, add32, Bool-cases, visited, get_elem?-total,
  get_elem?-lt, ltb→lt, ltb→le,
}
use commutil.Err.{ok, fault}
use commutil.Transport.HashTable.{ConcurrentHashTable, Entry, masked, probe}
use commutil.Transport.HashTable.Mask.{bit_and-mask, power_pos}
use commutil.Transport.HashTable.Size.{IsSized}

power_small : (d k : ℕ) → k + d ≡ 31 → 2 ^ k ≤ 2 ^ 31
power_small zero k h = omega (arith, top)
  where
    top : 2 ^ k ≡ 2 ^ 31
    top = ap (λ n. 2 ^ n) {x = k} {y = 31} (omega arith)
power_small (suc d) k h = omega (arith, power_small d (suc k) (omega arith))

module _ {ℓ} {V : Type ℓ} (stop : ℕ → Bool) (t : ConcurrentHashTable V) where
  -- An entry at which the loop stops.
  abbrev pub StopsAt : ℕ → Type ℓ
  StopsAt i = (e : Entry V) × (get_elem? t.entries i ≡ some e) × (stop e.key ≡ true)

  abbrev pub PassesAt : ℕ → Type ℓ
  PassesAt i = (e : Entry V) → get_elem? t.entries i ≡ some e → stop e.key ≡ false

  pub stop_here :
      (rounds idx : ℕ) (e : Entry V)
      → get_elem? t.entries (masked t.size idx) ≡ some e
      → stop e.key ≡ true
      → probe stop (suc rounds) idx t ≡ ok (some (masked t.size idx)) tt
  unfolding probe
  stop_here rounds idx e at stops = rw (probe, at, stops)

  pub pass_here :
      (rounds idx : ℕ) (e : Entry V)
      → get_elem? t.entries (masked t.size idx) ≡ some e
      → stop e.key ≡ false
      → probe stop (suc rounds) idx t ≡ probe stop rounds (add32 (masked t.size idx) 1) t
  unfolding probe
  pass_here rounds idx e at passes = rw (probe, at, passes)

  pub fault_here :
      (rounds idx : ℕ)
      → get_elem? t.entries (masked t.size idx) ≡ none
      → probe stop (suc rounds) idx t ≡ fault
  unfolding probe
  fault_here rounds idx out = rw (probe, out)

  module _ (v : IsSized t) where
    size_pos : 0 < t.size
    size_pos = omega (arith, v.power, power_pos v.bits)

    masked_lem : (idx : ℕ) → (masked t.size idx ≡ idx % t.size) × (idx % t.size < t.size)
    unfolding masked
    masked_lem idx = (
      ap (λ n. bit_and idx (n - 1) % u32_mod) v.power
          ∙ ap (λ n. n % u32_mod) (bit_and-mask idx v.bits)
          ∙ ap (λ n. idx % n % u32_mod) (sym v.power)
          ∙ mod-eq_of_lt (omega (arith, below, mod-lt idx size_pos)),
      mod-lt idx size_pos,
    )
      where
        below : t.size ≤ u32_mod
        below = omega (arith, v.power, power_small (31 - v.bits) v.bits (omega (arith, v.few)))

    entry_at : (idx : ℕ) → (e : Entry V) × (get_elem? t.entries (masked t.size idx) ≡ some e)
    entry_at idx =
        get_elem?-total t.entries (masked t.size idx) (omega (arith, v.whole, masked_lem idx))

    -- The index of the next round, as far as the table is concerned.
    next :
        (hash idx i : ℕ)
        → idx % t.size ≡ (hash + i) % t.size
        → add32 (masked t.size idx) 1 % t.size ≡ (hash + (i + 1)) % t.size
    next hash idx i same =
        ap (λ n. n % t.size) unwrapped
        ∙ ap (λ n. (n + 1) % t.size) same
        ∙ mod-add-mod (hash + i) t.size 1
        ∙ ap (λ n. n % t.size) (omega arith)
      where
        unwrapped : add32 (masked t.size idx) 1 ≡ idx % t.size + 1
        unwrapped = omega (
          arith,
          masked_lem idx,
          v.power,
          power_small (31 - v.bits) v.bits (omega (arith, v.few)),
        )

    -- So many rounds stop at an entry, or pass every entry on the way.
    probe_lem :
        (rounds hash idx i : ℕ)
        → idx % t.size ≡ (hash + i) % t.size
        → ((j : ℕ) × StopsAt j × (probe stop rounds idx t ≡ ok (some j) tt))
          ⊎ (((k : ℕ) → i ≤ k → k < i + rounds → PassesAt ((hash + k) % t.size))
              × (probe stop rounds idx t ≡ ok none tt))
    probe_lem zero hash idx i same = inr (λ k lo hi. absurd (omega arith), unfold probe in refl)
    probe_lem (suc rounds) hash idx i same =
        let (e, at) = entry_at idx in
        elim (Bool-cases (stop e.key)) [
          | inl stops ↦ inl (_, (e, at, stops), stop_here rounds idx e at stops)
          | inr passes ↦
              elim (probe_lem rounds hash (add32 (masked t.size idx) 1) (i + 1)
                (next hash idx i same)) [
                  | inl (j, there, run) ↦ inl (j, there, pass_here rounds idx e at passes ∙ run)
                  | inr (others, run) ↦ inr (
                    λ k lo hi. elim (Bool-cases (ltb i k)) [
                      | inl later ↦ others k (omega (arith, ltb→lt i k later)) (omega arith)
                      | inr now ↦ passed e at passes k (omega (arith, ltb→le i k now))
                    ],
                    pass_here rounds idx e at passes ∙ run,
                  )
                ]
        ]
      where
        passed :
            (e : Entry V)
            → get_elem? t.entries (masked t.size idx) ≡ some e
            → stop e.key ≡ false
            → (k : ℕ) → k ≡ i
            → PassesAt ((hash + k) % t.size)
        passed e at passes k e_k e' there = cc (at, there, passes, here)
          where
            here : masked t.size idx ≡ (hash + k) % t.size
            here = (masked_lem idx).0 ∙ same ∙ ap (λ n. (hash + n) % t.size) (sym e_k)

    -- From any index on, as many rounds as there are entries stop at one, or pass them all.
    pub probe_all :
        (idx : ℕ)
        → ((j : ℕ) × StopsAt j × (probe stop t.size idx t ≡ ok (some j) tt))
          ⊎ (((j : ℕ) → PassesAt j) × (probe stop t.size idx t ≡ ok none tt))
    probe_all idx = elim (probe_lem t.size idx idx 0 (ap (λ n. n % t.size) plain)) [
      | inl found ↦ inl found
      | inr (passes, run) ↦ inr (
        λ j e at.
            let (k, within, here) =
              visited (idx % t.size) t.size j (mod-lt idx size_pos)
                (omega (arith, get_elem?-lt t.entries j e at, v.whole)) in
            passes k (omega arith) (omega arith) e
              (ap (get_elem? t.entries) (sym (mod-add-mod idx t.size k) ∙ here) ∙ at),
        run,
      )
    ]
      where
        plain : idx ≡ idx + 0
        plain = omega arith
