-- ===== src/Transport/HashTable.antt =====
-- inc/transport/concurrent_hash_table.h, with each call taken as one step: no other thread between its loads and
-- its exchanges, so that an exchange on a key that was just loaded succeeds.
pub mod Mask
pub mod Size
pub mod Probe
pub mod Put
pub mod Calls
use Prim.Native.Nat.{bit_and, bit_xor}
use commutil.Common.{
  ℕ, zero, suc, ◌+◌, ◌-◌, ◌*◌, ◌/◌, ◌%◌, ◌^◌, Bool, true, false, Option, none, some, List, [], ◌∷◌,
  length, get_elem?, set, replicate, ltb, ◌==◌, if◌then◌else◌, not, ◌||◌, add32, u32_mod, u64_mod,
}
use commutil.Err.{ErrorCode, e_already_exists, e_nomem, Out, ok, err, fault}
use commutil.Io.Bytes.{le_bytes, le_value}

pub record Entry {ℓ} (V : Type ℓ) : Type ℓ where
  pub key : ℕ
  pub value : V

-- A null m_entries is the empty list: an array that was allocated has at least one entry.
pub record ConcurrentHashTable {ℓ} (V : Type ℓ) : Type ℓ where
  pub entries : List (Entry V)
  pub size : ℕ

-- COMMUTIL_INVALID_CHT_ENTRY_ID
abbrev pub invalid_entry_id : ℕ
invalid_entry_id = u32_mod - 1

-- The loop of `initialize`, of at most so many rounds; `none`: it has not ended.
unfoldable pub round_up : ℕ → ℕ → ℕ → Option ℕ
round_up zero size size2pow = none
round_up (suc rounds) size size2pow =
    let rest = round_up rounds size (size2pow * 2 % u64_mod) in
    if ltb size2pow size then rest else some size2pow

mul32 : ℕ → ℕ → ℕ
mul32 a b = a * b % u32_mod

-- `h >> n`
shift_right : ℕ → ℕ → ℕ
shift_right h n = h / 2 ^ n

abbrev mixer : ℕ
mixer = 0x5bd1e995

-- One round of the loop of `hash64`, over four bytes of the key.
hash_round : ℕ → ℕ → ℕ
unfolding mul32 shift_right
hash_round h k =
    let k₁ = mul32 k mixer in
    let k₂ = bit_xor k₁ (shift_right k₁ 24) in bit_xor (mul32 h mixer) (mul32 k₂ mixer)

-- `hash64` with its default seed. The key has 8 bytes, so that none are left over after the loop.
unfoldable pub hash64 : ℕ → ℕ
unfolding hash_round
hash64 key =
    let h₀ = bit_xor 0xd92e493e 8 in
    let h₁ = hash_round h₀ (key % u32_mod) in
    let h₂ = hash_round h₁ (key / u32_mod % u32_mod) in
    let h₃ = bit_xor h₂ (shift_right h₂ 13) in
    let h₄ = mul32 h₃ mixer in bit_xor h₄ (shift_right h₄ 15)

-- `idx &= m_size - 1`, in 32 bits.
unfoldable pub masked : ℕ → ℕ → ℕ
masked size idx = bit_and idx (size - 1) % u32_mod

module _ {ℓ} {V : Type ℓ} where
  unfoldable pub make : ConcurrentHashTable V
  make = record { entries = []; size = 0 }

  -- `blank` is what a value is before it is set; `room` tells whether there is memory for an array. After
  -- 64 rounds size2pow is 0, and the loop does not end.
  unfoldable pub initialize :
      V → (ℕ → Bool) → ℕ → ConcurrentHashTable V → Out (ConcurrentHashTable V) (Unit {0})
  unfolding round_up
  initialize blank room size t =
      if not (t.size == 0) || not (length t.entries == 0)
      then err e_already_exists t
      else elim (round_up 64 size 1) [
        | none ↦ fault
        | some size2pow ↦
            if room size2pow
            then ok tt (record {
              entries = replicate size2pow (record { key = 0; value = blank });
              size = size2pow;
            })
            else err e_nomem t
      ]

  unfoldable pub destroy : ConcurrentHashTable V → ConcurrentHashTable V
  destroy t = record { entries = []; size = 0 }

  -- The loop that the four calls share: from an index on, for so many rounds, to the first entry
  -- whose key passes a test. An index out of range is read past the array's end.
  unfoldable pub probe : (ℕ → Bool) → ℕ → ℕ → ConcurrentHashTable V → Out (Unit {0}) (Option ℕ)
  unfolding masked
  probe stop zero idx t = ok none tt
  probe stop (suc rounds) idx t =
      let i = masked t.size idx in
      let rest = probe stop rounds (add32 i 1) t in
      elim (get_elem? t.entries i) [
        | none ↦ fault
        | some e ↦ if stop e.key then ok (some i) tt else rest
      ]

  -- `setItem`: the entry of the key, or the first that is vacant, gets both.
  unfoldable pub set_item : ℕ → V → ConcurrentHashTable V → Out (ConcurrentHashTable V) ℕ
  unfolding probe hash64
  set_item key value t = elim (probe (λ k. k == key || k == 0) t.size (hash64 key) t) [
    | ok (some i) _ ↦
        ok i (record t { entries = set t.entries i (record { key = key; value = value }) })
    | ok none _ ↦ ok invalid_entry_id t
    | err e _ ↦ err e t
    | fault ↦ fault
  ]

  -- `getItem`: the index, and the value if one is stored through the reference.
  unfoldable pub get_item : ℕ → ConcurrentHashTable V → Out (Unit {0}) (ℕ × Option V)
  unfolding probe hash64
  get_item key t = elim (probe (λ k. k == key) t.size (hash64 key) t) [
    | ok (some i) _ ↦ elim (get_elem? t.entries i) [
      | none ↦ fault
      | some e ↦ ok (i, some e.value) tt
    ]
    | ok none _ ↦ ok (invalid_entry_id, none) tt
    | err e _ ↦ err e tt
    | fault ↦ fault
  ]

  -- `getOrSetItem`: the index, and whether `*found` is set.
  unfoldable pub get_or_set_item :
      ℕ → V → ConcurrentHashTable V → Out (ConcurrentHashTable V) (ℕ × Bool)
  unfolding probe hash64
  get_or_set_item key value t = elim (probe (λ k. k == key || k == 0) t.size (hash64 key) t) [
    | ok (some i) _ ↦ elim (get_elem? t.entries i) [
      | none ↦ fault
      | some e ↦
          if e.key == key
          then ok (i, true) t
          else ok (i, false)
              (record t { entries = set t.entries i (record { key = key; value = value }) })
    ]
    | ok none _ ↦ ok (invalid_entry_id, false) t
    | err e _ ↦ err e t
    | fault ↦ fault
  ]

  -- `getAt`, `setAt` and `removeAt`, for an index in range.
  unfoldable pub get_at : ℕ → ConcurrentHashTable V → Out (Unit {0}) V
  get_at idx t = elim (get_elem? t.entries idx) [ none ↦ fault | some e ↦ ok e.value tt ]

  unfoldable pub set_at : ℕ → V → ConcurrentHashTable V → Out (ConcurrentHashTable V) (Unit {0})
  set_at idx value t = elim (get_elem? t.entries idx) [
    | none ↦ fault
    | some e ↦ ok tt (record t { entries = set t.entries idx (record e { value = value }) })
  ]

  unfoldable pub remove_at : ℕ → ConcurrentHashTable V → Out (ConcurrentHashTable V) (Unit {0})
  remove_at idx t = elim (get_elem? t.entries idx) [
    | none ↦ fault
    | some e ↦ ok tt (record t { entries = set t.entries idx (record e { key = 0 }) })
  ]

  unfoldable pub remove_item : ℕ → ConcurrentHashTable V → Out (ConcurrentHashTable V) ℕ
  unfolding probe hash64 remove_at
  remove_item key t = elim (probe (λ k. k == key) t.size (hash64 key) t) [
    | ok (some i) _ ↦ elim (remove_at i t) [ ok _ s ↦ ok i s | err e s ↦ err e s | fault ↦ fault ]
    | ok none _ ↦ ok invalid_entry_id t
    | err e _ ↦ err e t
    | fault ↦ fault
  ]
