-- ===== src/Tests/Tables.antt =====
-- A table of four entries, for inc/transport/concurrent_hash_table.h.
use Prim.Native.Nat.{bit_and}
use commutil.Common.{
  ℕ, ◌-◌, ◌%◌, ◌^◌, ◌≡◌, ◌⊎◌, refl, Bool, true, ◌||◌, ◌==◌, some, [], ◌∷◌, arith, get_elem?,
  replicate,
}
use commutil.Err.{ok}
use commutil.Transport.HashTable.{
  ConcurrentHashTable, Entry, make, initialize, set_item, get_item, remove_item, invalid_entry_id,
}
use commutil.Transport.HashTable.Mask.{bit_and-mask}
use commutil.Transport.HashTable.Size.{IsSized, RoundsTo, initialize-IsSized}
use commutil.Transport.HashTable.Probe.{PassesAt}
use commutil.Transport.HashTable.Put.{put}
use commutil.Transport.HashTable.Calls.{
  Stores, vacated, set_item_lem, get_item-set_item_other, remove_item_lem,
  get_item-remove_item_other,
}

bit_and-mask_example : bit_and 77 (2 ^ 5 - 1) ≡ 77 % 2 ^ 5
bit_and-mask_example = bit_and-mask 77 5

abbrev ample : ℕ → Bool
ample n = true

initialize-IsSized_example :
    (n : ℕ) × (initialize {V = ℕ} 0 ample 100 make
      ≡ ok tt (record { entries = replicate n (record { key = 0; value = 0 }); size = n }))
    × RoundsTo 100 n
    × IsSized {V = ℕ} (record { entries = replicate n (record { key = 0; value = 0 }); size = n })
initialize-IsSized_example = initialize-IsSized {V = ℕ} 0 ample 100 (omega arith) (λ n. refl)

abbrev item : ℕ → ℕ → Entry ℕ
item key value = record { key = key; value = value }

-- The hashes of 9 and 11 fall on entry 1, so that 11 is stored behind 9.
abbrev table : ConcurrentHashTable ℕ
table = record { entries = item 0 0 ∷ item 9 90 ∷ item 11 110 ∷ item 0 0 ∷ []; size = 4 }

table-IsSized : IsSized table
table-IsSized = record { bits = 2; few = omega arith; power = refl; whole = refl }

calls : Unit {0}
unfolding set_item get_item remove_item
calls = tt

set_item_lem_example :
    ((i : ℕ) × Stores 5 50 table i)
    ⊎ (((j : ℕ) → PassesAt (λ k. k == 5 || k == 0) table j)
        × (set_item 5 50 table ≡ ok invalid_entry_id table))
set_item_lem_example = set_item_lem 5 50 table table-IsSized

five_stored : set_item 5 50 table ≡ ok 0 (put 0 (item 5 50) table)
unfolding calls
five_stored = refl

get_item-set_item_other_example : get_item 11 (put 0 (item 5 50) table) ≡ get_item 11 table
get_item-set_item_other_example =
    get_item-set_item_other 5 50 table table-IsSized 11 (λ e. absurd (omega (arith, e)))
      (λ e. absurd (omega (arith, e))) 0 (put 0 (item 5 50) table) five_stored

remove_item_lem_example :
    ((i : ℕ) × (e : Entry ℕ) × (get_elem? table.entries i ≡ some e)
      × (e.key ≡ 9)
      × (remove_item 9 table ≡ ok i (put i (vacated 9 table e) table)))
    ⊎ (((j : ℕ) → PassesAt (λ k. k == 9) table j)
        × (remove_item 9 table ≡ ok invalid_entry_id table))
remove_item_lem_example = remove_item_lem 9 table table-IsSized

nine_removed : remove_item 9 table ≡ ok 1 (put 1 (item 0 90) table)
unfolding calls
nine_removed = refl

get_item-remove_item_other_example : get_item 11 (put 1 (item 0 90) table) ≡ get_item 11 table
get_item-remove_item_other_example =
    get_item-remove_item_other 9 table table-IsSized 11 (λ e. absurd (omega (arith, e)))
      (λ e. absurd (omega (arith, e))) 1 (put 1 (item 0 90) table) nine_removed

-- After 9 is removed, 11 is stored a second time, in the entry of 9; after 11 is removed, its first
-- value is found again.
abbrev with_two : ConcurrentHashTable ℕ
with_two = put 1 (item 11 111) (put 1 (item 0 90) table)

stored_twice : set_item 11 111 (put 1 (item 0 90) table) ≡ ok 1 with_two
unfolding calls
stored_twice = refl

found_again : get_item 11 (put 1 (item 0 111) with_two) ≡ ok (2, some 110) tt
unfolding calls
found_again = refl

removed_once : remove_item 11 with_two ≡ ok 1 (put 1 (item 0 111) with_two)
unfolding calls
removed_once = refl
