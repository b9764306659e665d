-- ===== src/Msg/Frame/Flags.antt =====
-- The two flag bits of a frame, for every 16-bit word of flags.
use Prim.Native.Nat.{bit_and, bit_or}
use commutil.Common.{
  ℕ, zero, suc, ◌^◌, ◌<◌, ◌≡◌, refl, Bool, true, false, ◌&&◌, arith, ◌==◌, if◌then◌else◌,
}
use commutil.Msg.Header.{flag_compressed, flag_batch}

-- Flags of the caller's that say nothing of compression.
abbrev pub IsPlain : ℕ → Type 0
IsPlain flags = bit_and flags flag_compressed ≡ 0

-- The flag can be set on these flags with no other effect.
marked : ℕ → Bool
marked f =
    bit_and (bit_or f flag_compressed) flag_compressed == 1
    && bit_and (bit_or f flag_compressed) flag_batch == bit_and f flag_batch

words_marked : ℕ → Bool
words_marked zero = true
words_marked (suc k) = if marked k then words_marked k else false

word_marked : (flags bound : ℕ) → flags < bound → words_marked bound ≡ true → marked flags ≡ true
unfolding words_marked
word_marked flags zero h table = elim h [ ]
word_marked flags (suc k) h table = ground (arith, word_marked flags k)

sixteen_bits : words_marked 65536 ≡ true
unfolding words_marked marked
sixteen_bits = refl

-- Setting the flag of compression sets it, and leaves that of a batch as it was.
pub mark_compressed :
    (flags : ℕ)
    → flags < 2 ^ 16
    → (bit_and (bit_or flags flag_compressed) flag_compressed ≡ 1)
      × (bit_and (bit_or flags flag_compressed) flag_batch ≡ bit_and flags flag_batch)
mark_compressed flags h = parts (word_marked flags 65536 h sixteen_bits)
  where
    parts :
        marked flags ≡ true
        → (bit_and (bit_or flags flag_compressed) flag_compressed ≡ 1)
          × (bit_and (bit_or flags flag_compressed) flag_batch ≡ bit_and flags flag_batch)
    parts e = unfold marked in ground arith
