-- ===== src/Transport/HashTable/Mask.antt =====
-- inc/transport/concurrent_hash_table.h, `idx &= m_size - 1`: masking by a power of two is the remainder by it.
use Prim.Native.Nat.{bit_and, bit_and-bitwise, digits}
use native.Mathlib.Nat.{mod-lt, mod-eq_of_lt, add-mul-mod_self_left, mod-add-div}
use commutil.Common.{
  ℕ, zero, suc, ◌+◌, ◌-◌, ◌*◌, ◌/◌, ◌%◌, ◌^◌, ◌≤◌, ◌<◌, min, ◌≡◌, sym, ap, ◌∙◌, arith,
}

pub power_pos : (k : ℕ) → 0 < 2 ^ k
power_pos zero = omega arith
power_pos (suc k) = omega (arith, power_pos k)

-- The remainder by 2M from that of the half by M.
halved : (x q : ℕ) → 0 < q → (x / 2 % q) * 2 + x % 2 ≡ x % (2 * q)
halved x q pos = sym (
    ap (λ n. n % (2 * q)) split
    ∙ add-mul-mod_self_left ((x / 2 % q) * 2 + x % 2) (2 * q) (x / 2 / q)
    ∙ mod-eq_of_lt (omega (arith, mod-lt (x / 2) pos)))
  where
    split : x ≡ (x / 2 % q) * 2 + x % 2 + 2 * q * (x / 2 / q)
    split = omega (arith, mod-add-div (x / 2) q)

lowest : (n a k : ℕ) → a ≤ n → digits (λ b. zero) min n a (2 ^ k - 1) ≡ a % 2 ^ k
lowest zero a k h = omega (arith, at_most)
  where
    at_most : a % 2 ^ k ≡ a
    at_most = mod-eq_of_lt (omega (arith, power_pos k))
lowest (suc n) zero k h = sym (mod-eq_of_lt (power_pos k))
lowest (suc n) (suc a) zero h = omega (arith, lowest n (suc a / 2) 0 (omega arith))
lowest (suc n) (suc a) (suc k) h =
    ap (λ m. digits (λ b. zero) min n (suc a / 2) m * 2 + min (suc a % 2) ((2 ^ suc k - 1) % 2))
      half
    ∙ omega (
      arith,
      lowest n (suc a / 2) k (omega arith),
      halved (suc a) (2 ^ k) (power_pos k),
      power_pos k,
    )
    ∙ ap (λ m. suc a % m) twice
  where
    twice : 2 * 2 ^ k ≡ 2 ^ suc k
    twice = omega arith

    half : (2 ^ suc k - 1) / 2 ≡ 2 ^ k - 1
    half = omega (arith, power_pos k)

pub bit_and-mask : (a k : ℕ) → bit_and a (2 ^ k - 1) ≡ a % 2 ^ k
bit_and-mask a k = bit_and-bitwise a (2 ^ k - 1) ∙ lowest a a k (omega arith)
