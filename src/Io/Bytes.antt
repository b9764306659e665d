-- ===== src/Io/Bytes.antt =====
-- inc/io/io_def.h and the byte-order functions that inc/io/serializable.h picks (lines 9-32). The host is
-- little-endian, as on the supported platforms; `hton` is htons, htonl or htonll by its width.
use mathlib.Core.List.{reverse-cons, reverse-reverse}
use mathlib.Core.Path.{ap₂}
use native.Mathlib.Nat.{pow-suc}
use commutil.Common.{
  ℕ, zero, suc, ◌+◌, ◌*◌, ◌/◌, ◌%◌, ◌^◌, ◌<◌, ◌≡◌, refl, ap, ◌∙◌, Bool, true, false, List, [], ◌∷◌,
  ◌++◌, reverse, arith, length, length-reverse,
}

pub data ByteOrder : Type 0 where
  host_order network_order : ByteOrder

abbrev pub is_network_order : ByteOrder → Bool
is_network_order network_order = true
is_network_order host_order = false

-- The bytes of an unsigned value of n bytes, as they lie in the host's memory.
unfoldable pub le_bytes : ℕ → ℕ → List ℕ
le_bytes zero v = []
le_bytes (suc n) v = (v % 256) ∷ le_bytes n (v / 256)

unfoldable pub le_value : List ℕ → ℕ
le_value [] = 0
le_value (b ∷ bs) = b + 256 * le_value bs

-- htons, htonl, htonll, and their inverses: on a little-endian host the bytes are swapped.
unfoldable pub hton : ℕ → ℕ → ℕ
unfolding le_value le_bytes
hton n v = le_value (reverse (le_bytes n v))

abbrev pub IsBytes : List ℕ → Type 0
IsBytes [] = Unit
IsBytes (b ∷ bs) = (b < 256) × IsBytes bs

pub length-le_bytes : (n v : ℕ) → length (le_bytes n v) ≡ n
unfolding le_bytes
length-le_bytes zero v = refl
length-le_bytes (suc n) v = ap suc (length-le_bytes n (v / 256))

pub le_bytes-IsBytes : (n v : ℕ) → IsBytes (le_bytes n v)
unfolding le_bytes
le_bytes-IsBytes zero v = tt
le_bytes-IsBytes (suc n) v = (omega arith, le_bytes-IsBytes n (v / 256))

IsBytes-append : (xs ys : List ℕ) → IsBytes xs → IsBytes ys → IsBytes (xs ++ ys)
IsBytes-append [] ys h k = k
IsBytes-append (x ∷ xs) ys h k = (h.0, IsBytes-append xs ys h.1 k)

IsBytes-reverse : (xs : List ℕ) → IsBytes xs → IsBytes (reverse xs)
IsBytes-reverse [] h = tt
IsBytes-reverse (x ∷ xs) h =
    rw (reverse-cons x xs) (IsBytes-append (reverse xs) (x ∷ []) (IsBytes-reverse xs h.1) (h.0, tt))

-- The value of the n bytes of a number that fits in them is the number.
pub le_value-le_bytes : (n v : ℕ) → v < 256 ^ n → le_value (le_bytes n v) ≡ v
unfolding le_bytes le_value
le_value-le_bytes zero v h = omega arith
le_value-le_bytes (suc n) v h =
    omega (arith, le_value-le_bytes n (v / 256) (omega (arith, pow-suc 256 n)))

pub le_bytes-le_value : (xs : List ℕ) → IsBytes xs → le_bytes (length xs) (le_value xs) ≡ xs
unfolding le_bytes le_value
le_bytes-le_value [] h = refl
le_bytes-le_value (x ∷ xs) h =
    ap₂ ◌∷◌ (omega arith) (ap (le_bytes (length xs)) (omega arith) ∙ le_bytes-le_value xs h.1)

-- In memory, a swapped value is its bytes from last to first.
pub le_bytes-hton : (n v : ℕ) → le_bytes n (hton n v) ≡ reverse (le_bytes n v)
unfolding hton
le_bytes-hton n v =
    rw (length-reverse, length-le_bytes) at
      (le_bytes-le_value (reverse (le_bytes n v)) (IsBytes-reverse _ (le_bytes-IsBytes n v)))

pub le_value_bound : (xs : List ℕ) → IsBytes xs → le_value xs < 256 ^ length xs
unfolding le_value
le_value_bound [] h = omega arith
le_value_bound (x ∷ xs) h = omega (arith, le_value_bound xs h.1, pow-suc 256 (length xs))

hton_value : (n v : ℕ) → hton n v ≡ le_value (reverse (le_bytes n v))
unfolding hton
hton_value n v = refl

-- Swapping twice gives the value back.
pub hton-hton : (n v : ℕ) → v < 256 ^ n → hton n (hton n v) ≡ v
hton-hton n v h = hton_value n (hton n v) ∙ ap le_value twice ∙ le_value-le_bytes n v h
  where
    twice : reverse (le_bytes n (hton n v)) ≡ le_bytes n v
    twice = rw (le_bytes-hton n v) (reverse-reverse (le_bytes n v))

-- A swapped value has the width it had.
pub hton-lt : (n v : ℕ) → hton n v < 256 ^ n
hton-lt n v = rw (hton_value n v) (
    rw (length-reverse, length-le_bytes) at
      (le_value_bound (reverse (le_bytes n v)) (IsBytes-reverse _ (le_bytes-IsBytes n v))))
