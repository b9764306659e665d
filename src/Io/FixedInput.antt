-- ===== src/Io/FixedInput.antt =====
-- inc/io/fixed_input_stream.h and src/io/fixed_input_stream.cpp: input from one buffer.
use commutil.Common.{
  ℕ, ◌+◌, ◌≤◌, ◌<◌, min, ◌≡◌, refl, sym, ap, ◌∙◌, false, List, [], arith, length, take, drop, ◌-◌,
  replicate, ◌==◌, if◌then◌else◌, add32, sub32, u32_mod, length-drop, drop-drop, Bool, ltb, none,
  some,
}
use commutil.Err.{e_end_of_stream, e_internal_error, Out, ok, err, fault}
use commutil.Io.Bytes.{ByteOrder}
use commutil.Io.Search.{strnstr}
use commutil.Io.Stream.{InputStream}

-- `buffer` is the memory behind m_bufRef, from its first byte.
pub record FixedInputStream : Type 0 where
  pub buffer : List ℕ
  pub size : ℕ
  pub offset : ℕ
  pub byte_order : ByteOrder

-- The constructor. Where the buffer is not taken by reference the own vector is resized, which
-- zeroes it, and nothing is copied into it.
unfoldable pub make : List ℕ → ℕ → Bool → ByteOrder → FixedInputStream
make buffer buffer_size by_ref byte_order = record {
  buffer = if by_ref then buffer else replicate buffer_size 0;
  size = buffer_size;
  offset = 0;
  byte_order = byte_order;
}

-- `reset()` does nothing.
unfoldable pub reset : FixedInputStream → FixedInputStream
reset s = s

-- `size()`
unfoldable pub size_left : FixedInputStream → ℕ
size_left s = sub32 s.size s.offset

unfoldable pub read_bytes : ℕ → FixedInputStream → Out FixedInputStream (List ℕ)
unfolding size_left
read_bytes length s =
    let bytes_can_read = size_left s in
    let bytes_read = min length bytes_can_read in
    if bytes_can_read == 0
    then err e_end_of_stream s
    else ok (take bytes_read (drop s.offset s.buffer))
        (record s { offset = add32 s.offset bytes_read })

-- The offset is put back, whatever the read did.
unfoldable pub peek_bytes : ℕ → FixedInputStream → Out FixedInputStream (List ℕ)
peek_bytes length s = elim (read_bytes length s) [
  | ok bytes t ↦ ok bytes (record t { offset = s.offset })
  | err e t ↦ err e (record t { offset = s.offset })
  | fault ↦ fault
]

-- The result is the number of bytes skipped.
unfoldable pub skip_bytes : ℕ → FixedInputStream → Out FixedInputStream ℕ
unfolding size_left
skip_bytes length s =
    let bytes_can_read = size_left s in
    let bytes_skipped = min length bytes_can_read in
    if bytes_can_read == 0
    then err e_end_of_stream s
    else ok bytes_skipped (record s { offset = add32 s.offset bytes_skipped })

pub record IsValid (s : FixedInputStream) : Type 0 where
  pub whole : length s.buffer ≡ s.size
  pub within : s.offset ≤ s.size
  pub small : s.size < u32_mod

unfoldable pub contents : FixedInputStream → List ℕ
contents s = drop s.offset s.buffer

pub length-contents : (s : FixedInputStream) → IsValid s → size_left s ≡ length (contents s)
unfolding contents size_left
length-contents s v = omega (arith, length-drop s.offset s.buffer, v.whole, v.within, v.small)

abbrev pub after : ℕ → FixedInputStream → FixedInputStream
after n s = record s { offset = s.offset + n }

pub after-IsValid :
    (n : ℕ) (s : FixedInputStream) → IsValid s → n ≤ length (contents s) → IsValid (after n s)
unfolding contents
after-IsValid n s v h = record {
  whole = v.whole;
  within = omega (arith, length-drop s.offset s.buffer, v.whole);
  small = v.small;
}

pub contents-after : (n : ℕ) (s : FixedInputStream) → contents (after n s) ≡ drop n (contents s)
unfolding contents
contents-after n s = sym (drop-drop n s.offset s.buffer)

module _ (n : ℕ) (s : FixedInputStream) (v : IsValid s) (h : 0 < length (contents s)) where
  left : sub32 s.size s.offset ≡ length (contents s)
  unfolding size_left
  left = length-contents s v

  some_left : (length (contents s) == 0) ≡ false
  some_left = ground arith

  advance : add32 s.offset (min n (length (contents s))) ≡ s.offset + min n (length (contents s))
  unfolding contents
  advance = omega (arith, length-drop s.offset s.buffer, v.whole, v.small)

  same : drop s.offset s.buffer ≡ contents s
  unfolding contents
  same = refl

  -- A read on a stream that has bytes left returns as many as it can, and advances by them.
  pub read_bytes_lem :
      read_bytes n s
      ≡ ok (take (min n (length (contents s))) (contents s)) (after (min n (length (contents s))) s)
  unfolding read_bytes
  read_bytes_lem = rw (left, some_left, advance, same)

  -- A skip goes as far as the read would.
  pub skip_bytes_lem :
      skip_bytes n s ≡ ok (min n (length (contents s))) (after (min n (length (contents s))) s)
  unfolding skip_bytes
  skip_bytes_lem = rw (left, some_left, advance)

  -- A peek returns what the read would, and the stream stays as it was.
  pub peek_bytes_lem : peek_bytes n s ≡ ok (take (min n (length (contents s))) (contents s)) s
  unfolding peek_bytes
  peek_bytes_lem = rw (read_bytes_lem, peek_bytes)

-- With nothing left every one of the three is refused, and the stream stays as it was.
pub at_end_of_stream :
    (n : ℕ) (s : FixedInputStream)
    → IsValid s
    → contents s ≡ []
    → (read_bytes n s ≡ err e_end_of_stream s)
      × (peek_bytes n s ≡ err e_end_of_stream s)
      × (skip_bytes n s ≡ err e_end_of_stream s)
unfolding read_bytes peek_bytes skip_bytes
at_end_of_stream n s v e = (rw none_left, rw (none_left, peek_bytes), rw none_left)
  where
    none_left : sub32 s.size s.offset ≡ 0
    none_left = length-contents s v ∙ ap length e

pub read_bytes_pos :
    (n : ℕ) (s : FixedInputStream)
    → IsValid s
    → 0 < n
    → n ≤ length (contents s)
    → (t : FixedInputStream) × (read_bytes n s ≡ ok (take n (contents s)) t)
      × IsValid t
      × (contents t ≡ drop n (contents s))
      × (t.byte_order ≡ s.byte_order)
read_bytes_pos n s v pos h = (
  after n s,
  rw least at (read_bytes_lem n s v (omega arith)),
  after-IsValid n s v h,
  contents-after n s,
  refl,
)
  where
    least : min n (length (contents s)) ≡ n
    least = omega arith

instance abbrev pub fixed_input : InputStream FixedInputStream
fixed_input = record {
  size = size_left;
  byte_order = λ s. s.byte_order;
  peek_bytes = peek_bytes;
  read_bytes = read_bytes;
  IsValid = IsValid;
  contents = contents;
  size-contents = length-contents;
  read_bytes_lem = read_bytes_pos;
}

-- `searchBytes` from the start of the buffer, whatever the offset. A failed search skips (uint32_t)-1
-- bytes, not the offset that the loop before it finds.
unfoldable pub search_bytes : List ℕ → FixedInputStream → Out FixedInputStream (Unit {0})
unfolding size_left skip_bytes
search_bytes pattern s =
    let buf_len = size_left s in
    if ltb buf_len (length pattern)
    then err e_end_of_stream s
    else elim (strnstr (take buf_len s.buffer) pattern) [
      | ok (some res) _ ↦ elim (skip_bytes res s) [
        | ok n t ↦ ok tt t
        | err e t ↦ err e_internal_error t
        | fault ↦ fault
      ]
      | ok none _ ↦ elim (skip_bytes (u32_mod - 1) s) [
        | ok n t ↦ err e_end_of_stream t
        | err e t ↦ err e_internal_error t
        | fault ↦ fault
      ]
      | err e _ ↦ err e s
      | fault ↦ fault
    ]
