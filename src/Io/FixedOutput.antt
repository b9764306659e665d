-- ===== src/Io/FixedOutput.antt =====
-- inc/io/output_stream.h and inc/io/fixed_output_stream.h: output into a buffer of a fixed size.
use commutil.Common.{
  ℕ, ◌+◌, ◌-◌, ◌≤◌, ◌<◌, ◌≡◌, refl, List, ◌++◌, arith, length, take, drop, replicate, ltb,
  if◌then◌else◌, add32, sub32, u32_mod, length-append, length-take, length-drop, take_two, le→ltb,
  lt→ltb, length-replicate,
}
use commutil.Err.{e_nomem, Out, ok, err}
use commutil.Io.Bytes.{ByteOrder}

-- `buffer` is the memory behind m_bufferPtr, from its first byte.
pub record FixedOutputStream : Type 0 where
  pub buffer : List ℕ
  pub buffer_size : ℕ
  pub offset : ℕ
  pub byte_order : ByteOrder

-- The two constructors: over an own zeroed vector, and over memory of the caller's.
unfoldable pub make : ℕ → ByteOrder → FixedOutputStream
make buffer_size byte_order = record {
  buffer = replicate buffer_size 0;
  buffer_size = buffer_size;
  offset = 0;
  byte_order = byte_order;
}

unfoldable pub make_over : List ℕ → ℕ → ByteOrder → FixedOutputStream
make_over memory buffer_size byte_order = record {
  buffer = memory;
  buffer_size = buffer_size;
  offset = 0;
  byte_order = byte_order;
}

-- `memcpy(dest + offset, bytes, length)`
abbrev pub memcpy_at : List ℕ → ℕ → List ℕ → List ℕ
memcpy_at dest offset bytes = take offset dest ++ (bytes ++ drop (offset + length bytes) dest)

-- `bytes` are the `length` bytes behind the source's pointer.
unfoldable pub write_bytes : List ℕ → FixedOutputStream → Out FixedOutputStream (Unit {0})
write_bytes bytes s =
    if ltb (sub32 s.buffer_size s.offset) (length bytes)
    then err e_nomem s
    else ok tt (record s {
      buffer = memcpy_at s.buffer s.offset bytes;
      offset = add32 s.offset (length bytes);
    })

pub record IsValid (s : FixedOutputStream) : Type 0 where
  pub whole : length s.buffer ≡ s.buffer_size
  pub within : s.offset ≤ s.buffer_size
  pub small : s.buffer_size < u32_mod

-- The bytes written so far: `getBuffer()` up to `getLength()`.
unfoldable pub written : FixedOutputStream → List ℕ
written s = take s.offset s.buffer

-- The bytes that still fit.
abbrev pub room : FixedOutputStream → ℕ
room s = s.buffer_size - s.offset

pub record Wrote (s : FixedOutputStream) (bytes : List ℕ) (t : FixedOutputStream) : Type 0 where
  pub valid : IsValid t
  pub bytes_added : written t ≡ written s ++ bytes
  pub room_left : room t + length bytes ≡ room s
  pub same_size : t.buffer_size ≡ s.buffer_size
  pub same_order : t.byte_order ≡ s.byte_order

pub length-written : (s : FixedOutputStream) → IsValid s → length (written s) ≡ s.offset
unfolding written
length-written s v = omega (arith, length-take s.offset s.buffer, v.whole, v.within)

-- Bytes that fit are appended to what was written; the sizes never wrap.
pub write_bytes-Wrote :
    (bytes : List ℕ) (s : FixedOutputStream)
    → IsValid s
    → length bytes ≤ room s
    → (t : FixedOutputStream) × (write_bytes bytes s ≡ ok tt t) × Wrote s bytes t
unfolding write_bytes written
write_bytes-Wrote bytes s v h = (
  next,
  rw (le→ltb (sub32 s.buffer_size s.offset) (length bytes) (omega arith)),
  record {
    valid = record {
      whole = simp length-append (omega (arith, front, length-drop at_end s.buffer));
      within = omega arith;
      small = v.small;
    };
    bytes_added =
        take_two _ (take s.offset s.buffer) bytes (drop at_end s.buffer) (omega (arith, front));
    room_left = omega arith;
    same_size = refl;
    same_order = refl;
  },
)
  where
    at_end : ℕ
    at_end = s.offset + length bytes

    next : FixedOutputStream
    next = record s {
      buffer = memcpy_at s.buffer s.offset bytes;
      offset = add32 s.offset (length bytes);
    }

    front : length (take s.offset s.buffer) ≡ s.offset
    front = omega (arith, length-take s.offset s.buffer)

-- Bytes that do not fit are refused, and the stream is as it was.
pub write_bytes_full :
    (bytes : List ℕ) (s : FixedOutputStream)
    → IsValid s
    → room s < length bytes
    → write_bytes bytes s ≡ err e_nomem s
unfolding write_bytes
write_bytes_full bytes s v h =
    rw (lt→ltb (sub32 s.buffer_size s.offset) (length bytes) (omega arith))

pub make-IsValid : (n : ℕ) (o : ByteOrder) → n < u32_mod → IsValid (make n o)
unfolding make
make-IsValid n o h = record { whole = length-replicate n 0; within = omega arith; small = h }
