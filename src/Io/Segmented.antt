-- ===== src/Io/Segmented.antt =====
-- inc/io/segmented_input_stream.h and src/io/segmented_input_stream.cpp: input from a list of buffers.
pub mod Copy
pub mod Read
pub mod Search
use commutil.Common
use commutil.Common.{
  ℕ, ◌+◌, ◌-◌, ◌≤◌, ◌<◌, min, ◌≡◌, refl, Bool, List, [], ◌∷◌, ◌++◌, length, take, drop, ltb, ◌==◌,
  if◌then◌else◌, add32, sub32,
}
use commutil.Err.{ErrorCode, Out, ok, err, fault, ◌>>=◌}
use commutil.Io.Bytes.{ByteOrder}

-- `segments` are the nodes from m_head to m_tail; `freed` are the buffers that were handed to the
-- deallocator, in order.
pub record SegmentedInputStream : Type 0 where
  pub segments : List (List ℕ)
  pub offset : ℕ
  pub size : ℕ
  pub freed : List (List ℕ)
  pub byte_order : ByteOrder

unfoldable pub make : ByteOrder → SegmentedInputStream
make byte_order = record {
  segments = [];
  offset = 0;
  size = 0;
  freed = [];
  byte_order = byte_order;
}

-- The loop of `reset` deallocates every node's buffer, from the head on. m_offset is left alone.
unfoldable pub reset : SegmentedInputStream → SegmentedInputStream
reset s = record s { segments = []; size = 0; freed = s.freed ++ s.segments }

unfoldable pub append_buffer : List ℕ → SegmentedInputStream → SegmentedInputStream
append_buffer buffer s = record s {
  segments = s.segments ++ buffer ∷ [];
  size = add32 s.size (length buffer);
}

unfoldable pub remove_head : SegmentedInputStream → SegmentedInputStream
remove_head s = elim s.segments [
  | [] ↦ s
  | node ∷ rest ↦ record s { segments = rest; offset = 0; freed = s.freed ++ node ∷ [] }
]

-- The bytes of the head node that were not read yet, from m_offset on.
abbrev pub memcpy_from : List ℕ → ℕ → ℕ → List ℕ
memcpy_from buffer offset count = take count (drop offset buffer)

-- The end of `copyBytes`: the last part comes from the head node.
unfoldable pub copy_last :
    List ℕ → ℕ → ℕ → List ℕ → SegmentedInputStream → Out SegmentedInputStream (List ℕ)
unfolding remove_head
copy_last node length copied out s =
    let bytes_to_copy = sub32 length copied in
    let t = record s { size = sub32 s.size bytes_to_copy; offset = add32 s.offset bytes_to_copy } in
    ok (out ++ memcpy_from node s.offset bytes_to_copy)
      (if t.offset == Common.length node then remove_head t else t)

-- The loop of `copyBytes`, over the nodes from m_head on; a null m_head is read through.
unfoldable pub copy_segments :
    List (List ℕ) → ℕ → ℕ → List ℕ → SegmentedInputStream → Out SegmentedInputStream (List ℕ)
unfolding copy_last remove_head
copy_segments [] length copied out s = fault
copy_segments (node ∷ rest) length copied out s =
    let bytes_to_copy = sub32 (Common.length node) s.offset in
    let consumed = record s {
      size = sub32 s.size bytes_to_copy;
      offset = add32 s.offset bytes_to_copy;
    } in
    let next =
      copy_segments rest length (add32 copied bytes_to_copy)
        (out ++ memcpy_from node s.offset bytes_to_copy) (remove_head consumed) in
    if ltb (add32 copied bytes_to_copy) length then next else copy_last node length copied out s

-- `copyBytes(buffer, length)`: the bytes copied (for a null buffer they are dropped by the caller).
unfoldable pub copy_bytes : ℕ → SegmentedInputStream → Out SegmentedInputStream (List ℕ)
unfolding copy_segments
copy_bytes length s = copy_segments s.segments length 0 [] s

unfoldable pub read_bytes : ℕ → SegmentedInputStream → Out SegmentedInputStream (List ℕ)
read_bytes length s = copy_bytes (min s.size length) s

-- The result is the number of bytes skipped.
unfoldable pub skip_bytes : ℕ → SegmentedInputStream → Out SegmentedInputStream ℕ
skip_bytes length s =
    let bytes_skipped = min s.size length in
    (copy_bytes bytes_skipped >>= λ _ t. ok bytes_skipped t) s

-- The loop of `peekBytes` over the nodes, at an offset into the first.
unfoldable pub peek_segments : List (List ℕ) → ℕ → ℕ → ℕ → List ℕ → Out (Unit {0}) (List ℕ)
peek_segments [] offset length copied out = fault
peek_segments (node ∷ rest) offset length copied out =
    let bytes_to_copy = sub32 (Common.length node) offset in
    let next =
      peek_segments rest 0 length (add32 copied bytes_to_copy)
        (out ++ memcpy_from node offset bytes_to_copy) in
    if ltb (add32 copied bytes_to_copy) length
    then next
    else ok (out ++ memcpy_from node offset (sub32 length copied)) tt

unfoldable pub peek_bytes : ℕ → SegmentedInputStream → Out SegmentedInputStream (List ℕ)
unfolding peek_segments
peek_bytes length s = elim (peek_segments s.segments s.offset (min s.size length) 0 []) [
  | ok bytes _ ↦ ok bytes s
  | err e _ ↦ err e s
  | fault ↦ fault
]
