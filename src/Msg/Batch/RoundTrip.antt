-- ===== src/Msg/Batch/RoundTrip.antt =====
-- inc/msg/msg_batch_writer.h and inc/msg/msg_batch_reader.h: the bytes of a batch, written and read.
use commutil.Common.{
  ℕ, ◌+◌, ◌%◌, ◌^◌, ◌≤◌, ◌<◌, min, ◌≡◌, refl, sym, ap, ◌∙◌, List, [], ◌∷◌, ◌++◌, append_assoc,
  arith, length, drop, u32_mod, add32, length-append, take_all, drop_prefix,
}
use commutil.Err.{ok, err, e_end_of_stream, ◌>>=◌}
use commutil.Io.Bytes.{ByteOrder, length-le_bytes}
use commutil.Io.FixedOutput
use commutil.Io.FixedOutput.{FixedOutputStream, room, Wrote, written}
use commutil.Io.FixedInput
use commutil.Io.FixedInput.{
  FixedInputStream, fixed_input, skip_bytes_lem, contents, after, after-IsValid, contents-after,
  at_end_of_stream,
}
use commutil.Io.Stream.{Leaves}
use commutil.Io.Serializable.{serialize_uint, serialize_buffer}
use commutil.Io.Serializable.Writer.{
  uint_bytes, buffer_bytes, Writes, Writes-uint, Writes-buffer, Writes-then, Writes-nothing,
}
use commutil.Io.Serializable.Reader.{Reads-uint}
use commutil.Msg.Batch.{
  MsgBufferArray, add_sizes, compute_payload_size, write_buffers, write_batch, write_array,
  read_msg,
}

abbrev pub buffers_bytes : ByteOrder → MsgBufferArray → List ℕ
buffers_bytes o [] = []
buffers_bytes o (buffer ∷ buffers) = buffer_bytes o buffer ++ buffers_bytes o buffers

-- The batch as it goes over the wire: the count, and each message behind its length.
abbrev pub batch_bytes : ByteOrder → MsgBufferArray → List ℕ
batch_bytes o buffers = uint_bytes o 4 (length buffers) ++ buffers_bytes o buffers

-- The bytes of the messages, and of the length before each.
abbrev pub buffers_size : MsgBufferArray → ℕ
buffers_size [] = 0
buffers_size (buffer ∷ buffers) = 4 + length buffer + buffers_size buffers

pub length-buffers_bytes :
    (o : ByteOrder) (bs : MsgBufferArray) → length (buffers_bytes o bs) ≡ buffers_size bs
length-buffers_bytes o [] = refl
length-buffers_bytes o (b ∷ bs) = omega (
  arith,
  length-append (buffer_bytes o b) (buffers_bytes o bs),
  length-append (uint_bytes o 4 (length b)) b,
  length-le_bytes,
  length-buffers_bytes o bs,
)

pub length-le-buffers_size : (bs : MsgBufferArray) → length bs ≤ buffers_size bs
length-le-buffers_size [] = omega arith
length-le-buffers_size (b ∷ bs) = omega (arith, length-le-buffers_size bs)

add_sizes_lem :
    (n : ℕ) (bs : MsgBufferArray)
    → n + buffers_size bs < u32_mod
    → add_sizes n bs ≡ n + buffers_size bs
unfolding add_sizes
add_sizes_lem n [] h = omega arith
add_sizes_lem n (b ∷ bs) h =
    add_sizes_lem (add32 (add32 n 4) (length b % u32_mod)) bs (omega arith) ∙ omega arith

-- The size computed for a batch is that of its bytes, as long as it fits in 32 bits.
pub compute_payload_size_lem :
    (o : ByteOrder) (bs : MsgBufferArray)
    → 4 + buffers_size bs < u32_mod
    → compute_payload_size bs ≡ length (batch_bytes o bs)
unfolding compute_payload_size
compute_payload_size_lem o bs h =
    add_sizes_lem 4 bs h
    ∙ omega (
      arith,
      length-append (uint_bytes o 4 (length bs)) (buffers_bytes o bs),
      length-le_bytes,
      length-buffers_bytes o bs,
    )

Writes-buffers :
    (o : ByteOrder) (bs : MsgBufferArray)
    → buffers_size bs < u32_mod
    → Writes o (buffers_bytes o bs) (write_buffers bs)
unfolding write_buffers
Writes-buffers o [] h = Writes-nothing o
Writes-buffers o (b ∷ bs) h =
    Writes-then o (buffer_bytes o b) (buffers_bytes o bs) (serialize_buffer b) (write_buffers bs)
      (Writes-buffer o b (omega arith)) (Writes-buffers o bs (omega arith))

pub Writes-batch :
    (o : ByteOrder) (bs : MsgBufferArray)
    → 4 + buffers_size bs < u32_mod
    → Writes o (batch_bytes o bs) (write_batch bs)
unfolding write_batch
Writes-batch o bs h = rw count (
    Writes-then o (uint_bytes o 4 (length bs)) (buffers_bytes o bs) (serialize_uint 4 (length bs))
      (write_buffers bs) (Writes-uint o 4 (length bs)) (Writes-buffers o bs (omega arith)))
  where
    count : length bs % u32_mod ≡ length bs
    count = omega (arith, length-le-buffers_size bs)

pub length-batch_bytes :
    (o : ByteOrder) (bs : MsgBufferArray) → length (batch_bytes o bs) ≡ 4 + buffers_size bs
length-batch_bytes o bs = omega (
  arith,
  length-append (uint_bytes o 4 (length bs)) (buffers_bytes o bs),
  length-le_bytes,
  length-buffers_bytes o bs,
)

fresh-IsValid :
    (payload : List ℕ) (n : ℕ) (o : ByteOrder)
    → length payload ≡ n
    → n < u32_mod
    → FixedOutput.IsValid (FixedOutput.make_over payload n o)
unfolding FixedOutput.make_over
fresh-IsValid payload n o e h = record { whole = e; within = omega arith; small = h }

-- A fresh stream that was filled to its last byte holds what was written and nothing else.
fresh_filled :
    (payload bytes : List ℕ) (n : ℕ) (o : ByteOrder) (t : FixedOutputStream)
    → length bytes ≡ n
    → Wrote (FixedOutput.make_over payload n o) bytes t
    → t.buffer ≡ bytes
unfolding FixedOutput.make_over written
fresh_filled payload bytes n o t e w =
    sym (take_all t.offset t.buffer (omega (arith, w.valid.whole, w.same_size, w.room_left)))
    ∙ w.bytes_added

fresh_room :
    (payload : List ℕ) (n : ℕ) (o : ByteOrder) → room (FixedOutput.make_over payload n o) ≡ n
unfolding FixedOutput.make_over
fresh_room payload n o = omega arith

fresh_order :
    (payload : List ℕ) (n : ℕ) (o : ByteOrder) → (FixedOutput.make_over payload n o).byte_order ≡ o
unfolding FixedOutput.make_over
fresh_order payload n o = refl

-- A payload of the size that was computed for the batch takes it whole: the array writer fills the
-- payload with the bytes of the batch and nothing else.
pub write_array_lem :
    (bs : MsgBufferArray) (o : ByteOrder) (payload : List ℕ)
    → 4 + buffers_size bs < u32_mod
    → length payload ≡ compute_payload_size bs
    → (t : FixedOutputStream) × (write_array bs o payload ≡ ok tt t) × (t.buffer ≡ batch_bytes o bs)
unfolding write_array
write_array_lem bs o payload h e =
    let (t, run, wrote) =
      (Writes-batch o bs h).fits (FixedOutput.make_over payload (compute_payload_size bs) o)
        (fresh-IsValid payload _ o e (omega (arith, size, length-batch_bytes o bs)))
        (fresh_order payload _ o)
        (omega (arith, size, fresh_room payload (compute_payload_size bs) o)) in
    (t, run, fresh_filled payload (batch_bytes o bs) (compute_payload_size bs) o t (sym size) wrote)
  where
    size : compute_payload_size bs ≡ length (batch_bytes o bs)
    size = compute_payload_size_lem o bs h

-- Reading the next message takes it off the stream and points at it, if there is a byte in the
-- message or behind it.
pub read_msg_lem :
    (b rest : List ℕ) (s : FixedInputStream)
    → FixedInput.IsValid s
    → length b < 256 ^ 4
    → 0 < length b + length rest
    → contents s ≡ buffer_bytes s.byte_order b ++ rest
    → (t : FixedInputStream) × (read_msg s ≡ ok (b ++ rest, length b) t) × Leaves s rest t
unfolding read_msg
read_msg_lem b rest s v h some c =
    let (t, run, (valid, left, same)) =
      Reads-uint s.byte_order 4 (length b) (omega arith) h s (b ++ rest) v refl
        (c ∙ append_assoc (uint_bytes s.byte_order 4 (length b)) b rest) in
    let all : min (length b) (length (contents t)) ≡ length b =
      omega (arith, ap length left, length-append b rest) in
    let skipped =
      rw all at
        (skip_bytes_lem (length b) t valid (omega (arith, ap length left, length-append b rest))) in
    (
      after (length b) t,
      rw (run, ◌>>=◌, skipped) (ap (λ m. ok (m, length b) (after (length b) t)) (pointed t ∙ left)),
      (
        after-IsValid (length b) t valid (omega (arith, ap length left, length-append b rest)),
        contents-after (length b) t
            ∙ ap (drop (length b)) left
            ∙ drop_prefix (length b) b rest refl,
        same,
      ),
    )
  where
    pointed : (t : FixedInputStream) → drop t.offset t.buffer ≡ contents t
    pointed t = unfold contents in refl

-- An empty message at the end of the buffer is not read: the skip of no byte finds the end of the
-- stream.
pub read_msg_last_empty :
    (s : FixedInputStream)
    → FixedInput.IsValid s
    → contents s ≡ buffer_bytes s.byte_order []
    → (t : FixedInputStream) × (read_msg s ≡ err e_end_of_stream t)
unfolding read_msg
read_msg_last_empty s v c =
    let (t, run, (valid, left, same)) =
      Reads-uint s.byte_order 4 0 (omega arith) (omega arith) s [] v refl c in
    let (_, _, ended) = at_end_of_stream 0 t valid left in (t, rw (run, ◌>>=◌, ended))
