-- ===== src/Msg/Frame/Many.antt =====
-- src/msg/msg_frame_writer.cpp, lines 42-99, and src/msg/msg_frame_reader.cpp: a batch, from writer to reader.
use Prim.Native.Nat.{bit_and, bit_or}
use commutil.Common.{
  ℕ, ◌+◌, ◌%◌, ◌^◌, ◌<◌, ◌≡◌, refl, sym, ◌∙◌, Bool, true, false, some, List, arith, length,
  replicate, u32_mod, length-replicate,
}
use commutil.Err.{ok, ◌>>=◌}
use commutil.Io.Bytes.{ByteOrder}
use commutil.Msg.Header
use commutil.Msg.Header.{MsgHeader, header_size, flag_compressed, flag_batch, is_batch}
use commutil.Msg.Message.{Msg, Allocate}
use commutil.Msg.Batch.{MsgBufferArray, compute_payload_size}
use commutil.Msg.Batch.RoundTrip.{
  buffers_size, batch_bytes, write_array_lem, compute_payload_size_lem, length-batch_bytes,
  length-le-buffers_size,
}
use commutil.Msg.Frame.{
  Gzip, FrameListener, array_writer, prepare_compressed, prepare_plain, prepare_msg_frame_by,
  prepare_msg_batch_frame, dispatch_frame, read_msg_frame, set_batch_size, set_uncompressed_length,
}
use commutil.Msg.Frame.Flags.{IsPlain, mark_compressed}
use commutil.Msg.Frame.Delivery.{EndsNonempty, deliver, read_batch_lem}
use commutil.Msg.Frame.Single.{
  Gives, frame, allocated_lem, filled_lem, read_plain, read_packed, sent_bytes,
}

module _ (new : Allocate) (gzip : Gzip) (o : ByteOrder) (bs : MsgBufferArray)
    (size : 4 + buffers_size bs < u32_mod) where
  body : List ℕ
  body = batch_bytes o bs

  sized : compute_payload_size bs ≡ length (batch_bytes o bs)
  sized = compute_payload_size_lem o bs size

  prepare_plain_lem :
      (msg_id flags : ℕ)
      → header_size + length (batch_bytes o bs) < u32_mod
      → Gives new (header_size + length (batch_bytes o bs))
      → prepare_plain new gzip msg_id (array_writer bs o) flags
        ≡ ok (frame msg_id flags (batch_bytes o bs)) tt
  unfolding prepare_plain array_writer
  prepare_plain_lem msg_id flags h gives =
      let (payload, long, run) =
        allocated_lem new msg_id flags (length (batch_bytes o bs)) h gives in
      let (t, wrote, filled) = write_array_lem bs o payload size (long ∙ sym sized) in
      rw (sized, run, ◌>>=◌, wrote, filled)

  prepare_compressed_lem :
      (msg_id flags : ℕ)
      → header_size + length (gzip.compress (batch_bytes o bs)) < u32_mod
      → Gives new (header_size + length (gzip.compress (batch_bytes o bs)))
      → prepare_compressed new gzip msg_id (array_writer bs o) flags
        ≡ ok
            (set_uncompressed_length
              (length (batch_bytes o bs))
              (frame msg_id (bit_or flags flag_compressed) (gzip.compress (batch_bytes o bs))))
            tt
  unfolding prepare_compressed array_writer
  prepare_compressed_lem msg_id flags h gives =
      let (t, wrote, filled) =
        write_array_lem bs o (replicate (compute_payload_size bs) 0) size (length-replicate _ 0) in
      rw (
        wrote,
        prepare_compressed,
        filled,
        filled_lem new msg_id (bit_or flags flag_compressed) _ h gives,
        ◌>>=◌,
        sized,
      )

-- The frame that carries a batch.
abbrev pub batch_frame : Gzip → ByteOrder → MsgBufferArray → ℕ → ℕ → Bool → Msg
batch_frame gzip o bs msg_id flags false =
    set_batch_size (length bs) (frame msg_id flags (batch_bytes o bs))
batch_frame gzip o bs msg_id flags true = set_batch_size (length bs) (
    set_uncompressed_length (length (batch_bytes o bs))
      (frame msg_id (bit_or flags flag_compressed) (gzip.compress (batch_bytes o bs))))

prepare_batch_lem :
    (new : Allocate) (gzip : Gzip) (o : ByteOrder) (bs : MsgBufferArray) (msg_id flags : ℕ)
    (compress : Bool)
    → 4 + buffers_size bs < u32_mod
    → header_size + length (sent_bytes gzip compress (batch_bytes o bs)) < u32_mod
    → Gives new (header_size + length (sent_bytes gzip compress (batch_bytes o bs)))
    → prepare_msg_batch_frame new gzip msg_id bs o compress flags
      ≡ ok (batch_frame gzip o bs msg_id flags compress) tt
unfolding prepare_msg_batch_frame prepare_msg_frame_by array_writer
prepare_batch_lem new gzip o bs msg_id flags false size h gives =
    rw (prepare_plain_lem new gzip o bs size msg_id flags h gives, ◌>>=◌, count)
  where
    count : length bs % u32_mod ≡ length bs
    count = omega (arith, length-le-buffers_size bs)
prepare_batch_lem new gzip o bs msg_id flags true size h gives =
    rw (prepare_compressed_lem new gzip o bs size msg_id flags h gives, ◌>>=◌, count)
  where
    count : length bs % u32_mod ≡ length bs
    count = omega (arith, length-le-buffers_size bs)

dispatch_batch :
    {L : Type 0} (listener : FrameListener L) (o : ByteOrder) (m : Msg) (bs : MsgBufferArray)
    (l : L)
    → bit_and m.header.flags flag_batch ≡ 2
    → m.header.batch_size ≡ length bs
    → EndsNonempty bs
    → 4 + buffers_size bs < u32_mod
    → dispatch_frame listener o m.header (batch_bytes o bs) l
      ≡ deliver listener m.header (length bs) bs l
unfolding dispatch_frame is_batch
dispatch_batch listener o m bs l batch count ends size =
    rw batch (read_batch_lem listener o m.header bs l count ends size)

-- A batch that is prepared for sending, compressed or not, reaches the listener at the other end as
-- the same messages in the same order, each once and the last one marked, up to the first that the
-- listener refuses. This holds for flags of 16 bits that ask for a batch and not for compression,
-- for sizes that fit in 32 bits and a last message that is not empty, where memory for the frame is
-- to be had and the decompressor inverts the compressor on the batch.
pub read_msg_frame-prepare_msg_batch_frame :
    {L : Type 0} (listener : FrameListener L) (new : Allocate) (gzip : Gzip) (o : ByteOrder)
    (msg_id flags : ℕ) (bs : MsgBufferArray) (compress : Bool) (l : L)
    → flags < 2 ^ 16
    → IsPlain flags
    → bit_and flags flag_batch ≡ 2
    → EndsNonempty bs
    → 4 + buffers_size bs < u32_mod
    → header_size + length (sent_bytes gzip compress (batch_bytes o bs)) < u32_mod
    → Gives new (header_size + length (sent_bytes gzip compress (batch_bytes o bs)))
    → gzip.decompress (gzip.compress (batch_bytes o bs)) ≡ some (batch_bytes o bs)
    → (m : Msg) × (prepare_msg_batch_frame new gzip msg_id bs o compress flags ≡ ok m tt)
      × (read_msg_frame listener gzip o m l
          ≡ deliver listener m.header (length bs) bs (
              listener.on_recv_msg_stats
                (length (sent_bytes gzip compress (batch_bytes o bs)))
                (length (batch_bytes o bs))
                l))
unfolding Header.make set_batch_size set_uncompressed_length
read_msg_frame-prepare_msg_batch_frame listener new gzip o msg_id flags bs false l w plain batch
      ends size h gives back =
    let m = batch_frame gzip o bs msg_id flags false in
    (
      m,
      prepare_batch_lem new gzip o bs msg_id flags false size h gives,
      read_plain listener gzip o m (batch_bytes o bs) l plain refl refl h
          ∙ dispatch_batch listener o m bs _ batch refl ends size,
    )
read_msg_frame-prepare_msg_batch_frame listener new gzip o msg_id flags bs true l w plain batch ends
      size h gives back =
    let m = batch_frame gzip o bs msg_id flags true in
    let marked = mark_compressed flags w in
    (
      m,
      prepare_batch_lem new gzip o bs msg_id flags true size h gives,
      read_packed listener gzip o m (gzip.compress (batch_bytes o bs)) (batch_bytes o bs) l marked.0
            refl refl h back refl (omega (arith, length-batch_bytes o bs))
          ∙ dispatch_batch listener o m bs _ (marked.1 ∙ batch) refl ends size,
    )
