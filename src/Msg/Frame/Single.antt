-- ===== src/Msg/Frame/Single.antt =====
-- src/msg/msg_frame_writer.cpp, lines 14-40, and src/msg/msg_frame_reader.cpp: one message, from writer to reader.
use Prim.Native.Nat.{bit_and, bit_or}
use commutil.Common.{
  ℕ, ◌+◌, ◌%◌, ◌^◌, ◌<◌, ◌≡◌, refl, ap, ◌∙◌, Bool, true, false, some, List, append-nil, arith,
  length, take, drop, u32_mod, sub32, add32, ◌==◌, if◌then◌else◌, le→ltb, take_all, drop_all,
  length-drop,
}
use commutil.Err.{ok, ◌>>=◌}
use commutil.Io.Bytes.{ByteOrder}
use commutil.Msg.Header
use commutil.Msg.Header.{
  MsgHeader, header_size, flag_compressed, flag_batch, is_compressed, is_batch,
}
use commutil.Msg.Message.{Msg, Allocate, alloc_msg, payload_size_bytes}
use commutil.Msg.Frame.{
  Gzip, FrameListener, alloc_filled, allocated, prepare_msg_frame, dispatch_frame,
  read_decompressed, read_msg_frame, set_uncompressed_length,
}
use commutil.Msg.Frame.Flags.{IsPlain, mark_compressed}

-- Memory for a frame of n bytes is to be had.
abbrev pub Gives : Allocate → ℕ → Type 0
Gives new n = (memory : List ℕ) × (new n ≡ some memory) × (length memory ≡ n)

-- A frame with this payload, as `allocMsg` and the copy of the payload leave it.
abbrev pub frame : ℕ → ℕ → List ℕ → Msg
frame msg_id flags payload = record {
  header = Header.make (header_size + length payload) msg_id flags 0 0;
  payload = payload;
}

module _ (new : Allocate) (msg_id flags : ℕ) where
  -- Allocation gives a frame whose payload has the size asked for.
  pub allocated_lem :
      (n : ℕ)
      → header_size + n < u32_mod
      → Gives new (header_size + n)
      → (payload : List ℕ) × (length payload ≡ n)
        × (allocated (alloc_msg new msg_id flags 0 0 n)
            ≡ ok
                (record {
                  header = Header.make (header_size + n) msg_id flags 0 0;
                  payload = payload;
                })
                tt)
  unfolding alloc_msg allocated
  allocated_lem n h (memory, got, size) = (
    drop header_size memory,
    omega (arith, length-drop header_size memory),
    rw (ap new whole ∙ got, alloc_msg, whole, le→ltb (header_size + n) header_size (omega arith)),
  )
    where
      whole : add32 header_size n ≡ header_size + n
      whole = omega arith

  -- Allocation for some bytes and the copy of these into the payload.
  pub filled_lem :
      (sent : List ℕ)
      → header_size + length sent < u32_mod
      → Gives new (header_size + length sent)
      → alloc_filled new msg_id flags sent ≡ ok (frame msg_id flags sent) tt
  unfolding alloc_filled
  filled_lem sent h gives =
      let (payload, size, run) = allocated_lem (length sent) h gives in
      rw (
        whole,
        run,
        ◌>>=◌,
        le→ltb (length payload) (length sent) (omega arith),
        drop_all (length sent) payload (omega arith),
        append-nil,
      )
    where
      whole : length sent % u32_mod ≡ length sent
      whole = omega arith

-- The payload of a prepared frame is read whole.
frame_payload :
    (m : Msg) (bytes : List ℕ)
    → m.payload ≡ bytes
    → m.header.length ≡ header_size + length bytes
    → header_size + length bytes < u32_mod
    → take (payload_size_bytes m) m.payload ≡ bytes
unfolding payload_size_bytes
frame_payload m bytes e size h =
    ap (take (sub32 m.header.length header_size)) e
    ∙ take_all (sub32 m.header.length header_size) bytes (omega arith)

module _ {L : Type 0} (listener : FrameListener L) (gzip : Gzip) (o : ByteOrder) where
  open listener use {on_recv_msg_stats}

  -- A frame without the flag of compression goes to dispatch with its payload.
  pub read_plain :
      (m : Msg) (bytes : List ℕ) (l : L)
      → bit_and m.header.flags flag_compressed ≡ 0
      → m.payload ≡ bytes
      → m.header.length ≡ header_size + length bytes
      → header_size + length bytes < u32_mod
      → read_msg_frame listener gzip o m l
        ≡ dispatch_frame listener o m.header bytes
            (on_recv_msg_stats (length bytes) (length bytes) l)
  unfolding read_msg_frame is_compressed
  read_plain m bytes l plain e size h = rw (plain, frame_payload m bytes e size h)

  -- One with the flag goes there with what the payload is decompressed to, if the length is right.
  pub read_packed :
      (m : Msg) (bytes body : List ℕ) (l : L)
      → bit_and m.header.flags flag_compressed ≡ 1
      → m.payload ≡ bytes
      → m.header.length ≡ header_size + length bytes
      → header_size + length bytes < u32_mod
      → gzip.decompress bytes ≡ some body
      → m.header.uncompressed_length ≡ length body
      → length body < u32_mod
      → read_msg_frame listener gzip o m l
        ≡ dispatch_frame listener o m.header body (on_recv_msg_stats (length bytes) (length body) l)
  unfolding read_msg_frame is_compressed
  read_packed m bytes body l packed e size h back long word = rw (
    packed,
    frame_payload m bytes e size h,
    back,
    read_decompressed,
    same,
    whole,
    frame_payload m bytes e size h,
  )
    where
      same : (length body == m.header.uncompressed_length) ≡ true
      same = ground arith

      whole : length body % u32_mod ≡ length body
      whole = omega arith

-- What goes over the wire for a body.
abbrev pub sent_bytes : Gzip → Bool → List ℕ → List ℕ
sent_bytes gzip compress body = if compress then gzip.compress body else body

single_frame :
    {L : Type 0} (listener : FrameListener L) (o : ByteOrder) (m : Msg) (body : List ℕ) (l : L)
    → bit_and m.header.flags flag_batch ≡ 0
    → dispatch_frame listener o m.header body l ≡ listener.handle_msg m.header body true 1 l
unfolding dispatch_frame is_batch
single_frame listener o m body l e = rw e

-- A body that is prepared for sending, compressed or not, reaches the listener at the other end as
-- the same bytes, once, as the last message of one, after the statistics of its two sizes. This
-- holds for flags of 16 bits that ask for neither compression nor a batch, for sizes that fit in 32
-- bits, where memory for the frame is to be had and the decompressor inverts the compressor on the
-- body.
pub read_msg_frame-prepare_msg_frame :
    {L : Type 0} (listener : FrameListener L) (new : Allocate) (gzip : Gzip) (o : ByteOrder)
    (msg_id flags : ℕ) (body : List ℕ) (compress : Bool) (l : L)
    → flags < 2 ^ 16
    → IsPlain flags
    → bit_and flags flag_batch ≡ 0
    → length body < u32_mod
    → header_size + length (sent_bytes gzip compress body) < u32_mod
    → Gives new (header_size + length (sent_bytes gzip compress body))
    → gzip.decompress (gzip.compress body) ≡ some body
    → (m : Msg) × (prepare_msg_frame new gzip msg_id body compress flags ≡ ok m tt)
      × (read_msg_frame listener gzip o m l
          ≡ listener.handle_msg m.header body true 1
              (listener.on_recv_msg_stats (length (sent_bytes gzip compress body)) (length body) l))
unfolding prepare_msg_frame Header.make
read_msg_frame-prepare_msg_frame listener new gzip o msg_id flags body false l w plain one word h
      gives back =
    (
      frame msg_id flags body,
      rw (filled_lem new msg_id flags body h gives, ◌>>=◌),
      read_plain listener gzip o (frame msg_id flags body) body l plain refl refl h
          ∙ single_frame listener o (frame msg_id flags body) body _ one,
    )
read_msg_frame-prepare_msg_frame listener new gzip o msg_id flags body true l w plain one word h
      gives back =
    (
      packed,
      rw (
        filled_lem new msg_id (bit_or flags flag_compressed) (gzip.compress body) h gives,
        ◌>>=◌,
        whole,
      ),
      read_packed listener gzip o packed (gzip.compress body) body l (mark_compressed flags w).0
            refl refl h back refl word
          ∙ single_frame listener o packed body _ ((mark_compressed flags w).1 ∙ one),
    )
  where
    packed : Msg
    packed =
        set_uncompressed_length (length body)
          (frame msg_id (bit_or flags flag_compressed) (gzip.compress body))

    whole : length body % u32_mod ≡ length body
    whole = omega arith
