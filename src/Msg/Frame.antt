-- ===== src/Msg/Frame.antt =====
-- src/msg/msg_frame_writer.cpp, src/msg/msg_frame_reader.cpp: a frame carries one message or a batch, compressed
-- or not.
pub mod Flags
pub mod Delivery
pub mod Single
pub mod Many
use Prim.Native.Nat.{bit_or}
use commutil.Common
use commutil.Common.{
  ℕ, suc, zero, ◌+◌, ◌%◌, ◌≡◌, Bool, true, false, Option, none, some, List, [], ◌∷◌, ◌++◌, length,
  take, drop, replicate, ltb, ◌==◌, if◌then◌else◌, not, u32_mod,
}
use commutil.Err.{ErrorCode, e_nomem, e_data_corrupt, Out, ok, err, fault, ◌>>=◌, ◌>>◌, return}
use commutil.Io.Bytes.{ByteOrder}
use commutil.Io.FixedInput.{FixedInputStream}
use commutil.Msg.Header.{MsgHeader, flag_compressed, is_compressed, is_batch}
use commutil.Msg.Message.{Msg, Allocate, alloc_msg, payload_size_bytes}
use commutil.Msg.Batch.{
  MsgBufferArray, compute_payload_size, write_array, open_batch, read_batch_size, read_msg,
}

-- gzip-hpp, which the library calls: `none` stands for the exception that it throws.
pub record Gzip : Type 0 where
  pub compress : List ℕ → List ℕ
  pub decompress : List ℕ → Option (List ℕ)

-- inc/msg/msg_frame_listener.h and inc/msg/msg_stat_listener.h, for one connection: what the user's code does
-- with a call, on a state of its own.
pub record FrameListener (L : Type 0) : Type 0 where
  pub handle_msg : MsgHeader → List ℕ → Bool → ℕ → L → Out L (Unit {0})
  pub handle_msg_error : MsgHeader → ErrorCode → L → L
  pub on_recv_msg_stats : ℕ → ℕ → L → L

-- inc/msg/msg_writer.h: `write_msg` fills memory of the payload's size.
pub record MsgWriter : Type 0 where
  pub payload_size : ℕ
  pub batch_size : ℕ
  pub write_msg : List ℕ → Out (List ℕ) (Unit {0})

-- inc/msg/msg_buffer_array_writer.h
unfoldable pub array_writer : MsgBufferArray → ByteOrder → MsgWriter
array_writer buffers o = record {
  payload_size = compute_payload_size buffers;
  batch_size = length buffers % u32_mod;
  write_msg = λ payload. elim (write_array buffers o payload) [
    | ok _ os ↦ ok tt os.buffer
    | err e os ↦ err e os.buffer
    | fault ↦ fault
  ];
}

-- `memcpy(msg->modifyPayload(), bytes, len)`, past the frame's end if there are too many.
unfoldable pub fill_payload : List ℕ → Msg → Out (Unit {0}) Msg
fill_payload bytes m =
    if ltb (length m.payload) (length bytes)
    then fault
    else ok (record m { payload = bytes ++ drop (length bytes) m.payload }) tt

unfoldable pub set_uncompressed_length : ℕ → Msg → Msg
set_uncompressed_length n m = record m { header = record (m.header) { uncompressed_length = n } }

unfoldable pub set_batch_size : ℕ → Msg → Msg
set_batch_size n m = record m { header = record (m.header) { batch_size = n } }

-- `*msg = allocMsg(...)`, and E_NOMEM for a null.
unfoldable pub allocated : Out (Unit {0}) (Option Msg) → Out (Unit {0}) Msg
allocated (ok none u) = err e_nomem u
allocated (ok (some m) u) = ok m u
allocated (err e u) = err e u
allocated fault = fault

module _ (new : Allocate) where
  -- Allocation of a frame for some bytes, and their copy into the payload.
  unfoldable pub alloc_filled : ℕ → ℕ → List ℕ → Out (Unit {0}) Msg
  unfolding allocated fill_payload
  alloc_filled msg_id flags bytes =
      ((λ _. allocated (alloc_msg new msg_id flags 0 0 (length bytes % u32_mod))) >>= λ m _.
      fill_payload bytes m)
        tt

module _ (new : Allocate) (gzip : Gzip) where
  -- `prepareMsgFrame` over a body.
  unfoldable pub prepare_msg_frame : ℕ → List ℕ → Bool → ℕ → Out (Unit {0}) Msg
  unfolding set_uncompressed_length
  prepare_msg_frame msg_id body compress flags =
      let sent = if compress then gzip.compress body else body in
      let all_flags = if compress then bit_or flags flag_compressed else flags in
      ((λ _. alloc_filled new msg_id all_flags sent) >>= λ m.
      return (if compress then set_uncompressed_length (length body % u32_mod) m else m))
        tt

  -- The compressed and the plain branch of `prepareMsgFrame` over a writer.
  unfoldable pub prepare_compressed : ℕ → MsgWriter → ℕ → Out (Unit {0}) Msg
  unfolding set_uncompressed_length
  prepare_compressed msg_id w flags = elim (w.write_msg (replicate w.payload_size 0)) [
    | ok _ buf ↦
        let sent = gzip.compress buf in
        ((λ _. alloc_filled new msg_id (bit_or flags flag_compressed) sent) >>= λ m.
        return (set_uncompressed_length w.payload_size m))
          tt
    | err e _ ↦ err e tt
    | fault ↦ fault
  ]

  unfoldable pub prepare_plain : ℕ → MsgWriter → ℕ → Out (Unit {0}) Msg
  unfolding allocated
  prepare_plain msg_id w flags =
      ((λ _. allocated (alloc_msg new msg_id flags 0 0 w.payload_size)) >>= λ m u.
      elim (w.write_msg m.payload) [
        | ok _ payload ↦ ok (record m { payload = payload }) u
        | err e _ ↦ err e u
        | fault ↦ fault
      ])
        tt

  -- `prepareMsgFrame` over a writer, and `prepareMsgBatchFrame`.
  unfoldable pub prepare_msg_frame_by : ℕ → MsgWriter → Bool → ℕ → Out (Unit {0}) Msg
  unfolding prepare_compressed prepare_plain set_batch_size
  prepare_msg_frame_by msg_id w compress flags =
      ((λ _. if compress then prepare_compressed msg_id w flags else prepare_plain msg_id w flags)
          >>= λ m. return (set_batch_size w.batch_size m))
        tt

  unfoldable pub prepare_msg_batch_frame :
      ℕ → MsgBufferArray → ByteOrder → Bool → ℕ → Out (Unit {0}) Msg
  unfolding prepare_msg_frame_by array_writer
  prepare_msg_batch_frame msg_id buffers o compress flags =
      prepare_msg_frame_by msg_id (array_writer buffers o) compress flags

module _ {L : Type 0} (listener : FrameListener L) where
  open listener use {handle_msg, handle_msg_error, on_recv_msg_stats}

  -- The loop of `readMsgFrame` over a batch: the rounds left, and i. A message that is longer than
  -- the bytes behind the pointer is read past the buffer's end.
  unfoldable pub read_msgs : ℕ → ℕ → ℕ → MsgHeader → FixedInputStream → L → Out L (Unit {0})
  read_msgs zero i batch_size h is l = ok tt l
  read_msgs (suc rounds) i batch_size h is l = elim (read_msg is) [
    | ok (memory, length) rest ↦
        if ltb (Common.length memory) length
        then fault
        else (handle_msg h (take length memory) (i + 1 == batch_size) batch_size
              >> read_msgs rounds (i + 1) batch_size h rest)
            l
    | err rc _ ↦ err rc (handle_msg_error h rc l)
    | fault ↦ fault
  ]

  unfoldable pub read_batch : ByteOrder → MsgHeader → List ℕ → L → Out L (Unit {0})
  unfolding read_msgs
  read_batch o h buffer l = elim (read_batch_size (open_batch buffer o)) [
    | ok batch_size rest ↦
        if batch_size == h.batch_size
        then read_msgs batch_size 0 batch_size h rest l
        else err e_data_corrupt (handle_msg_error h e_data_corrupt l)
    | err rc _ ↦ err rc (handle_msg_error h rc l)
    | fault ↦ fault
  ]

  -- What follows decompression: a single message or a batch.
  unfoldable pub dispatch_frame : ByteOrder → MsgHeader → List ℕ → L → Out L (Unit {0})
  unfolding read_batch
  dispatch_frame o h buffer l =
      if is_batch h then read_batch o h buffer l else handle_msg h buffer true 1 l

  -- The compressed branch of `readMsgFrame`; the exception of the decompressor is not caught.
  unfoldable pub read_decompressed :
      ByteOrder → MsgHeader → List ℕ → Option (List ℕ) → L → Out L (Unit {0})
  unfolding dispatch_frame
  read_decompressed o h buffer none l = fault
  read_decompressed o h buffer (some payload) l =
      if length payload == h.uncompressed_length
      then dispatch_frame o h payload
          (on_recv_msg_stats (length buffer) (length payload % u32_mod) l)
      else err e_data_corrupt (handle_msg_error h e_data_corrupt l)

  unfoldable pub read_msg_frame : Gzip → ByteOrder → Msg → L → Out L (Unit {0})
  unfolding read_decompressed
  read_msg_frame gzip o m l =
      let buffer = take (payload_size_bytes m) m.payload in
      if is_compressed m.header
      then read_decompressed o m.header buffer (gzip.decompress buffer) l
      else dispatch_frame o m.header buffer (on_recv_msg_stats (length buffer) (length buffer) l)
