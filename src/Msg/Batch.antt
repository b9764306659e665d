-- ===== src/Msg/Batch.antt =====
-- inc/msg/msg_batch_writer.h, src/msg/msg_batch_writer.cpp, inc/msg/msg_batch_reader.h and
-- inc/msg/msg_buffer_array_writer.h: several messages in the payload of one frame.
pub mod RoundTrip
use commutil.Common.{
  ℕ, ◌+◌, ◌%◌, ◌≡◌, Bool, true, List, [], ◌∷◌, length, take, drop, add32, u32_mod,
}
use commutil.Err.{ErrorCode, Out, ok, err, fault, ◌>>=◌, ◌>>◌, return}
use commutil.Io.Bytes.{ByteOrder}
use commutil.Io.FixedOutput
use commutil.Io.FixedOutput.{FixedOutputStream}
use commutil.Io.FixedInput
use commutil.Io.FixedInput.{FixedInputStream, fixed_input}
use commutil.Io.Serializable.{serialize_uint, serialize_buffer, deserialize_uint}

-- MsgBuffer and MsgBufferArray.
abbrev pub MsgBufferArray : Type 0
MsgBufferArray = List (List ℕ)

-- `MsgBatchWriter::computePayloadSize`: the loop adds up in 32 bits.
unfoldable pub add_sizes : ℕ → MsgBufferArray → ℕ
add_sizes payload_size [] = payload_size
add_sizes payload_size (buffer ∷ buffers) =
    add_sizes (add32 (add32 payload_size 4) (length buffer % u32_mod)) buffers

unfoldable pub compute_payload_size : MsgBufferArray → ℕ
unfolding add_sizes
compute_payload_size buffers = add_sizes 4 buffers

-- `MsgBatchWriter::beginBatch` and `writeMsg`.
unfoldable pub begin_batch : ℕ → FixedOutputStream → Out FixedOutputStream (Unit {0})
begin_batch batch_size = serialize_uint 4 batch_size

unfoldable pub write_msg : List ℕ → FixedOutputStream → Out FixedOutputStream (Unit {0})
write_msg buffer = serialize_buffer buffer

-- The loop of `MsgBatchWriter::writeBatch`, and the whole.
unfoldable pub write_buffers : MsgBufferArray → FixedOutputStream → Out FixedOutputStream (Unit {0})
write_buffers [] = return tt
write_buffers (buffer ∷ buffers) = serialize_buffer buffer >> write_buffers buffers

unfoldable pub write_batch : MsgBufferArray → FixedOutputStream → Out FixedOutputStream (Unit {0})
unfolding write_buffers
write_batch buffers = serialize_uint 4 (length buffers % u32_mod) >> write_buffers buffers

-- `MsgBufferArrayWriter::writeMsg`, into memory of the payload's size.
unfoldable pub write_array : MsgBufferArray → ByteOrder → List ℕ → Out FixedOutputStream (Unit {0})
unfolding compute_payload_size
write_array buffers o payload =
    write_batch buffers (FixedOutput.make_over payload (compute_payload_size buffers) o)

-- `MsgBatchReader` over a buffer of the caller's.
unfoldable pub open_batch : List ℕ → ByteOrder → FixedInputStream
unfolding FixedInput.make
open_batch buffer o = FixedInput.make buffer (length buffer) true o

unfoldable pub read_batch_size : FixedInputStream → Out FixedInputStream ℕ
read_batch_size = deserialize_uint 4

-- `MsgBatchReader::readMsg` returns a pointer into the buffer, as the memory from there to the end of
-- the buffer, and the length that the stream states, also where fewer bytes follow it.
unfoldable pub read_msg : FixedInputStream → Out FixedInputStream (List ℕ × ℕ)
read_msg = do
  length ← deserialize_uint 4
  λ s. (FixedInput.skip_bytes length >>= λ _. return (drop s.offset s.buffer, length)) s
