-- ===== src/Tests/Messages.antt =====
-- Frames with small payloads, for inc/msg and src/msg.
use commutil.Common.{
  ℕ, ◌+◌, ◌<◌, ◌≡◌, refl, Bool, true, Option, some, none, List, [], ◌∷◌, ◌++◌, arith, length,
  replicate, length-replicate, u32_mod,
}
use commutil.Err.{Out, ok, err, e_data_corrupt, e_end_of_stream}
use commutil.Io.Bytes.{host_order, network_order, le_bytes, le_value, hton}
use commutil.Io.Stream.{Leaves}
use commutil.Io.FixedOutput.{FixedOutputStream, written, write_bytes}
use commutil.Io.FixedInput
use commutil.Io.FixedInput.{FixedInputStream, fixed_input}
use commutil.Io.Serializable.{to_order, serialize_uint, serialize_data}
use commutil.Io.Serializable.Writer.{buffer_bytes}
use commutil.Msg.Header
use commutil.Msg.Header.{MsgHeader, msg_magic, header_size, of_memory}
use commutil.Msg.Header.Codec.{HasWidths, header_bytes, deserialize-serialize}
use commutil.Msg.Header.Flat.{to_host, to_host-of_memory}
use commutil.Msg.Message.{Msg, Allocate}
use commutil.Msg.Batch.{MsgBufferArray, add_sizes, compute_payload_size, write_array, read_msg}
use commutil.Msg.Batch.RoundTrip.{
  batch_bytes, buffers_size, length-batch_bytes, compute_payload_size_lem, write_array_lem,
  read_msg_lem, read_msg_last_empty,
}
use commutil.Msg.Frame.{
  Gzip, FrameListener, prepare_msg_frame, prepare_msg_batch_frame, read_msg_frame, read_batch,
}
use commutil.Msg.Frame.Many.{read_msg_frame-prepare_msg_batch_frame}
use commutil.Msg.Frame.Delivery.{deliver, read_batch_lem, read_batch_miscounted}
use commutil.Msg.Frame.Single.{sent_bytes, read_msg_frame-prepare_msg_frame}

abbrev hello : MsgHeader
hello = record {
  magic = msg_magic;
  length = 43;
  msg_id = 7;
  flags = 0;
  request_id = 5;
  request_index = 1;
  uncompressed_length = 0;
  batch_size = 1;
  reserved = 0;
}

hello-HasWidths : HasWidths hello
hello-HasWidths = record {
  magic = refl;
  length_32 = omega arith;
  msg_id_16 = omega arith;
  flags_16 = omega arith;
  request_id_64 = omega arith;
  request_index_32 = omega arith;
  uncompressed_length_32 = omega arith;
  batch_size_32 = omega arith;
  reserved_32 = omega arith;
}

to_host-of_memory_example :
    to_host network_order (of_memory (header_bytes network_order hello)) ≡ hello
to_host-of_memory_example = to_host-of_memory network_order hello hello-HasWidths

-- The header's forty bytes in network order.
abbrev sent : List ℕ
sent =
    msg_magic
    ++ 0 ∷ 0 ∷ 0 ∷ 43 ∷ 0 ∷ 7 ∷ 0 ∷ 0 ∷ 0 ∷ 0 ∷ 0 ∷ 0 ∷ 0 ∷ 0 ∷ 0 ∷ 5 ∷ 0 ∷ 0 ∷ 0 ∷ 1 ∷ 0 ∷ 0 ∷ 0
      ∷ 0 ∷ 0 ∷ 0 ∷ 0 ∷ 1 ∷ 0 ∷ 0 ∷ 0 ∷ 0 ∷ []

abbrev empty40 : FixedOutputStream
empty40 = record {
  buffer = replicate 40 0;
  buffer_size = 40;
  offset = 0;
  byte_order = network_order;
}

abbrev full40 : FixedOutputStream
full40 = record { buffer = sent; buffer_size = 40; offset = 40; byte_order = network_order }

abbrev incoming : FixedInputStream
incoming = record { buffer = sent ++ 9 ∷ []; size = 41; offset = 0; byte_order = network_order }

runs : Header.serialize hello empty40 ≡ ok tt full40
unfolding Header.serialize serialize_uint serialize_data to_order hton le_bytes le_value write_bytes
runs = refl

nothing : written empty40 ≡ []
unfolding written
nothing = refl

arrived : FixedInput.contents incoming ≡ written full40 ++ 9 ∷ []
unfolding written FixedInput.contents
arrived = refl

deserialize-serialize_example :
    (t : FixedInputStream) × (Header.deserialize incoming ≡ ok hello t) × Leaves incoming (9 ∷ []) t
deserialize-serialize_example =
    deserialize-serialize hello empty40 full40 incoming (9 ∷ []) hello-HasWidths
      (record { whole = refl; within = omega arith; small = omega arith }) nothing runs
      (record { whole = refl; within = omega arith; small = omega arith }) refl arrived

-- An allocator that has memory for every frame, and a compressor that only marks its output.
abbrev plenty : Allocate
plenty n = some (replicate n 255)

abbrev unmark : List ℕ → Option (List ℕ)
unmark [] = none
unmark (b ∷ bs) = some bs

abbrev marker : Gzip
marker = record { compress = λ bs. 31 ∷ bs; decompress = unmark }

-- What a listener heard.
abbrev log_msg : MsgHeader → List ℕ → Bool → ℕ → List (List ℕ) → Out (List (List ℕ)) (Unit {0})
log_msg h bytes last n log = ok tt (log ++ bytes ∷ [])

abbrev logger : FrameListener (List (List ℕ))
logger = record {
  handle_msg = log_msg;
  handle_msg_error = λ h e log. log ++ (0 ∷ []) ∷ [];
  on_recv_msg_stats = λ n k log. log ++ (n ∷ k ∷ []) ∷ [];
}

abbrev body : List ℕ
body = 4 ∷ 5 ∷ 6 ∷ []

read_msg_frame-prepare_msg_frame_example :
    (m : Msg) × (prepare_msg_frame plenty marker 7 body true 4 ≡ ok m tt)
    × (read_msg_frame logger marker network_order m []
        ≡ log_msg m.header body true 1 ((4 ∷ 3 ∷ []) ∷ []))
read_msg_frame-prepare_msg_frame_example =
    read_msg_frame-prepare_msg_frame logger plenty marker network_order 7 4 body true []
      (omega arith) refl refl (omega arith) (omega arith)
      (replicate 44 255, refl, length-replicate {A = ℕ} 44 255) refl

abbrev batch : MsgBufferArray
batch = body ∷ [] ∷ (9 ∷ []) ∷ []

batch-fits : 4 + buffers_size batch < u32_mod
batch-fits = omega arith

compute_payload_size_lem_example :
    compute_payload_size batch ≡ length (batch_bytes host_order batch)
compute_payload_size_lem_example = compute_payload_size_lem host_order batch batch-fits

abbrev ones : List ℕ
ones = replicate 20 1

payload_sized : length ones ≡ compute_payload_size batch
unfolding compute_payload_size add_sizes
payload_sized = refl

write_array_lem_example :
    (t : FixedOutputStream) × (write_array batch host_order ones ≡ ok tt t)
    × (t.buffer ≡ batch_bytes host_order batch)
write_array_lem_example = write_array_lem batch host_order ones batch-fits payload_sized

abbrev of_three : MsgHeader
of_three = record hello { batch_size = 3 }

read_batch_lem_example :
    read_batch logger host_order of_three (batch_bytes host_order batch) []
    ≡ deliver logger of_three 3 batch []
read_batch_lem_example =
    read_batch_lem logger host_order of_three batch [] refl (omega arith) batch-fits

read_batch_miscounted_example :
    read_batch logger host_order hello (batch_bytes host_order batch) []
    ≡ err e_data_corrupt ((0 ∷ []) ∷ [])
read_batch_miscounted_example =
    read_batch_miscounted logger host_order hello batch [] (λ e. absurd (omega (arith, e)))
      batch-fits

abbrev one_message : FixedInputStream
one_message = record {
  buffer = 2 ∷ 0 ∷ 0 ∷ 0 ∷ 5 ∷ 6 ∷ 9 ∷ [];
  size = 7;
  offset = 0;
  byte_order = host_order;
}

one_message-contents :
    FixedInput.contents one_message ≡ buffer_bytes host_order (5 ∷ 6 ∷ []) ++ 9 ∷ []
unfolding FixedInput.contents to_order le_bytes
one_message-contents = refl

read_msg_lem_example :
    (t : FixedInputStream) × (read_msg one_message ≡ ok (5 ∷ 6 ∷ 9 ∷ [], 2) t)
    × Leaves one_message (9 ∷ []) t
read_msg_lem_example =
    read_msg_lem (5 ∷ 6 ∷ []) (9 ∷ []) one_message
      (record { whole = refl; within = omega arith; small = omega arith }) (omega arith)
      (omega arith) one_message-contents

abbrev empty_last : FixedInputStream
empty_last = record { buffer = 0 ∷ 0 ∷ 0 ∷ 0 ∷ []; size = 4; offset = 0; byte_order = host_order }

empty_last-contents : FixedInput.contents empty_last ≡ buffer_bytes host_order []
unfolding FixedInput.contents to_order le_bytes
empty_last-contents = refl

read_msg_last_empty_example : (t : FixedInputStream) × (read_msg empty_last ≡ err e_end_of_stream t)
read_msg_last_empty_example =
    read_msg_last_empty empty_last
      (record { whole = refl; within = omega arith; small = omega arith }) empty_last-contents

abbrev sent_size : ℕ
sent_size = header_size + length (sent_bytes marker true (batch_bytes host_order batch))

sent_size-fits : sent_size < u32_mod
sent_size-fits = omega (arith, length-batch_bytes host_order batch)

read_msg_frame-prepare_msg_batch_frame_example :
    (m : Msg) × (prepare_msg_batch_frame plenty marker 7 batch host_order true 6 ≡ ok m tt)
    × (read_msg_frame logger marker host_order m []
        ≡ deliver logger m.header 3 batch (
            (length (sent_bytes marker true (batch_bytes host_order batch))
              ∷ length (batch_bytes host_order batch)
              ∷ [])
            ∷ []))
read_msg_frame-prepare_msg_batch_frame_example =
    read_msg_frame-prepare_msg_batch_frame logger plenty marker host_order 7 6 batch true []
      (omega arith) refl refl (omega arith) batch-fits sent_size-fits
      (replicate sent_size 255, refl, length-replicate {A = ℕ} sent_size 255) refl
