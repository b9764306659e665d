-- ===== src/Tests/Assembler.antt =====
-- A connection that receives messages, for src/msg/msg_assembler.cpp.
use commutil.Common.{
  suc, flatten, u32_mod, ℕ, ◌+◌, ◌<◌, ◌≡◌, refl, true, none, some, List, [], ◌∷◌, ◌++◌, inl, arith,
  drop, replicate, length, length-replicate,
}
use commutil.Err.{ok, fault}
use commutil.Io.Bytes.{network_order, le_bytes}
use commutil.Io.Segmented.{SegmentedInputStream}
use commutil.Io.Segmented.Read.{segmented_input}
use commutil.Io.Segmented.Copy.{contents, IsValid}
use commutil.Msg.Frame.Single.{Gives}
use commutil.Msg.Header.{MsgHeader, msg_magic, is_valid, same_bytes}
use commutil.Msg.Header.Codec.{HasWidths, header_bytes}
use commutil.Msg.Message.{Msg, Allocate}
use commutil.Msg.Assembler.{
  MsgListener, Assembly, ms_waiting_header, ms_waiting_body, ms_resync, msg_can_delete, assemble,
  assemble_round, MsgState,
}
use commutil.Msg.Assembler.Wire.{IsFrame}
use commutil.Msg.Assembler.Rounds.{TooFew-spins}
use commutil.Io.Stream.{Leaves}
use commutil.Msg.Assembler.Errors.{unknown_header_lem, no_memory_lem, short_length_faults}
use commutil.Msg.Assembler.Sequence.{tail_bytes, wire, At}
use commutil.Msg.Assembler.Delivery.{completes, Receives, receive_lem}

abbrev two_bytes : Msg
two_bytes = record {
  header = record {
    magic = msg_magic;
    length = 42;
    msg_id = 7;
    flags = 0;
    request_id = 3;
    request_index = 1;
    uncompressed_length = 0;
    batch_size = 1;
    reserved = 0;
  };
  payload = 9 ∷ 8 ∷ [];
}

-- A listener that counts the messages and gives them back.
abbrev counter : MsgListener ℕ
counter = record {
  on_connect = λ c status n. (true, n);
  on_disconnect = λ c n. n;
  on_msg = λ c m n. (msg_can_delete, n + 1);
}

abbrev plenty : Allocate
plenty n = some (replicate n 255)

-- The connection has seen the header and one byte of the payload.
abbrev half : Assembly ℕ
half = record {
  stream = record {
    is = record {
      segments = (header_bytes network_order two_bytes.header ++ 9 ∷ []) ∷ [];
      size = 41;
      offset = 0;
      freed = [];
      byte_order = network_order;
    };
    msg_header = two_bytes.header;
    state = ms_waiting_body;
  };
  user = 0;
  freed = [];
}

two_bytes-HasWidths : HasWidths two_bytes.header
two_bytes-HasWidths = record {
  magic = refl;
  length_32 = omega arith;
  msg_id_16 = omega arith;
  flags_16 = omega arith;
  request_id_64 = omega arith;
  request_index_32 = omega arith;
  uncompressed_length_32 = omega arith;
  batch_size_32 = omega arith;
  reserved_32 = omega arith;
}

two_bytes-IsFrame : IsFrame two_bytes
two_bytes-IsFrame = record { widths = two_bytes-HasWidths; magic = refl; sized = refl }

half-At : At network_order (some (two_bytes, 1)) half
unfolding header_bytes le_bytes flatten
half-At = record {
  valid = record { within = omega arith; counted = refl; small = omega arith };
  order = refl;
  held = refl;
  expects = (refl, refl);
}

-- The rest of the message, another one, and the header of a third with one byte of its payload.
abbrev arrives : List ℕ
arrives =
    drop 1 two_bytes.payload
    ++ (wire network_order (two_bytes ∷ []) ++ tail_bytes network_order (some (two_bytes, 1)))

arrives-fits : length (flatten half.stream.is.segments) + length arrives < u32_mod
unfolding header_bytes le_bytes flatten
arrives-fits = omega arith

receive_lem_example :
    Receives counter plenty 5 7 network_order arrives
      (two_bytes ∷ two_bytes ∷ [])
      (some (two_bytes, 1))
      half
receive_lem_example =
    receive_lem counter plenty 5 7 half half-At (two_bytes-IsFrame, omega arith)
      (two_bytes-IsFrame, omega arith)
      (completes two_bytes 1 (two_bytes ∷ []) (some (two_bytes, 1)))
      (two_bytes-IsFrame, memory, omega arith, (two_bytes-IsFrame, memory, omega arith, tt))
      arrives-fits (omega arith)
  where
    memory : Gives plenty 42
    memory = (replicate 42 255, refl, length-replicate {A = ℕ} 42 255)

abbrev waiting : Assembly ℕ
waiting = record half {
  stream = record (half.stream) {
    is = record (half.stream.is) { segments = (1 ∷ 2 ∷ []) ∷ []; size = 2 };
    state = ms_waiting_header;
  };
}

TooFew-spins_example : assemble counter plenty 5 1000 waiting ≡ none
TooFew-spins_example =
    TooFew-spins counter plenty 5 1000 waiting (omega arith, inl (refl, omega arith))

-- The header of a message without the magic word, and one byte.
abbrev unknown : MsgHeader
unknown = record (two_bytes.header) { magic = replicate 8 0 }

unknown-HasWidths : HasWidths unknown
unknown-HasWidths = record {
  magic = refl;
  length_32 = omega arith;
  msg_id_16 = omega arith;
  flags_16 = omega arith;
  request_id_64 = omega arith;
  request_index_32 = omega arith;
  uncompressed_length_32 = omega arith;
  batch_size_32 = omega arith;
  reserved_32 = omega arith;
}

abbrev holding : List ℕ → ℕ → MsgState → MsgHeader → Assembly ℕ
holding bytes size state h = record half {
  stream = record {
    is = record (half.stream.is) { segments = bytes ∷ []; size = size };
    msg_header = h;
    state = state;
  };
}

abbrev strange : Assembly ℕ
strange =
    holding (header_bytes network_order unknown ++ 1 ∷ []) 41 ms_waiting_header two_bytes.header

strange-IsValid : IsValid strange.stream.is
unfolding header_bytes le_bytes flatten
strange-IsValid = record { within = omega arith; counted = refl; small = omega arith }

unknown_header_lem_example :
    (t : SegmentedInputStream) × (assemble_round counter plenty 5 strange
      ≡ ok true
          (record strange { stream = record { is = t; msg_header = unknown; state = ms_resync } }))
    × Leaves strange.stream.is (1 ∷ []) t
unknown_header_lem_example =
    unknown_header_lem counter plenty 5 network_order unknown (1 ∷ []) strange unknown-HasWidths
      (unfold is_valid same_bytes in refl) refl strange-IsValid refl
      (unfold header_bytes le_bytes flatten in refl)

abbrev no_room : Allocate
no_room n = none

abbrev arrived : Assembly ℕ
arrived = holding (replicate 43 1) 43 ms_waiting_body two_bytes.header

arrived-IsValid : IsValid arrived.stream.is
unfolding flatten
arrived-IsValid = record { within = omega arith; counted = refl; small = omega arith }

no_memory_lem_example :
    (t : SegmentedInputStream) × (assemble counter no_room 5 (suc 9) arrived
      ≡ some (ok tt (record arrived { stream = record (arrived.stream) { is = t } })))
    × Leaves arrived.stream.is (drop 42 (contents arrived.stream.is)) t
no_memory_lem_example =
    no_memory_lem counter no_room 5 9 arrived (omega arith) refl refl arrived-IsValid (omega arith)
      (omega arith)

short_length_faults_example :
    assemble counter plenty 5
      (suc 9)
      (holding (replicate 43 1) 43 ms_waiting_body (record (two_bytes.header) { length = 8 }))
    ≡ some fault
short_length_faults_example =
    short_length_faults counter plenty 5 9
      (holding (replicate 43 1) 43 ms_waiting_body (record (two_bytes.header) { length = 8 }))
      (replicate 8 255) (omega arith) refl refl (omega arith) (omega arith)
