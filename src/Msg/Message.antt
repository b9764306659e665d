-- ===== src/Msg/Message.antt =====
-- inc/msg/msg.h, src/msg/msg.cpp: a message frame is a header and the payload behind it.
use commutil.Common.{
  ℕ, Option, none, some, List, ◌++◌, length, take, drop, ltb, if◌then◌else◌, add32, sub32,
}
use commutil.Err.{Out, ok, fault, ◌>>=◌, ◌>>◌, return}
use commutil.Io.Stream.{InputStream}
use commutil.Io.FixedOutput.{FixedOutputStream, write_bytes}
use commutil.Msg.Header
use commutil.Msg.Header.{MsgHeader, header_size}

-- `payload` is the memory of the frame behind the header. sizeof(Msg) is that of its one field.
pub record Msg : Type 0 where
  pub header : MsgHeader
  pub payload : List ℕ

unfoldable pub payload_size_bytes : Msg → ℕ
payload_size_bytes m = sub32 m.header.length header_size

unfoldable pub serialize : Msg → FixedOutputStream → Out FixedOutputStream (Unit {0})
unfolding payload_size_bytes
serialize m = Header.serialize m.header >> write_bytes (take (payload_size_bytes m) m.payload)

-- The payload is read over the frame's memory; more bytes than it has run past the frame's end.
unfoldable pub deserialize : {S : Type 0} ⦃is : InputStream S⦄ → Msg → S → Out S Msg
unfolding payload_size_bytes
deserialize ⦃is⦄ m = do
  header ← Header.deserialize
  bytes ← is.read_bytes (sub32 header.length header_size)
  if ltb (length m.payload) (length bytes)
      then (λ s. fault)
      else return (record { header = header; payload = bytes ++ drop (length bytes) m.payload })

-- `new (std::nothrow) char[n]`: no memory, or n bytes of any contents.
abbrev pub Allocate : Type 0
Allocate = ℕ → Option (List ℕ)

-- `allocMsg` by fields. The size of the frame is computed in 32 bits; a frame that is too small for
-- its header is written past its end.
unfoldable pub alloc_msg : Allocate → ℕ → ℕ → ℕ → ℕ → ℕ → Out (Unit {0}) (Option Msg)
unfolding Header.make
alloc_msg new msg_id flags request_id request_index payload_size =
    let msg_buf_size = add32 header_size payload_size in
    elim (new msg_buf_size) [
      | none ↦ ok none tt
      | some memory ↦
          if ltb msg_buf_size header_size
          then fault
          else ok
              (some (record {
                header = Header.make msg_buf_size msg_id flags request_id request_index;
                payload = drop header_size memory;
              }))
              tt
    ]

-- `allocMsg` from a header.
unfoldable pub alloc_msg_like : Allocate → MsgHeader → Out (Unit {0}) (Option Msg)
alloc_msg_like new h =
    alloc_msg new h.msg_id h.flags h.request_id h.request_index (sub32 h.length header_size)
