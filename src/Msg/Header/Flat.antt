-- ===== src/Msg/Header/Flat.antt =====
-- src/msg/msg_assembler.cpp, lines 126-139: the assembler peeks a header as 40 bytes of memory and swaps the
-- fields if the stream has network order.
use commutil.Common.{
  ℕ, ◌+◌, ◌^◌, ◌<◌, ◌≡◌, refl, sym, ap, ◌∙◌, List, ◌++◌, arith, length, take, drop, if◌then◌else◌,
  drop-drop, drop_prefix, take_prefix,
}
use commutil.Io.Bytes.{
  ByteOrder, host_order, network_order, is_network_order, le_bytes, le_value, le_value-le_bytes,
  hton-hton,
}
use commutil.Io.Serializable.{to_order}
use commutil.Io.Serializable.Writer.{uint_bytes}
use commutil.Io.Serializable.Reader.{to_order-lt}
use commutil.Msg.Header.{MsgHeader, of_memory, from_net_order, magic_size}
use commutil.Msg.Header.Codec.{HasWidths, header_bytes}

-- `if (is.isNetworkOrder()) header.fromNetOrder();`
unfoldable pub to_host : ByteOrder → MsgHeader → MsgHeader
to_host o h = if is_network_order o then from_net_order h else h

past :
    (k j : ℕ) (magic rest : List ℕ)
    → length magic ≡ magic_size
    → j ≡ magic_size + k
    → drop j (magic ++ rest) ≡ drop k rest
past k j magic rest e f =
    ap (λ i. drop i (magic ++ rest)) f
    ∙ sym (drop-drop k magic_size (magic ++ rest))
    ∙ ap (drop k) (drop_prefix magic_size magic rest (sym e))

-- The fields as they lie in the stream.
abbrev in_order : ByteOrder → MsgHeader → MsgHeader
in_order o h = record {
  magic = h.magic;
  length = to_order o 4 h.length;
  msg_id = to_order o 2 h.msg_id;
  flags = to_order o 2 h.flags;
  request_id = to_order o 8 h.request_id;
  request_index = to_order o 4 h.request_index;
  uncompressed_length = to_order o 4 h.uncompressed_length;
  batch_size = to_order o 4 h.batch_size;
  reserved = to_order o 4 h.reserved;
}

module _ (o : ByteOrder) (h : MsgHeader) (w : HasWidths h) where
  tail_bytes : List ℕ
  tail_bytes =
      uint_bytes o 4 h.length
      ++ (uint_bytes o 2 h.msg_id
          ++ (uint_bytes o 2 h.flags
              ++ (uint_bytes o 8 h.request_id
                  ++ (uint_bytes o 4 h.request_index
                      ++ (uint_bytes o 4 h.uncompressed_length
                          ++ (uint_bytes o 4 h.batch_size ++ uint_bytes o 4 h.reserved))))))

  -- n bytes at offset j of the header are those of the value v.
  field :
      (n j k v : ℕ)
      → j ≡ magic_size + k
      → v < 256 ^ n
      → take n (drop k tail_bytes) ≡ uint_bytes o n v
      → le_value (take n (drop j (header_bytes o h))) ≡ to_order o n v
  unfolding header_bytes tail_bytes
  field n j k v e lt here =
      ap (λ bs. le_value (take n bs)) (past k j h.magic tail_bytes w.magic e)
      ∙ ap le_value here
      ∙ le_value-le_bytes n (to_order o n v) (to_order-lt o n v lt)

  of_memory-header_bytes : of_memory (header_bytes o h) ≡ in_order o h
  unfolding of_memory header_bytes tail_bytes le_bytes
  of_memory-header_bytes = λ i. record {
    magic = take_prefix magic_size h.magic tail_bytes (sym w.magic) i;
    length = field 4 8 0 h.length (omega arith) w.length_32 refl i;
    msg_id = field 2 12 4 h.msg_id (omega arith) w.msg_id_16 refl i;
    flags = field 2 14 6 h.flags (omega arith) w.flags_16 refl i;
    request_id = field 8 16 8 h.request_id (omega arith) w.request_id_64 refl i;
    request_index = field 4 24 16 h.request_index (omega arith) w.request_index_32 refl i;
    uncompressed_length =
        field 4 28 20 h.uncompressed_length (omega arith) w.uncompressed_length_32 refl i;
    batch_size = field 4 32 24 h.batch_size (omega arith) w.batch_size_32 refl i;
    reserved = field 4 36 28 h.reserved (omega arith) w.reserved_32 refl i;
  }

from_net_order_lem : (h : MsgHeader) → HasWidths h → from_net_order (in_order network_order h) ≡ h
unfolding from_net_order to_order
from_net_order_lem h w = λ i. record {
  magic = h.magic;
  length = hton-hton 4 h.length w.length_32 i;
  msg_id = hton-hton 2 h.msg_id w.msg_id_16 i;
  flags = hton-hton 2 h.flags w.flags_16 i;
  request_id = hton-hton 8 h.request_id w.request_id_64 i;
  request_index = hton-hton 4 h.request_index w.request_index_32 i;
  uncompressed_length = hton-hton 4 h.uncompressed_length w.uncompressed_length_32 i;
  batch_size = hton-hton 4 h.batch_size w.batch_size_32 i;
  reserved = hton-hton 4 h.reserved w.reserved_32 i;
}

to_host_lem : (o : ByteOrder) (h : MsgHeader) → HasWidths h → to_host o (in_order o h) ≡ h
unfolding to_host to_order
to_host_lem host_order h w = refl
to_host_lem network_order h w = from_net_order_lem h w

-- Peeking the bytes of a header as memory, and swapping its fields where the stream has network
-- order, gives the header that was serialized.
pub to_host-of_memory :
    (o : ByteOrder) (h : MsgHeader) → HasWidths h → to_host o (of_memory (header_bytes o h)) ≡ h
to_host-of_memory o h w = ap (to_host o) (of_memory-header_bytes o h w) ∙ to_host_lem o h w
