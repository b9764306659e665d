-- ===== src/Msg/Header.antt =====
-- inc/msg/msg_header.h, src/msg/msg_header.cpp: the header of a message frame.
pub mod Codec
pub mod Flat
use Prim.Native.Nat.{bit_and, bit_or}
use commutil.Common.{
  ℕ, ◌+◌, ◌-◌, ◌^◌, ◌<◌, ◌≡◌, Bool, true, false, not, ◌&&◌, List, [], ◌∷◌, ◌++◌, length, take, drop,
  ◌==◌, if◌then◌else◌,
}
use commutil.Err.{Out, ok, err, ◌>>=◌, ◌>>◌, return}
use commutil.Io.Bytes.{ByteOrder, le_value, hton}
use commutil.Io.Stream.{InputStream}
use commutil.Io.FixedOutput.{FixedOutputStream}
use commutil.Io.Serializable.{serialize_uint, serialize_data, deserialize_uint, deserialize_data}

-- COMMUTIL_MSG_MAGIC_SIZE, and the magic word COMUMESG.
abbrev pub magic_size : ℕ
magic_size = 8

abbrev pub msg_magic : List ℕ
msg_magic = 0x43 ∷ 0x4f ∷ 0x4d ∷ 0x55 ∷ 0x4d ∷ 0x45 ∷ 0x53 ∷ 0x47 ∷ []

abbrev pub flag_compressed : ℕ
flag_compressed = 0x0001

abbrev pub flag_batch : ℕ
flag_batch = 0x0002

-- COMMUTIL_MSG_INVALID_REQUEST_ID
abbrev pub invalid_request_id : ℕ
invalid_request_id = 2 ^ 64 - 1

-- sizeof(MsgHeader): the fields lie one behind the other with no padding.
abbrev pub header_size : ℕ
header_size = 40

pub record MsgHeader : Type 0 where
  pub magic : List ℕ
  pub length : ℕ
  pub msg_id : ℕ
  pub flags : ℕ
  pub request_id : ℕ
  pub request_index : ℕ
  pub uncompressed_length : ℕ
  pub batch_size : ℕ
  pub reserved : ℕ

-- The two constructors.
unfoldable pub make : ℕ → ℕ → ℕ → ℕ → ℕ → MsgHeader
make length msg_id flags request_id request_index = record {
  magic = msg_magic;
  length = length;
  msg_id = msg_id;
  flags = flags;
  request_id = request_id;
  request_index = request_index;
  uncompressed_length = 0;
  batch_size = 1;
  reserved = 0;
}

unfoldable pub make_default : MsgHeader
unfolding make
make_default = make header_size 0 0 0 0

unfoldable pub is_compressed : MsgHeader → Bool
is_compressed h = not (bit_and h.flags flag_compressed == 0)

unfoldable pub is_batch : MsgHeader → Bool
is_batch h = not (bit_and h.flags flag_batch == 0)

unfoldable pub set_compressed : MsgHeader → MsgHeader
set_compressed h = record h { flags = bit_or h.flags flag_compressed }

unfoldable pub set_batch : MsgHeader → MsgHeader
set_batch h = record h { flags = bit_or h.flags flag_batch }

unfoldable pub serialize : MsgHeader → FixedOutputStream → Out FixedOutputStream (Unit {0})
serialize h = do
  serialize_data h.magic
  serialize_uint 4 h.length
  serialize_uint 2 h.msg_id
  serialize_uint 2 h.flags
  serialize_uint 8 h.request_id
  serialize_uint 4 h.request_index
  serialize_uint 4 h.uncompressed_length
  serialize_uint 4 h.batch_size
  serialize_uint 4 h.reserved

-- The header that was read; where a read fails the caller has only the error.
unfoldable pub deserialize : {S : Type 0} ⦃is : InputStream S⦄ → S → Out S MsgHeader
deserialize = do
  magic ← deserialize_data magic_size
  length ← deserialize_uint 4
  msg_id ← deserialize_uint 2
  flags ← deserialize_uint 2
  request_id ← deserialize_uint 8
  request_index ← deserialize_uint 4
  uncompressed_length ← deserialize_uint 4
  batch_size ← deserialize_uint 4
  reserved ← deserialize_uint 4
  return (record {
    magic = magic;
    length = length;
    msg_id = msg_id;
    flags = flags;
    request_id = request_id;
    request_index = request_index;
    uncompressed_length = uncompressed_length;
    batch_size = batch_size;
    reserved = reserved;
  })

-- The flat header in memory: what `InputStream::peek` fills from 40 bytes.
unfoldable pub of_memory : List ℕ → MsgHeader
of_memory bytes = record {
  magic = take 8 bytes;
  length = le_value (take 4 (drop 8 bytes));
  msg_id = le_value (take 2 (drop 12 bytes));
  flags = le_value (take 2 (drop 14 bytes));
  request_id = le_value (take 8 (drop 16 bytes));
  request_index = le_value (take 4 (drop 24 bytes));
  uncompressed_length = le_value (take 4 (drop 28 bytes));
  batch_size = le_value (take 4 (drop 32 bytes));
  reserved = le_value (take 4 (drop 36 bytes));
}

unfoldable pub from_net_order : MsgHeader → MsgHeader
from_net_order h = record {
  magic = h.magic;
  length = hton 4 h.length;
  msg_id = hton 2 h.msg_id;
  flags = hton 2 h.flags;
  request_id = hton 8 h.request_id;
  request_index = hton 4 h.request_index;
  uncompressed_length = hton 4 h.uncompressed_length;
  batch_size = hton 4 h.batch_size;
  reserved = hton 4 h.reserved;
}

-- `memcmp(a, b, n) == 0` on two runs of n bytes.
unfoldable pub same_bytes : List ℕ → List ℕ → Bool
same_bytes [] [] = true
same_bytes (x ∷ xs) (y ∷ ys) = x == y && same_bytes xs ys
same_bytes _ _ = false

unfoldable pub is_valid : MsgHeader → Bool
unfolding same_bytes
is_valid h = same_bytes h.magic msg_magic
