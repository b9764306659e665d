-- ===== src/Io/Serializable.antt =====
-- inc/io/serializable.h: the COMM_SERIALIZE and COMM_DESERIALIZE macros. A macro that finds an error
-- returns from the function it stands in, as the bind of `Out` does.
pub mod Writer
pub mod Reader
use commutil.Common
use commutil.Common.{
  ℕ, ◌+◌, ◌-◌, ◌%◌, ◌≡◌, Bool, true, false, not, List, [], ◌∷◌, ◌++◌, take, replicate, ◌==◌,
  if◌then◌else◌, u32_mod,
}
use commutil.Err.{ErrorCode, Out, ok, err, ◌>>=◌, ◌>>◌, return}
use commutil.Io.Bytes.{ByteOrder, is_network_order, le_bytes, le_value, hton}
use commutil.Io.Stream.{InputStream, read}
use commutil.Io.FixedOutput.{FixedOutputStream, write_bytes}

-- The value as it is kept in a stream of this order, and back.
unfoldable pub to_order : ByteOrder → ℕ → ℕ → ℕ
to_order o n v = if is_network_order o then hton n v else v

-- COMM_SERIALIZE_UINT8, _UINT16, _UINT32 and _UINT64, and the signed ones, which cast to these:
-- n is the size of the value. One byte is never swapped.
unfoldable pub serialize_uint : ℕ → ℕ → FixedOutputStream → Out FixedOutputStream (Unit {0})
unfolding to_order
serialize_uint n value s = write_bytes (le_bytes n (to_order s.byte_order n value)) s

unfoldable pub serialize_bool : Bool → FixedOutputStream → Out FixedOutputStream (Unit {0})
serialize_bool value s = write_bytes (le_bytes 1 (if value then 1 else 0)) s

-- COMM_SERIALIZE_DATA: the bytes of the value, as they lie in memory.
unfoldable pub serialize_data : List ℕ → FixedOutputStream → Out FixedOutputStream (Unit {0})
serialize_data value = write_bytes value

-- COMM_SERIALIZE_BUFFER (and _STRING): the size is cut to 32 bits.
unfoldable pub serialize_buffer : List ℕ → FixedOutputStream → Out FixedOutputStream (Unit {0})
serialize_buffer buffer =
    let length = Common.length buffer % u32_mod in
    serialize_uint 4 length >> write_bytes (take length buffer)

module _ {S : Type 0} ⦃is : InputStream S⦄ where
  -- COMM_DESERIALIZE_UINT16, _UINT32, _UINT64, and COMM_DESERIALIZE_INT8 with n = 1.
  unfoldable pub deserialize_uint : ℕ → S → Out S ℕ
  unfolding to_order
  deserialize_uint n s =
      (read n >>= λ bytes. return (to_order (is.byte_order s) n (le_value bytes))) s

  unfoldable pub deserialize_bool : S → Out S Bool
  deserialize_bool = read 1 >>= λ bytes. return (not (le_value bytes == 0))

  unfoldable pub deserialize_data : ℕ → S → Out S (List ℕ)
  deserialize_data n = read n

  -- COMM_DESERIALIZE_BUFFER: what was read, in a vector of `length` bytes that were zero.
  unfoldable pub deserialize_buffer : S → Out S (List ℕ)
  deserialize_buffer = do
    length ← deserialize_uint 4
    bytes ← is.read_bytes length
    return (bytes ++ replicate (length - Common.length bytes) 0)
