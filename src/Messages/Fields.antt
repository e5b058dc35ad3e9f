-- ===== src/Messages/Fields.antt =====
-- serialize_field and deserialize_field of rmw_dps_cpp/include/rmw_dps_cpp/TypeSupport_impl.hpp, with
-- the string helpers of TypeSupport.hpp beside it. `none` is an exception or a read past the end of a
-- vector.
use rmw_dps.Prelude.{
  ◌>>=◌, ℕ, zero, suc, ◌+◌, Bool, not, ◌&&◌, List, [], ◌∷◌, Option, none, some, map, length, take,
  ltb, ◌==◌, if◌then◌else◌,
}
use rmw_dps.Cbor.Codec.{Codec, Reader}
use rmw_dps.Cbor.Tx.{
  TxStream, tx_uint, tx_int, tx_float, tx_double, tx_bool, tx_string, tx_u16string, encode_bytes,
  tx_vector, tx_bools, serialize_sequence,
}
use rmw_dps.Cbor.Rx.{
  rx_uint, rx_int, rx_char, rx_float, rx_double, rx_string, rx_bool, rx_u16string, rx_vector,
  rx_bools, rx_bytes, deserialize_sequence_size, decode_sequence, decode_byte_sequence,
}
use rmw_dps.Messages.Members.{
  Language, introspection_c, introspection_cpp, Primitive, boolean, octet, uint8, char_, int8,
  float32, float64, int16, uint16, int32, uint32, int64, uint64, text, wide_text, Shape, single,
  array_of, Scalar, Field, is_fixed, until_nul,
}

-- The first strings of a vector that may be too short.
unfoldable pub first_strings : ℕ → List (List ℕ) → Option (List (List ℕ))
first_strings zero v = some []
first_strings (suc n) [] = none
first_strings (suc n) (t ∷ v) = do rest ← first_strings n v; some (until_nul t ∷ rest)

-- The loops that assign the strings of a vector to those of an array or of a sequence.
unfoldable pub assign_strings : Bool → ℕ → List (List ℕ) → Option (List (List ℕ))
unfolding first_strings
assign_strings fixed n v = if fixed then first_strings n v else some (map until_nul v)

module _ (c : Codec) where
  -- `ser << x` by the type of x
  unfoldable pub tx_scalar : (p : Primitive) → Scalar p → TxStream → TxStream
  tx_scalar boolean v = tx_bool c v
  tx_scalar octet v = tx_uint c v
  tx_scalar uint8 v = tx_uint c v
  tx_scalar char_ v = tx_int c v
  tx_scalar int8 v = tx_int c v
  tx_scalar float32 v = tx_float c v
  tx_scalar float64 v = tx_double c v
  tx_scalar int16 v = tx_int c v
  tx_scalar uint16 v = tx_uint c v
  tx_scalar int32 v = tx_int c v
  tx_scalar uint32 v = tx_uint c v
  tx_scalar int64 v = tx_int c v
  tx_scalar uint64 v = tx_uint c v
  tx_scalar text v = tx_string c v
  tx_scalar wide_text v = tx_u16string c v

  -- serializeSequence(items, size), by the type of the items
  unfoldable pub tx_sequence_of : (p : Primitive) → List (Scalar p) → ℕ → TxStream → TxStream
  unfolding tx_scalar
  tx_sequence_of octet v n = encode_bytes c v n
  tx_sequence_of uint8 v n = encode_bytes c v n
  tx_sequence_of p v n = serialize_sequence c (tx_scalar p) v n

  -- `ser << v` by the type of the vector
  unfoldable pub tx_vector_of : (p : Primitive) → List (Scalar p) → TxStream → TxStream
  unfolding tx_scalar
  tx_vector_of boolean v = tx_bools c v
  tx_vector_of octet v = encode_bytes c v (length v)
  tx_vector_of uint8 v = encode_bytes c v (length v)
  tx_vector_of p v = tx_vector c (tx_scalar p) v

  -- serialize_field of C++
  unfoldable pub serialize_field_cpp :
      (sh : Shape) (p : Primitive) → Field sh (Scalar p) → TxStream → TxStream
  serialize_field_cpp (single bound) p v s = tx_scalar p v s
  serialize_field_cpp (array_of n upper) p v s =
      if is_fixed n upper then tx_sequence_of p v n s else tx_vector_of p v s

  -- serialize_field of C, but for strings
  unfoldable pub serialize_field_c :
      (sh : Shape) (p : Primitive) → Field sh (Scalar p) → TxStream → TxStream
  serialize_field_c (single bound) p v s = tx_scalar p v s
  serialize_field_c (array_of n upper) p v s =
      if is_fixed n upper then tx_sequence_of p v n s else tx_sequence_of p v (length v) s

  -- serialize_field<std::string> of C, given the operator<< of the strings
  unfoldable pub serialize_strings :
      (List ℕ → TxStream → TxStream) → (sh : Shape) → Field sh (List ℕ) → TxStream → Option TxStream
  serialize_strings tx (single bound) v s =
      let str = until_nul v in
      if not (bound == 0) && ltb (bound + 1) (length str) then none else some (tx str s)
  serialize_strings tx (array_of n upper) v s =
      if is_fixed n upper
      then some (tx_vector c tx (map until_nul (take n v)) s)
      else some (tx_vector c tx (map until_nul v) s)

  -- serialize_field<std::u16string> of C
  unfoldable pub serialize_u16strings :
      (sh : Shape) → Field sh (List ℕ) → TxStream → Option TxStream
  unfolding serialize_strings
  serialize_u16strings sh v s = serialize_strings (tx_u16string c) sh v s

  unfoldable pub serialize_field :
      Language → (sh : Shape) (p : Primitive) → Field sh (Scalar p) → TxStream → Option TxStream
  unfolding serialize_strings serialize_u16strings
  serialize_field introspection_cpp sh p v s = some (serialize_field_cpp sh p v s)
  serialize_field introspection_c sh text v s = serialize_strings (tx_string c) sh v s
  serialize_field introspection_c sh wide_text v s = serialize_u16strings sh v s
  serialize_field introspection_c sh p v s = some (serialize_field_c sh p v s)

  -- `deser >> x` by the type of x
  unfoldable pub rx_scalar : (p : Primitive) → Reader (Scalar p)
  rx_scalar boolean = rx_bool c
  rx_scalar octet = rx_uint c 8
  rx_scalar uint8 = rx_uint c 8
  rx_scalar char_ = rx_char c
  rx_scalar int8 = rx_char c
  rx_scalar float32 = rx_float c
  rx_scalar float64 = rx_double c
  rx_scalar int16 = rx_int c 16
  rx_scalar uint16 = rx_uint c 16
  rx_scalar int32 = rx_int c 32
  rx_scalar uint32 = rx_uint c 32
  rx_scalar int64 = rx_int c 64
  rx_scalar uint64 = rx_uint c 64
  rx_scalar text = rx_string c
  rx_scalar wide_text = rx_u16string c

  -- deserializeSequence(items, size), by the type of the items
  unfoldable pub rx_sequence_of : (p : Primitive) → ℕ → Reader (List (Scalar p))
  unfolding rx_scalar
  rx_sequence_of octet n = decode_byte_sequence c n
  rx_sequence_of uint8 n = decode_byte_sequence c n
  rx_sequence_of p n = decode_sequence c (rx_scalar p) n

  -- `deser >> v` by the type of the vector
  unfoldable pub rx_vector_of : (p : Primitive) → Reader (List (Scalar p))
  unfolding rx_scalar
  rx_vector_of boolean = rx_bools c
  rx_vector_of octet = rx_bytes c
  rx_vector_of uint8 = rx_bytes c
  rx_vector_of p = rx_vector c (rx_scalar p)

  -- deserialize_field of C++
  unfoldable pub deserialize_field_cpp : (sh : Shape) (p : Primitive) → Reader (Field sh (Scalar p))
  deserialize_field_cpp (single bound) p bs = rx_scalar p bs
  deserialize_field_cpp (array_of n upper) p bs =
      if is_fixed n upper then rx_sequence_of p n bs else rx_vector_of p bs

  -- deserialize_field of C, but for strings
  unfoldable pub deserialize_field_c : (sh : Shape) (p : Primitive) → Reader (Field sh (Scalar p))
  deserialize_field_c (single bound) p bs = rx_scalar p bs
  deserialize_field_c (array_of n upper) p bs =
      if is_fixed n upper
      then rx_sequence_of p n bs
      else (deserialize_sequence_size c bs >>= λ size. rx_sequence_of p size bs)

  -- deserialize_field<std::string> of C, given the operator>> of the strings
  unfoldable pub deserialize_strings : Reader (List ℕ) → (sh : Shape) → Reader (Field sh (List ℕ))
  unfolding assign_strings
  deserialize_strings rx (single bound) bs = do (str, rest) ← rx bs; some (until_nul str, rest)
  deserialize_strings rx (array_of n upper) bs = do
    (v, rest) ← rx_vector c rx bs
    strings ← assign_strings (is_fixed n upper) n v
    some (strings, rest)

  -- deserialize_field<std::u16string> of C
  unfoldable pub deserialize_u16strings : (sh : Shape) → Reader (Field sh (List ℕ))
  unfolding deserialize_strings
  deserialize_u16strings sh bs = deserialize_strings (rx_u16string c) sh bs

  unfoldable pub deserialize_field :
      Language → (sh : Shape) (p : Primitive) → Reader (Field sh (Scalar p))
  unfolding deserialize_strings deserialize_u16strings
  deserialize_field introspection_cpp sh p bs = deserialize_field_cpp sh p bs
  deserialize_field introspection_c sh text bs = deserialize_strings (rx_string c) sh bs
  deserialize_field introspection_c sh wide_text bs = deserialize_u16strings sh bs
  deserialize_field introspection_c sh p bs = deserialize_field_c sh p bs
