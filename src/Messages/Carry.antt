-- ===== src/Messages/Carry.antt =====
-- The fields that rmw_dps_cpp/include/rmw_dps_cpp/TypeSupport_impl.hpp writes, and how they are read
-- back.
use mathlib.Core.Path.{subst}
use rmw_dps.Prelude.{
  ◌>>=◌, ℕ, Bool, true, false, List, length, All, All-imp, ◌≡◌, arith, if◌then◌else◌,
}
use rmw_dps.Cbor.Codec.{Codec, Laws, IsSize}
use rmw_dps.Cbor.Tx.{serialize_sequence}
use rmw_dps.Cbor.Rx.{deserialize_sequence_size}
use rmw_dps.Cbor.Carry.{
  Sends, carry_vector, carry_sequence, carry_bytes, carry_byte_sequence, carry_string, carry_uint,
  carry_int, carry_char, carry_float, carry_double, carry_bool, carry_bools, carry_u16string,
  carry_peeked, carry_peeked_bytes,
}
use rmw_dps.Messages.Members.{
  Primitive, boolean, octet, uint8, char_, int8, float32, float64, int16, uint16, int32, uint32,
  int64, uint64, text, wide_text, Shape, single, array_of, Scalar, Field, is_fixed,
}
use rmw_dps.Messages.Fields.{
  tx_scalar, rx_scalar, tx_sequence_of, rx_sequence_of, tx_vector_of, rx_vector_of,
  serialize_field_cpp, deserialize_field_cpp, serialize_field_c, deserialize_field_c,
}
use rmw_dps.Messages.Valid.{IsScalar, OnField, HasLength}

module _ {c : Codec} (l : Laws c) where
  pub carry_scalar :
      (p : Primitive) (v : Scalar p) → IsScalar p v → Sends l (tx_scalar c p v) (rx_scalar c p) v
  unfolding tx_scalar rx_scalar
  carry_scalar boolean v h = carry_bool l v
  carry_scalar octet v h = carry_uint l 8 v (omega arith) h
  carry_scalar uint8 v h = carry_uint l 8 v (omega arith) h
  carry_scalar char_ v h = carry_char l v h
  carry_scalar int8 v h = carry_char l v h
  carry_scalar float32 v h = carry_float l v h
  carry_scalar float64 v h = carry_double l v h
  carry_scalar int16 v h = carry_int l 16 v (omega arith) h
  carry_scalar uint16 v h = carry_uint l 16 v (omega arith) h
  carry_scalar int32 v h = carry_int l 32 v (omega arith) h
  carry_scalar uint32 v h = carry_uint l 32 v (omega arith) h
  carry_scalar int64 v h = carry_int l 64 v (omega arith) h
  carry_scalar uint64 v h = carry_uint l 64 v (omega arith) h
  carry_scalar text v h = carry_string l v h
  carry_scalar wide_text v h = carry_u16string l v h.0 h.1

  -- Sequences of any type whose size the reader knows.
  pub carry_sequence_of :
      (p : Primitive) (v : List (Scalar p))
      → IsSize (length v)
      → All (IsScalar p) v
      → Sends l (tx_sequence_of c p v (length v)) (rx_sequence_of c p (length v)) v
  unfolding tx_sequence_of rx_sequence_of serialize_sequence
  carry_sequence_of octet v size h = carry_byte_sequence l v size
  carry_sequence_of uint8 v size h = carry_byte_sequence l v size
  carry_sequence_of p v size h =
      carry_sequence l (tx_scalar c p) (rx_scalar c p) v size
        (All-imp _ _ v (λ x. carry_scalar p x) h)

  carry_vector_of :
      (p : Primitive) (v : List (Scalar p))
      → IsSize (length v)
      → All (IsScalar p) v
      → Sends l (tx_vector_of c p v) (rx_vector_of c p) v
  unfolding tx_vector_of rx_vector_of
  carry_vector_of boolean v size h = carry_bools l v size
  carry_vector_of octet v size h = carry_bytes l v size
  carry_vector_of uint8 v size h = carry_bytes l v size
  carry_vector_of p v size h =
      carry_vector l (tx_scalar c p) (rx_scalar c p) v size
        (All-imp _ _ v (λ x. carry_scalar p x) h)

  carry_sized :
      (p : Primitive) (v : List (Scalar p)) (n : ℕ)
      → length v ≡ n
      → IsSize (length v)
      → All (IsScalar p) v
      → Sends l (tx_sequence_of c p v n) (rx_sequence_of c p n) v
  carry_sized p v n e size h =
      subst (λ m. Sends l (tx_sequence_of c p v m) (rx_sequence_of c p m) v) e
        (carry_sequence_of p v size h)

  carry_array_cpp :
      (b : Bool) (p : Primitive) (v : List (Scalar p)) (n : ℕ)
      → HasLength b n (length v)
      → IsSize (length v)
      → All (IsScalar p) v
      → Sends l
          (λ s. if b then tx_sequence_of c p v n s else tx_vector_of c p v s)
          (λ bs. if b then rx_sequence_of c p n bs else rx_vector_of c p bs)
          v
  carry_array_cpp true p v n len size h = carry_sized p v n len size h
  carry_array_cpp false p v n len size h = carry_vector_of p v size h

  pub carry_field_cpp :
      (sh : Shape) (p : Primitive) (v : Field sh (Scalar p))
      → OnField (IsScalar p) sh v
      → Sends l (serialize_field_cpp c sh p v) (deserialize_field_cpp c sh p) v
  unfolding serialize_field_cpp deserialize_field_cpp
  carry_field_cpp (single bound) p v h = carry_scalar p v h
  carry_field_cpp (array_of n upper) p v (len, size, h) =
      carry_array_cpp (is_fixed n upper) p v n len size h

  -- A sequence of C says its size first.
  carry_peeked_of :
      (p : Primitive) (v : List (Scalar p))
      → IsSize (length v)
      → All (IsScalar p) v
      → Sends l
          (tx_sequence_of c p v (length v))
          (λ bs. deserialize_sequence_size c bs >>= λ size. rx_sequence_of c p size bs)
          v
  unfolding tx_sequence_of rx_sequence_of serialize_sequence
  carry_peeked_of octet v size h = carry_peeked_bytes l v size
  carry_peeked_of uint8 v size h = carry_peeked_bytes l v size
  carry_peeked_of p v size h =
      carry_peeked l (tx_scalar c p) (rx_scalar c p) v size
        (All-imp _ _ v (λ x. carry_scalar p x) h)

  carry_array_c :
      (b : Bool) (p : Primitive) (v : List (Scalar p)) (n : ℕ)
      → HasLength b n (length v)
      → IsSize (length v)
      → All (IsScalar p) v
      → Sends l
          (λ s. if b then tx_sequence_of c p v n s else tx_sequence_of c p v (length v) s)
          (λ bs.
            if b
            then rx_sequence_of c p n bs
            else (deserialize_sequence_size c bs >>= λ size. rx_sequence_of c p size bs))
          v
  carry_array_c true p v n len size h = carry_sized p v n len size h
  carry_array_c false p v n len size h = carry_peeked_of p v size h

  pub carry_field_c :
      (sh : Shape) (p : Primitive) (v : Field sh (Scalar p))
      → OnField (IsScalar p) sh v
      → Sends l (serialize_field_c c sh p v) (deserialize_field_c c sh p) v
  unfolding serialize_field_c deserialize_field_c
  carry_field_c (single bound) p v h = carry_scalar p v h
  carry_field_c (array_of n upper) p v (len, size, h) =
      carry_array_c (is_fixed n upper) p v n len size h
