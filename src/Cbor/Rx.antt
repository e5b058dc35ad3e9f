-- ===== src/Cbor/Rx.antt =====
-- RxStream of rmw_dps_cpp/include/rmw_dps_cpp/CborStream.hpp: the bytes that are still to be read.
-- `none` is an exception.
use rmw_dps.Prelude.{
  ◌>>=◌, ℕ, zero, suc, Bool, List, [], ◌∷◌, Option, none, some, length, ◌==◌, if◌then◌else◌,
}
use rmw_dps.Text.{Text}
use rmw_dps.Cbor.Codec.{Codec, Reader, ℤ, Bytes, Major, of_array, of_bytes, of_other}

-- So many values, in order.
unfoldable pub read_each {ℓ} : {A : Type ℓ} → Reader A → ℕ → Reader (List A)
read_each r zero bs = some ([], bs)
read_each r (suc n) bs = do (x, bs') ← r bs; (xs, rest) ← read_each r n bs'; some (x ∷ xs, rest)

unfoldable pub has_size : Major → ℕ → Option ℕ
has_size of_array n = some n
has_size of_bytes n = some n
has_size of_other n = none

module _ (c : Codec) where
  -- operator>> of the unsigned integers by their width, of char16_t and of uint8_t
  unfoldable pub rx_uint : ℕ → Reader ℕ
  rx_uint w bs = c.decode_uint w bs

  unfoldable pub rx_char16 : Reader ℕ
  rx_char16 bs = c.decode_uint 16 bs

  -- operator>> of the integers by their width, and of char
  unfoldable pub rx_int : ℕ → Reader ℤ
  rx_int w bs = c.decode_int w bs

  unfoldable pub rx_char : Reader ℤ
  rx_char bs = c.decode_int 8 bs

  unfoldable pub rx_float : Reader ℕ
  rx_float bs = c.decode_float bs

  unfoldable pub rx_double : Reader ℕ
  rx_double bs = c.decode_double bs

  unfoldable pub rx_string : Reader Text
  rx_string bs = c.decode_string bs

  unfoldable pub rx_bool : Reader Bool
  rx_bool bs = c.decode_boolean bs

  -- operator>>(std::u16string)
  unfoldable pub rx_u16string : Reader (List ℕ)
  rx_u16string bs = do (n, items) ← c.decode_array bs; read_each rx_char16 n items

  -- operator>>(std::vector<T>)
  unfoldable pub rx_vector {ℓ} : {A : Type ℓ} → Reader A → Reader (List A)
  rx_vector r bs = do (n, items) ← c.decode_array bs; read_each r n items

  -- operator>>(std::vector<bool>)
  unfoldable pub rx_bools : Reader (List Bool)
  rx_bools bs = do (n, items) ← c.decode_array bs; read_each (λ b. c.decode_boolean b) n items

  -- operator>>(std::vector<uint8_t>)
  unfoldable pub rx_bytes : Reader Bytes
  rx_bytes bs = c.decode_bytes bs

  -- deserializeSequence(size)
  unfoldable pub deserialize_size : Reader ℕ
  deserialize_size bs = c.decode_array bs

  -- deserializeSequenceSize(size), which does not move on. A uint64_t is a size_t.
  unfoldable pub deserialize_sequence_size : Bytes → Option ℕ
  unfolding has_size
  deserialize_sequence_size bs = do (major, info) ← c.peek bs; has_size major info

  -- decodeSequence(items, size), and that of uint8_t
  unfoldable pub decode_sequence {ℓ} : {A : Type ℓ} → Reader A → ℕ → Reader (List A)
  decode_sequence r size bs = do
    (n, items) ← c.decode_array bs
    if n == size then read_each r size items else none

  unfoldable pub decode_byte_sequence : ℕ → Reader Bytes
  decode_byte_sequence size bs = do
    (items, rest) ← c.decode_bytes bs
    if length items == size then some (items, rest) else none
