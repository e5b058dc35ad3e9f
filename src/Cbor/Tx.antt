-- ===== src/Cbor/Tx.antt =====
-- TxStream of rmw_dps_cpp/include/rmw_dps_cpp/CborStream.hpp. `none` is an exception. Copies and moves
-- of a stream are values here.
use rmw_dps.Prelude.{◌>>=◌, ℕ, ◌+◌, Bool, List, [], ◌∷◌, Option, some, length, take}
use rmw_dps.Text.{Text}
use rmw_dps.Cbor.Codec.{
  Codec, Item, uint, int, float, double, string, bytes, array, boolean, ℤ, pos, Status, dps_ok,
  overflow, failed, TxBuffer, Bytes,
}

pub record TxStream : Type 0 where
  pub ret : Status
  pub size_ : ℕ
  pub buffer : TxBuffer

-- Several values, in order.
unfoldable pub put_each {ℓ} :
    {A : Type ℓ} → (A → TxStream → TxStream) → List A → TxStream → TxStream
put_each f [] s = s
put_each f (x ∷ xs) s = put_each f xs (f x s)

module _ (c : Codec) where
  -- TxStream(hint)
  unfoldable pub new_stream : ℕ → Option TxStream
  new_stream hint = do b ← c.init hint; some (record { ret = dps_ok; size_ = 0; buffer = b })

  -- size_ += CBOR_SIZEOF_...; if (ret_ == DPS_OK) ret_ = CBOR_Encode...
  unfoldable pub encode_next : Status → Item → TxStream → TxStream
  encode_next dps_ok i s =
      let (r, b) = c.encode i s.buffer in
      record { ret = r; size_ = s.size_ + c.size_of i; buffer = b }
  encode_next overflow i s = record s { size_ = s.size_ + c.size_of i }
  encode_next failed i s = record s { size_ = s.size_ + c.size_of i }

  unfoldable pub put : Item → TxStream → TxStream
  put i s = encode_next s.ret i s

  -- operator<<(uint64_t), to which the narrower ones widen
  unfoldable pub tx_uint : ℕ → TxStream → TxStream
  tx_uint n s = put (uint n) s

  -- operator<<(int64_t), to which the narrower ones and char widen
  unfoldable pub tx_int : ℤ → TxStream → TxStream
  tx_int z s = put (int z) s

  unfoldable pub tx_float : ℕ → TxStream → TxStream
  tx_float f s = put (float f) s

  unfoldable pub tx_double : ℕ → TxStream → TxStream
  tx_double d s = put (double d) s

  unfoldable pub tx_bool : Bool → TxStream → TxStream
  tx_bool b s = put (boolean b) s

  unfoldable pub tx_string : Text → TxStream → TxStream
  tx_string t s = put (string t) s

  -- serializeSequence(size)
  unfoldable pub serialize_size : ℕ → TxStream → TxStream
  serialize_size n s = put (array n) s

  -- operator<<(std::u16string): a char16_t is promoted to int, so it is written as an int32_t.
  unfoldable pub tx_u16string : List ℕ → TxStream → TxStream
  unfolding tx_int
  tx_u16string t s = put_each (λ u. tx_int (pos u)) t (serialize_size (length t) s)

  -- encodeSequence(items, size)
  unfoldable pub encode_sequence {ℓ} :
      {A : Type ℓ} → (A → TxStream → TxStream) → List A → ℕ → TxStream → TxStream
  encode_sequence f items size s = put_each f (take size items) (put (array size) s)

  -- encodeSequence(const uint8_t * items, size)
  unfoldable pub encode_bytes : Bytes → ℕ → TxStream → TxStream
  encode_bytes items size s = put (bytes (take size items)) s

  -- operator<<(std::vector<T>)
  unfoldable pub tx_vector {ℓ} :
      {A : Type ℓ} → (A → TxStream → TxStream) → List A → TxStream → TxStream
  tx_vector f v s = encode_sequence f v (length v) s

  -- operator<<(std::vector<bool>)
  unfoldable pub tx_bools : List Bool → TxStream → TxStream
  tx_bools v s = put_each tx_bool v (put (array (length v)) s)

  -- serializeSequence(items, size)
  unfoldable pub serialize_sequence {ℓ} :
      {A : Type ℓ} → (A → TxStream → TxStream) → List A → ℕ → TxStream → TxStream
  serialize_sequence f items size s = encode_sequence f items size s

  -- if (ser.status() == DPS_ERR_OVERFLOW): the values are written again, to a stream of the size that
  -- the first one said it needs.
  unfoldable pub retry : Status → (TxStream → Option TxStream) → TxStream → Option TxStream
  unfolding new_stream
  retry overflow f s = do s' ← new_stream s.size_; f s'
  retry dps_ok f s = some s
  retry failed f s = some s
