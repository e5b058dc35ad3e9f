-- ===== src/Cbor/Codec.antt =====
-- What rmw_dps_cpp/include/rmw_dps_cpp/CborStream.hpp calls of DPS: the CBOR encoders and decoders and
-- the transmit buffers, which are not part of the repository. `Codec` has their operations, and
-- `Laws` what CBOR and DPS document of them.
use rmw_dps.Prelude.{ℕ, ◌+◌, ◌≤◌, ◌<◌, Bool, List, [], ◌++◌, Option, some, length, ◌≡◌}
use rmw_dps.Text.{Text}
use Prim.Native.Nat.{◌^◌}

abbrev pub Bytes : Type 0
Bytes = List ℕ

-- int64_t: `pos n` is n and `negsuc n` is -1 - n.
pub data ℤ : Type 0 where
  pos negsuc : ℕ → ℤ

-- What one call of an encoder writes: CBOR_EncodeUint, CBOR_EncodeInt, CBOR_EncodeFloat,
-- CBOR_EncodeDouble (the bit pattern of the number), CBOR_EncodeStringAndLength, CBOR_EncodeBytes,
-- CBOR_EncodeArray and CBOR_EncodeBoolean.
pub data Item : Type 0 where
  uint : ℕ → Item
  int : ℤ → Item
  float double : ℕ → Item
  string : Text → Item
  bytes : Bytes → Item
  array : ℕ → Item
  boolean : Bool → Item

-- DPS_Status, as far as it matters: DPS_OK, DPS_ERR_OVERFLOW and the other errors.
pub data Status : Type 0 where
  dps_ok overflow failed : Status

-- The major type that CBOR_Peek finds.
pub data Major : Type 0 where
  of_array of_bytes of_other : Major

-- DPS_TxBuffer: its capacity, and what has been written.
pub record TxBuffer : Type 0 where
  pub capacity : ℕ
  pub written : Bytes

-- A decoder: the value and the bytes behind it, or an error.
abbrev pub Reader {ℓ} : Type ℓ → Type ℓ
Reader A = Bytes → Option (A × Bytes)

pub record Codec : Type 0 where
  -- DPS_TxBufferInit
  pub init : ℕ → Option TxBuffer
  -- CBOR_Encode..., and CBOR_SIZEOF_... of the same item
  pub encode : Item → TxBuffer → Status × TxBuffer
  pub size_of : Item → ℕ
  -- CBOR_DecodeUint8, ...16, ...32 and CBOR_DecodeUint by the width, and so for the integers
  pub decode_uint : ℕ → Reader ℕ
  pub decode_int : ℕ → Reader ℤ
  pub decode_float : Reader ℕ
  pub decode_double : Reader ℕ
  pub decode_string : Reader Text
  pub decode_bytes : Reader Bytes
  pub decode_array : Reader ℕ
  pub decode_boolean : Reader Bool
  -- CBOR_Peek
  pub peek : Bytes → Option (Major × ℕ)

-- The numbers of so many bits.
abbrev pub IsUint : ℕ → ℕ → Type 0
IsUint w n = n < 2 ^ w

abbrev pub IsInt : ℕ → ℤ → Type 0
IsInt w (pos n) = n + n < 2 ^ w
IsInt w (negsuc n) = n + n < 2 ^ w

-- size_t
abbrev pub IsSize : ℕ → Type 0
IsSize n = n < 2 ^ 64

abbrev pub IsWidth : ℕ → Type 0
IsWidth w = w ≤ 64

pub record Laws (c : Codec) : Type 0 where
  -- the bytes of an item on the wire
  pub wire : Item → Bytes
  -- there is memory for a buffer
  pub has_memory : (n : ℕ) → c.init n ≡ some (record { capacity = n; written = [] })
  -- an item that fits is appended, and any other is an overflow
  pub encode_fits :
      (i : Item) (b : TxBuffer)
      → length b.written + length (wire i) ≤ b.capacity
      → c.encode i b ≡ (dps_ok, record b { written = b.written ++ wire i })
  pub encode_overflow :
      (i : Item) (b : TxBuffer)
      → b.capacity < length b.written + length (wire i)
      → (c.encode i b).0 ≡ overflow
  -- an item has a first byte
  pub has_byte : (i : Item) → 1 ≤ length (wire i)
  pub size_enough : (i : Item) → length (wire i) ≤ c.size_of i
  -- a number that is not negative is encoded alike as signed and as unsigned
  pub int_as_uint : (n : ℕ) → wire (int (pos n)) ≡ wire (uint n)
  -- an item is read back, whatever follows it
  pub read_uint :
      (w n : ℕ) (rest : Bytes)
      → IsWidth w
      → IsUint w n
      → c.decode_uint w (wire (uint n) ++ rest) ≡ some (n, rest)
  pub read_int :
      (w : ℕ) (z : ℤ) (rest : Bytes)
      → IsWidth w
      → IsInt w z
      → c.decode_int w (wire (int z) ++ rest) ≡ some (z, rest)
  pub read_float :
      (n : ℕ) (rest : Bytes)
      → IsUint 32 n
      → c.decode_float (wire (float n) ++ rest) ≡ some (n, rest)
  pub read_double :
      (n : ℕ) (rest : Bytes)
      → IsUint 64 n
      → c.decode_double (wire (double n) ++ rest) ≡ some (n, rest)
  pub read_string :
      (s : Text) (rest : Bytes)
      → IsSize (length s)
      → c.decode_string (wire (string s) ++ rest) ≡ some (s, rest)
  pub read_bytes :
      (bs : Bytes) (rest : Bytes)
      → IsSize (length bs)
      → c.decode_bytes (wire (bytes bs) ++ rest) ≡ some (bs, rest)
  pub read_array :
      (n : ℕ) (rest : Bytes) → IsSize n → c.decode_array (wire (array n) ++ rest) ≡ some (n, rest)
  pub read_boolean :
      (b : Bool) (rest : Bytes) → c.decode_boolean (wire (boolean b) ++ rest) ≡ some (b, rest)
  -- an array and a byte string show their size
  pub peek_array :
      (n : ℕ) (rest : Bytes) → IsSize n → c.peek (wire (array n) ++ rest) ≡ some (of_array, n)
  pub peek_bytes :
      (bs : Bytes) (rest : Bytes)
      → IsSize (length bs)
      → c.peek (wire (bytes bs) ++ rest) ≡ some (of_bytes, length bs)
