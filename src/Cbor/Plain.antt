-- ===== src/Cbor/Plain.antt =====
-- A codec for the tests, with a tag before each item and numbers of any size as bytes. It stands in
-- for the encoders of DPS that rmw_dps_cpp/include/rmw_dps_cpp/CborStream.hpp calls.
use Prim.Native.Nat.{◌^◌}
use rmw_dps.Prelude.{
  ◌>>=◌, ℕ, ◌+◌, ◌≤◌, ◌<◌, Bool, true, false, [], ◌∷◌, ◌++◌, Option, none, some, length, take, drop,
  ltb, leb, ◌==◌, if◌then◌else◌, ◌≡◌, refl, arith, take-append, drop-append,
}
use rmw_dps.Cbor.Codec.{
  Codec, Laws, Reader, Bytes, Item, uint, int, float, double, string, bytes, array, boolean, ℤ, pos,
  negsuc, Status, dps_ok, overflow, TxBuffer, Major, of_array, of_bytes, of_other, IsInt,
}

unfoldable wire : Item → Bytes
wire (uint n) = 0 ∷ n ∷ []
wire (int (pos n)) = 0 ∷ n ∷ []
wire (int (negsuc n)) = 1 ∷ n ∷ []
wire (float n) = 2 ∷ n ∷ []
wire (double n) = 3 ∷ n ∷ []
wire (string s) = 4 ∷ length s ∷ s
wire (bytes bs) = 5 ∷ length bs ∷ bs
wire (array n) = 6 ∷ n ∷ []
wire (boolean true) = 7 ∷ 1 ∷ []
wire (boolean false) = 7 ∷ 0 ∷ []

unfoldable encode : Item → TxBuffer → Status × TxBuffer
unfolding wire
encode i b =
    if leb (length b.written + length (wire i)) b.capacity
    then (dps_ok, record b { written = b.written ++ wire i })
    else (overflow, b)

-- A number behind the tag.
unfoldable number : ℕ → Reader ℕ
number tag (t ∷ n ∷ rest) = if t == tag then some (n, rest) else none
number tag bs = none

-- As many bytes as the number behind the tag says.
unfoldable chunk : ℕ → Reader Bytes
unfolding number
chunk tag bs = do (n, rest) ← number tag bs; some (take n rest, drop n rest)

unfoldable decode_uint : ℕ → Reader ℕ
unfolding number
decode_uint w bs = do (n, rest) ← number 0 bs; if ltb n (2 ^ w) then some (n, rest) else none

abbrev as_int : (ℕ → ℤ) → ℕ → ℕ × Bytes → Option (ℤ × Bytes)
as_int f w (n, rest) = if ltb (n + n) (2 ^ w) then some (f n, rest) else none

-- `n` has the tag 0, and -1 - n the tag 1.
unfoldable decode_int : ℕ → Reader ℤ
unfolding number
decode_int w bs = elim (number 0 bs) [
  | some p ↦ as_int pos w p
  | none ↦ number 1 bs >>= as_int negsuc w
]

unfoldable decode_boolean : Reader Bool
unfolding number
decode_boolean bs = do (n, rest) ← number 7 bs; some (n == 1, rest)

unfoldable peek : Bytes → Option (Major × ℕ)
peek (t ∷ n ∷ rest) = some ((if t == 6 then of_array else if t == 5 then of_bytes else of_other), n)
peek bs = none

unfoldable pub plain : Codec
unfolding encode wire decode_uint decode_int number chunk decode_boolean peek
plain = record {
  init = λ n. some (record { capacity = n; written = [] });
  encode = encode;
  size_of = λ i. length (wire i);
  decode_uint = decode_uint;
  decode_int = decode_int;
  decode_float = number 2;
  decode_double = number 3;
  decode_string = chunk 4;
  decode_bytes = chunk 5;
  decode_array = number 6;
  decode_boolean = decode_boolean;
  peek = peek;
}

leb_le : {m n : ℕ} → m ≤ n → leb m n ≡ true
leb_le h = ground arith

leb_gt : {m n : ℕ} → n < m → leb m n ≡ false
leb_gt h = ground arith

ltb_lt : {m n : ℕ} → m < n → ltb m n ≡ true
ltb_lt h = ground arith

wire_pos : (i : Item) → 1 ≤ length (wire i)
unfolding wire
wire_pos (uint n) = omega arith
wire_pos (int (pos n)) = omega arith
wire_pos (int (negsuc n)) = omega arith
wire_pos (float n) = omega arith
wire_pos (double n) = omega arith
wire_pos (string s) = omega arith
wire_pos (bytes bs) = omega arith
wire_pos (array n) = omega arith
wire_pos (boolean true) = omega arith
wire_pos (boolean false) = omega arith

read_int_wire :
    (w : ℕ) (z : ℤ) (rest : Bytes)
    → IsInt w z
    → decode_int w (wire (int z) ++ rest) ≡ some (z, rest)
unfolding decode_int wire number
read_int_wire w (pos n) rest h = ground arith
read_int_wire w (negsuc n) rest h = ground arith

read_boolean_wire :
    (b : Bool) (rest : Bytes) → decode_boolean (wire (boolean b) ++ rest) ≡ some (b, rest)
unfolding decode_boolean wire number
read_boolean_wire true rest = refl
read_boolean_wire false rest = refl

pub plain-Laws : Laws plain
unfolding plain encode wire decode_uint number chunk peek
plain-Laws = record {
  wire = wire;
  has_memory = λ n. refl;
  encode_fits = λ i b h. rw (leb_le h) refl;
  encode_overflow = λ i b h. rw (leb_gt h) refl;
  has_byte = λ i. wire_pos i;
  size_enough = λ i. omega arith;
  int_as_uint = λ n. refl;
  read_uint = λ w n rest hw h. rw (ltb_lt h) refl;
  read_int = λ w z rest hw h. read_int_wire w z rest h;
  read_float = λ n rest h. refl;
  read_double = λ n rest h. refl;
  read_string = λ s rest h. rw (take-append, drop-append) refl;
  read_bytes = λ bs rest h. rw (take-append, drop-append) refl;
  read_array = λ n rest h. refl;
  read_boolean = λ b rest. read_boolean_wire b rest;
  peek_array = λ n rest h. refl;
  peek_bytes = λ bs rest h. refl;
}
