-- ===== src/Cbor/Buffer.antt =====
-- What a TxStream of rmw_dps_cpp/include/rmw_dps_cpp/CborStream.hpp holds after several items.
use mathlib.Core.List.{append_assoc, append-nil}
use native.Mathlib.Decide.{dec_le}
use native.Mathlib.Nat.{add-zero, add_assoc}
use rmw_dps.Prelude.{ℕ, ◌+◌, ◌≤◌, ◌<◌, List, [], ◌∷◌, ◌++◌, length, length-append, ◌≡◌, refl, arith}
use rmw_dps.Cbor.Codec.{Codec, Laws, Item, Status, dps_ok, overflow, failed, Bytes}
use rmw_dps.Cbor.Tx.{TxStream, encode_next, put, put_each}

-- The stream without an error that needs `n` bytes so far.
abbrev pub holding : ℕ → ℕ → Bytes → TxStream
holding n limit bs = record {
  ret = dps_ok;
  size_ = n;
  buffer = record { capacity = limit; written = bs };
}

module _ (c : Codec) where
  abbrev pub puts : List Item → TxStream → TxStream
  puts = put_each (put c)

  -- CBOR_SIZEOF_... of several items
  abbrev pub total : List Item → ℕ
  total [] = 0
  total (i ∷ is) = c.size_of i + total is

  pub puts-append : (is js : List Item) (s : TxStream) → puts (is ++ js) s ≡ puts js (puts is s)
  unfolding put_each
  puts-append [] js s = refl
  puts-append (i ∷ is) js s = puts-append is js (put c i s)

  encode_next-size :
      (r : Status) (i : Item) (s : TxStream) → (encode_next c r i s).size_ ≡ s.size_ + c.size_of i
  unfolding encode_next
  encode_next-size dps_ok i s = refl
  encode_next-size overflow i s = refl
  encode_next-size failed i s = refl

  pub puts-size : (is : List Item) (s : TxStream) → (puts is s).size_ ≡ s.size_ + total is
  unfolding put_each put
  puts-size [] s = omega arith
  puts-size (i ∷ is) s = omega (arith, encode_next-size s.ret i s, puts-size is (put c i s))

  module _ (l : Laws c) where
    abbrev pub wires : List Item → Bytes
    wires [] = []
    wires (i ∷ is) = l.wire i ++ wires is

    pub wires-append : (is js : List Item) → wires (is ++ js) ≡ wires is ++ wires js
    wires-append [] js = refl
    wires-append (i ∷ is) js = rw (wires-append is js, append_assoc)

    pub length-wires : (is : List Item) → length (wires is) ≤ total is
    length-wires [] = omega arith
    length-wires (i ∷ is) = rw length-append (omega (arith, l.size_enough i, length-wires is))

    -- A stream that has room takes the items, and one that has not overflows.
    put_fits :
        (i : Item) (n limit : ℕ) (bs : Bytes)
        → length bs + length (l.wire i) ≤ limit
        → put c i (holding n limit bs) ≡ holding (n + c.size_of i) limit (bs ++ l.wire i)
    unfolding put encode_next
    put_fits i n limit bs h = cc (l.encode_fits i (record { capacity = limit; written = bs }) h)

    pub puts_fit :
        (is : List Item) (n limit : ℕ) (bs : Bytes)
        → length bs + length (wires is) ≤ limit
        → puts is (holding n limit bs) ≡ holding (n + total is) limit (bs ++ wires is)
    unfolding put_each
    puts_fit [] n limit bs h = rw (append-nil, add-zero) refl
    puts_fit (i ∷ is) n limit bs h =
        let room : length bs + (length (l.wire i) + length (wires is)) ≤ limit =
          rw length-append at h in
        let room' : length (bs ++ l.wire i) + length (wires is) ≤ limit =
          rw length-append (omega arith) in
        rw
          (
            put_fits i n limit bs (omega arith),
            puts_fit is (n + c.size_of i) limit (bs ++ l.wire i) room',
            append_assoc,
            add_assoc,
          )
          refl

    puts_stay : (is : List Item) (s : TxStream) → s.ret ≡ overflow → (puts is s).ret ≡ overflow
    unfolding put_each put encode_next
    puts_stay [] s h = h
    puts_stay (i ∷ is) s h = puts_stay is (put c i s) (rw h refl)

    put_overflows :
        (i : Item) (n limit : ℕ) (bs : Bytes)
        → limit < length bs + length (l.wire i)
        → (put c i (holding n limit bs)).ret ≡ overflow
    unfolding put encode_next
    put_overflows i n limit bs h = l.encode_overflow i (record { capacity = limit; written = bs }) h

    pub puts_overflow :
        (is : List Item) (n limit : ℕ) (bs : Bytes)
        → length bs ≤ limit
        → limit < length bs + length (wires is)
        → (puts is (holding n limit bs)).ret ≡ overflow
    unfolding put_each
    puts_overflow [] n limit bs h k = absurd (omega arith)
    puts_overflow (i ∷ is) n limit bs h k =
        let k' : limit < length bs + (length (l.wire i) + length (wires is)) =
          rw length-append at k in
        elim (dec_le (length bs + length (l.wire i)) limit) [
          | yes room ↦
              let room' : length (bs ++ l.wire i) ≤ limit = rw length-append room in
              let full' : limit < length (bs ++ l.wire i) + length (wires is) =
                rw length-append (omega arith) in
              cc (
                put_fits i n limit bs room,
                puts_overflow is (n + c.size_of i) limit (bs ++ l.wire i) room' full',
              )
          | no full ↦
              puts_stay is (put c i (holding n limit bs)) (put_overflows i n limit bs (omega arith))
        ]
