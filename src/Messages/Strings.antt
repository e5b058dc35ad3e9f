-- ===== src/Messages/Strings.antt =====
-- The strings of C that rmw_dps_cpp/include/rmw_dps_cpp/TypeSupport_impl.hpp writes, and how they are
-- read back.
use rmw_dps.Prelude.{
  sym, ◌>>=◌, ℕ, ◌+◌, ◌≤◌, Bool, true, false, not, ◌&&◌, List, [], ◌∷◌, some, length, All, All-imp,
  ◌≡◌, ◌⊎◌, refl, arith, if◌then◌else◌, map, take, take-length, ltb, ◌==◌,
}
use rmw_dps.Cbor.Codec.{Codec, Laws, Reader}
use rmw_dps.Cbor.Tx.{TxStream, tx_vector, tx_string, tx_u16string}
use rmw_dps.Cbor.Rx.{rx_vector, rx_string, rx_u16string}
use rmw_dps.Cbor.Carry.{Carries, Sends, carry_vector, carry_string, carry_u16string}
use rmw_dps.Messages.Members.{
  Language, introspection_c, introspection_cpp, Primitive, text, wide_text, Shape, single, array_of,
  Scalar, Field, is_fixed, until_nul,
}
use rmw_dps.Messages.Fields.{
  serialize_strings, deserialize_strings, serialize_u16strings, deserialize_u16strings,
  serialize_field, deserialize_field, first_strings, assign_strings,
}
use rmw_dps.Messages.Valid.{IsScalar, OnField, HasLength, IsNulFree, IsCText, IsText}
use rmw_dps.Messages.Carry.{carry_field_cpp, carry_field_c}

pub until_nul-IsNulFree : (t : List ℕ) → IsNulFree t → until_nul t ≡ t
unfolding until_nul
until_nul-IsNulFree [] h = refl
until_nul-IsNulFree (u ∷ us) (h, hs) = ground (arith, until_nul-IsNulFree us hs)

pub map-until_nul : (v : List (List ℕ)) → All IsNulFree v → map until_nul v ≡ v
map-until_nul [] h = refl
map-until_nul (t ∷ v) (h, hs) = rw (until_nul-IsNulFree t h, map-until_nul v hs) refl

first_strings-length : (v : List (List ℕ)) → All IsNulFree v → first_strings (length v) v ≡ some v
unfolding first_strings
first_strings-length [] h = refl
first_strings-length (t ∷ v) (h, hs) = rw (first_strings-length v hs, until_nul-IsNulFree t h) refl

pub within_bound :
    (bound size : ℕ)
    → (bound ≡ 0) ⊎ (size ≤ bound + 1)
    → (not (bound == 0) && ltb (bound + 1) size) ≡ false
within_bound bound size h = ground arith

module _ {c : Codec} (l : Laws c) where
  carry_string_array :
      (tx : List ℕ → TxStream → TxStream) (rx : Reader (List ℕ)) (b : Bool) (n : ℕ)
      (v : List (List ℕ))
      → HasLength b n (length v)
      → All IsNulFree v
      → Sends l (tx_vector c tx v) (rx_vector c rx) v
      → Carries l
          (λ s.
            if b
            then some (tx_vector c tx (map until_nul (take n v)) s)
            else some (tx_vector c tx (map until_nul v) s))
          (λ bs.
            rx_vector c rx bs >>= λ p. assign_strings b n p.0 >>= λ strings. some (strings, p.1))
          v
  unfolding assign_strings
  carry_string_array tx rx true n v len free k = record {
    items = k.items;
    sent = λ s. rw (sym len, take-length, map-until_nul v free) (k.sent s);
    read = λ rest. rw (k.read, sym len, first_strings-length v free) refl;
  }
  carry_string_array tx rx false n v len free k = record {
    items = k.items;
    sent = λ s. rw (map-until_nul v free) (k.sent s);
    read = λ rest. rw (k.read, map-until_nul v free) refl;
  }

  -- `P` is what makes a text fit for `tx` and `rx`.
  carry_strings :
      (tx : List ℕ → TxStream → TxStream) (rx : Reader (List ℕ)) (P : List ℕ → Type 0)
      → ((t : List ℕ) → P t → Sends l (tx t) rx t)
      → (sh : Shape) (v : Field sh (List ℕ)) → IsCText sh v
      → OnField P sh v
      → Carries l (serialize_strings c tx sh v) (deserialize_strings c rx sh) v
  unfolding serialize_strings deserialize_strings
  carry_strings tx rx P carry (single bound) v (free, short) h =
      let k : Sends l (tx v) rx v = carry v h in
      record {
        items = k.items;
        sent = λ s. rw (until_nul-IsNulFree v free, within_bound bound (length v) short) (k.sent s);
        read = λ rest. rw (k.read, until_nul-IsNulFree v free) refl;
      }
  carry_strings tx rx P carry (array_of n upper) v free (len, size, h) =
      carry_string_array tx rx (is_fixed n upper) n v len free
        (carry_vector l tx rx v size (All-imp _ _ v carry h))

  -- Every field that fits its type is written, and read back.
  pub carry_field :
      (lang : Language) (sh : Shape) (p : Primitive) (v : Field sh (Scalar p))
      → OnField (IsScalar p) sh v
      → IsText lang sh p v
      → Carries l (serialize_field c lang sh p v) (deserialize_field c lang sh p) v
  unfolding serialize_field deserialize_field serialize_u16strings deserialize_u16strings
  carry_field introspection_cpp sh p v h ht = carry_field_cpp l sh p v h
  carry_field introspection_c sh text v h ht =
      carry_strings (tx_string c) (rx_string c) (IsScalar text) (carry_string l) sh v ht h
  carry_field introspection_c sh wide_text v h ht =
      carry_strings (tx_u16string c) (rx_u16string c) (IsScalar wide_text)
        (λ t k. carry_u16string l t k.0 k.1) sh v ht h
  carry_field introspection_c sh p v h ht = carry_field_c l sh p v h
