-- ===== src/Models/Wire/Overflow.antt =====
-- A length that leads beyond what an int holds.
use locket.Prelude.{
  ℕ, ◌+◌, ◌≤◌, ◌<◌, ◌≡◌, refl, Option, some, List, ◌∷◌, ◌++◌, length, arith, ltb, if◌then◌else◌,
}
use locket.Prelude.Int64.{max_int64}
use locket.Models.{Resource, LockRequest}
use locket.Models.Wire.Reading.{Decoded, panicked, failed, unexpected_eof, read_slice}
use locket.Models.Wire.Unmarshal.{Field, unmarshal_field, unmarshal_loop, unmarshal}
use locket.Models.Wire.Messages.{
  Text, encode_varint, delimited_field, string_field, resource_field, lock_request_field,
}
use locket.Models.Wire.Varint.{read_varint-encode, read_varint_tag}

-- What Unmarshal comes to for a length, with `index` the place of what follows it.
abbrev pub beyond : {A : Type 0} → ℕ → ℕ → Decoded A
beyond index n = if ltb max_int64 (index + n) then panicked else failed unexpected_eof

read_slice-beyond :
    (n index : ℕ) (rest : List ℕ)
    → n ≤ max_int64
    → length rest < n
    → read_slice n (index, rest) ≡ beyond index n
unfolding read_slice
read_slice-beyond n index rest h k = ground arith

field_beyond :
    {M : Type 0} (fields : ℕ → Option (Field M)) (set : M → List ℕ → Decoded M) (m : M) (n : ℕ)
    (rest : List ℕ)
    → fields 1 ≡ some (delimited_field set)
    → n ≤ max_int64
    → length rest < n
    → unmarshal fields m (0x0a ∷ (encode_varint n ++ rest))
      ≡ beyond (1 + length (encode_varint n)) n
unfolding unmarshal unmarshal_loop unmarshal_field delimited_field
field_beyond fields set m n rest f h k = ground (
  arith,
  read_varint_tag 0 0x0a (encode_varint n ++ rest),
  f,
  read_varint-encode 64 1 n rest,
  read_slice-beyond n (1 + length (encode_varint n)) rest h k,
)

-- A LockRequest that starts with a resource, or a Resource that starts with a key, of a length which is
-- an int and leads beyond the end of the bytes: Unmarshal answers the error unexpected-EOF, unless the
-- sum of the length and of the index of what follows it is no int; then it panics.
pub unmarshal_overflows :
    (t : Text) (m : LockRequest) (r : Resource) (n : ℕ) (rest : List ℕ)
    → n ≤ max_int64
    → length rest < n
    → (unmarshal (lock_request_field t) m (0x0a ∷ (encode_varint n ++ rest)) ≡ (
        if ltb max_int64 (1 + length (encode_varint n) + n)
        then panicked
        else failed unexpected_eof))
      × (unmarshal (resource_field t) r (0x0a ∷ (encode_varint n ++ rest)) ≡ (
          if ltb max_int64 (1 + length (encode_varint n) + n)
          then panicked
          else failed unexpected_eof))
unfolding lock_request_field resource_field string_field
unmarshal_overflows t m r n rest h k = (
  field_beyond (lock_request_field t) _ m n rest refl h k,
  field_beyond (resource_field t) _ r n rest refl h k,
)
