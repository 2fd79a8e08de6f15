-- ===== src/Models/Wire/Messages.antt =====
-- The messages' fields: what Unmarshal makes of each, what MarshalTo writes and what Size counts.
use mathlib.Core.WellFounded.{Acc}
use mathlib.Core.Logic.{dite}
use native.Mathlib.Decide.{dec_lt}
use locket.Prelude.{
  ℕ, suc, ◌+◌, ◌-◌, ◌/◌, ◌%◌, ◌^◌, ◌<◌, String, Option, none, some, List, [], ◌∷◌, ◌++◌,
  if◌then◌else◌, ltb, nat_eq, length, arith,
}
use locket.Prelude.Bits.{lt_wf}
use locket.Prelude.Int64.{ℤ, pos, negsuc, eq_ℤ, to_int64}
use locket.Models.{Resource, LockRequest}
use locket.Models.Wire.Reading.{
  Decoded, done, failed, ◌>>=◌, read_varint, read_slice, wrong_wire_type,
}
use locket.Models.Wire.Unmarshal.{Field, unmarshal}

-- The bytes of a string, and the string of some bytes.
pub record Text : Type 0 where
  pub bytes_of : String → List ℕ
  pub string_of : List ℕ → String

-- The value of a varint in an int32, and of an integer in a uint64.
abbrev pub to_int32 : ℕ → ℤ
to_int32 n = if ltb n (2 ^ 31) then pos n else negsuc (2 ^ 32 - 1 - n)

abbrev pub to_uint64 : ℤ → ℕ
to_uint64 (pos n) = n
to_uint64 (negsuc n) = 2 ^ 64 - 1 - n

-- `Resource{}`
abbrev pub empty_resource : Resource
empty_resource = record { key = ""; owner = ""; value = ""; type = ""; type_code = pos 0 }

-- `LockRequest{}`
abbrev pub empty_request : LockRequest
empty_request = record { resource = none; ttl_in_seconds = pos 0 }

-- A length-delimited field, and what is made of its bytes.
unfoldable pub delimited_field : {M : Type 0} → (M → List ℕ → Decoded M) → Field M
delimited_field set wire_type m place =
    if nat_eq wire_type 2
    then (do
      (n, start) ← read_varint 64 place
      (bytes, end) ← read_slice n start
      m' ← set m bytes
      done (m', end))
    else failed wrong_wire_type

-- A varint field of so many bits.
unfoldable pub varint_field : {M : Type 0} → (width : ℕ) → (M → ℕ → M) → Field M
varint_field width set wire_type m place =
    if nat_eq wire_type 0
    then (do (n, end) ← read_varint width place; done (set m n, end))
    else failed wrong_wire_type

pub shifted-lt : (v : ℕ) → 127 < v → v / 128 < v
shifted-lt v h = omega arith

pub rest-lt : (x : ℕ) → 0 < x / 128 → x / 128 < x
rest-lt x h = omega arith

-- `for v >= 1<<7`
unfoldable pub encode_loop : (v : ℕ) → Acc ◌<◌ v → List ℕ
encode_loop v (Acc.intro _ smaller) =
    dite (dec_lt 127 v)
      (λ more. (v % 128 + 128) ∷ encode_loop (v / 128) (smaller (v / 128) (shifted-lt v more)))
      (λ _. v ∷ [])

unfoldable pub encode_varint : ℕ → List ℕ
unfolding encode_loop lt_wf dec_lt
encode_varint v = encode_loop v (lt_wf.apply v)

-- sovLocket: `for { n++; x >>= 7; if x == 0 { break } }`
unfoldable pub sov_loop : (x : ℕ) → Acc ◌<◌ x → ℕ
sov_loop x (Acc.intro _ smaller) =
    dite (dec_lt 0 (x / 128))
      (λ more. suc (sov_loop (x / 128) (smaller (x / 128) (rest-lt x more)))) (λ _. 1)

unfoldable pub sov : ℕ → ℕ
unfolding sov_loop lt_wf dec_lt
sov x = sov_loop x (lt_wf.apply x)

-- A field is written if its value is not the default; its size is that of the tag, the length and
-- the bytes.
unfoldable pub write_delimited : ℕ → List ℕ → List ℕ
write_delimited tag bytes = tag ∷ (encode_varint (length bytes) ++ bytes)

unfoldable pub write_string : ℕ → List ℕ → List ℕ
unfolding write_delimited
write_string tag [] = []
write_string tag (b ∷ bytes) = write_delimited tag (b ∷ bytes)

unfoldable pub write_varint : ℕ → ℤ → List ℕ
write_varint tag n = if eq_ℤ n (pos 0) then [] else tag ∷ encode_varint (to_uint64 n)

unfoldable pub size_string : List ℕ → ℕ
size_string bytes = if ltb 0 (length bytes) then 1 + length bytes + sov (length bytes) else 0

unfoldable pub size_varint : ℤ → ℕ
size_varint n = if eq_ℤ n (pos 0) then 0 else 1 + sov (to_uint64 n)

module _ (t : Text) where
  open t use {bytes_of, string_of}

  unfoldable pub string_field : {M : Type 0} → (M → String → M) → Field M
  string_field set = delimited_field λ m bytes. done (set m (string_of bytes))

  unfoldable pub resource_field : ℕ → Option (Field Resource)
  unfolding string_field
  resource_field number =
      if nat_eq number 1
      then some (string_field λ m s. record m { key = s })
      else if nat_eq number 2
      then some (string_field λ m s. record m { owner = s })
      else if nat_eq number 3
      then some (string_field λ m s. record m { value = s })
      else if nat_eq number 4
      then some (string_field λ m s. record m { type = s })
      else if nat_eq number 5
      then some (varint_field 32 λ m n. record m { type_code = to_int32 n })
      else none

  unfoldable pub marshal_resource : Resource → List ℕ
  unfolding write_string write_varint encode_varint
  marshal_resource m =
      write_string 0x0a (bytes_of m.key)
      ++ (write_string 0x12 (bytes_of m.owner)
          ++ (write_string 0x1a (bytes_of m.value)
              ++ (write_string 0x22 (bytes_of m.type) ++ write_varint 0x28 m.type_code)))

  unfoldable pub size_resource : Resource → ℕ
  unfolding size_string size_varint sov
  size_resource m =
      size_string (bytes_of m.key)
      + size_string (bytes_of m.owner)
      + size_string (bytes_of m.value)
      + size_string (bytes_of m.type)
      + size_varint m.type_code

  -- A resource that came before in the same message is read on into.
  unfoldable pub resource_or_new : Option Resource → Resource
  resource_or_new none = empty_resource
  resource_or_new (some r) = r

  unfoldable pub read_resource : Option Resource → List ℕ → Decoded (Option Resource)
  unfolding resource_or_new
  read_resource old bytes = do
    r ← unmarshal resource_field (resource_or_new old) bytes
    done (some r)

  unfoldable pub lock_request_field : ℕ → Option (Field LockRequest)
  unfolding read_resource
  lock_request_field number =
      if nat_eq number 1
      then some (
          delimited_field
            λ m bytes. do r ← read_resource m.resource bytes; done (record m { resource = r }))
      else if nat_eq number 2
      then some (varint_field 64 λ m n. record m { ttl_in_seconds = to_int64 n })
      else none

  unfoldable pub write_resource : ℕ → Option Resource → List ℕ
  unfolding encode_varint
  write_resource tag none = []
  write_resource tag (some r) = tag ∷ (encode_varint (size_resource r) ++ marshal_resource r)

  unfoldable pub size_of_resource : Option Resource → ℕ
  size_of_resource none = 0
  size_of_resource (some r) = 1 + size_resource r + sov (size_resource r)

  unfoldable pub marshal_lock_request : LockRequest → List ℕ
  unfolding write_resource write_varint marshal_resource encode_varint
  marshal_lock_request m = write_resource 0x0a m.resource ++ write_varint 0x10 m.ttl_in_seconds

  unfoldable pub size_lock_request : LockRequest → ℕ
  unfolding size_of_resource size_varint size_resource sov
  size_lock_request m = size_of_resource m.resource + size_varint m.ttl_in_seconds
