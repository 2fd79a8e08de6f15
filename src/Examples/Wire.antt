-- ===== src/Examples/Wire.antt =====
-- The codec at small messages. A text is the numbers of its characters, which for ASCII are the bytes.
use Prim.Native.Char.{Char, char, code, nul, IsLt, IsScalar}
use Prim.Native.Nat.{Ordering, compare}
use mathlib.Core.Path.{ap₂}
use text.Mathlib.TextEquality.{IsScalar-prop}
use locket.Prelude.{ℕ, ◌≡◌, ◌≢◌, ◌≤◌, refl, ap, String, some, List, [], ◌∷◌, ◌++◌, length, arith}
use locket.Prelude.Int64.{negsuc, max_int64}
use locket.Models.{Resource, LockRequest, lock_code}
use locket.Models.Wire.Reading.{
  read_varint, add_group, done, failed, panicked, stuck, unexpected_eof,
}
use locket.Models.Wire.Skipping.{skip}
use locket.Models.Wire.Unmarshal.{unmarshal}
use locket.Models.Wire.Messages.{
  Text, encode_varint, marshal_lock_request, size_lock_request, marshal_resource, size_resource,
  lock_request_field, resource_field, empty_resource, empty_request,
}
use locket.Models.Wire.Roundtrip.{IsText, unmarshal-marshal_lock_request}
use locket.Models.Wire.Sizes.{length-marshal}
use locket.Models.Wire.Termination.{unmarshal-ne-stuck}
use locket.Models.Wire.Overflow.{unmarshal_overflows}

abbrev BelowBoth : Ordering → Ordering → Type 0
BelowBoth Ordering.lt second = IsLt second
BelowBoth Ordering.eq second = ⊥
BelowBoth Ordering.gt second = ⊥

abbrev BelowOr : (first second third : Ordering) → Type 0
BelowOr Ordering.lt second third = Unit
BelowOr Ordering.eq second third = BelowBoth second third
BelowOr Ordering.gt second third = BelowBoth second third

abbrev decide_below : (o : Ordering) → Dec (IsLt o)
decide_below Ordering.lt = yes tt
decide_below Ordering.eq = no λ h. h
decide_below Ordering.gt = no λ h. h

abbrev decide_both : (first second : Ordering) → Dec (BelowBoth first second)
decide_both Ordering.lt second = decide_below second
decide_both Ordering.eq second = no λ h. h
decide_both Ordering.gt second = no λ h. h

abbrev decide_scalar : (first second third : Ordering) → Dec (BelowOr first second third)
decide_scalar Ordering.lt second third = yes tt
decide_scalar Ordering.eq second third = decide_both second third
decide_scalar Ordering.gt second third = decide_both second third

abbrev char_if : (n : ℕ) → Dec (IsScalar n) → Char
char_if n (yes s) = char n s
char_if n (no _) = nul

abbrev char_of : ℕ → Char
char_of n = char_if n (decide_scalar (compare n 55296) (compare 57343 n) (compare n 1114112))

char_if-code : (n : ℕ) (s : IsScalar n) (d : Dec (IsScalar n)) → char_if n d ≡ char n s
char_if-code n s (yes s') = ap (char n) (IsScalar-prop n s' s)
char_if-code n s (no h) = absurd (h s)

char_of-code : (c : Char) → char_of (code c) ≡ c
char_of-code (char n s) = char_if-code n s _

abbrev codes_of : String → List ℕ
codes_of String.[] = []
codes_of (String.◌∷◌ c s) = code c ∷ codes_of s

abbrev text_of : List ℕ → String
text_of [] = ""
text_of (n ∷ ns) = String.◌∷◌ (char_of n) (text_of ns)

text_of-codes_of : (s : String) → text_of (codes_of s) ≡ s
text_of-codes_of String.[] = refl
text_of-codes_of (String.◌∷◌ c s) = ap₂ String.◌∷◌ (char_of-code c) (text_of-codes_of s)

abbrev codes : Text
codes = record { bytes_of = codes_of; string_of = text_of }

codes-IsText : IsText codes
codes-IsText = record { string_of-bytes_of = text_of-codes_of; bytes_of_empty = refl }

abbrev cell : Resource
cell = record { key = "cell"; owner = "alice"; value = ""; type = "lock"; type_code = lock_code }

abbrev request : LockRequest
request = record { resource = some cell; ttl_in_seconds = negsuc 0 }

abbrev encoded : List ℕ
encoded =
    10 ∷ 21 ∷ 10 ∷ 4 ∷ 99 ∷ 101 ∷ 108 ∷ 108 ∷ 18 ∷ 5 ∷ 97 ∷ 108 ∷ 105 ∷ 99 ∷ 101 ∷ 34 ∷ 4 ∷ 108
    ∷ 111 ∷ 99 ∷ 107 ∷ 40 ∷ 1 ∷ 16 ∷ 255 ∷ 255 ∷ 255 ∷ 255 ∷ 255 ∷ 255 ∷ 255 ∷ 255 ∷ 255 ∷ 1 ∷ []

marshal_request : marshal_lock_request codes request ≡ encoded
unfolding marshal_lock_request size_resource
marshal_request = refl

encoded_room : length (marshal_lock_request codes request) ≤ max_int64
unfolding marshal_lock_request size_resource
encoded_room = omega arith

unmarshal-marshal_lock_request_example :
    unmarshal (lock_request_field codes) empty_request (marshal_lock_request codes request)
    ≡ done request
unmarshal-marshal_lock_request_example =
    unmarshal-marshal_lock_request codes codes-IsText request (omega arith) (omega arith)
      encoded_room

length-marshal_example :
    (length (marshal_lock_request codes request) ≡ size_lock_request codes request)
    × (length (marshal_resource codes cell) ≡ size_resource codes cell)
length-marshal_example = length-marshal codes request cell

-- A group with a field of no known number in it, which is not closed.
abbrev open_group : List ℕ
open_group = 59 ∷ 8 ∷ 1 ∷ 67 ∷ []

open_group_fails :
    unmarshal (lock_request_field codes) empty_request open_group ≡ failed unexpected_eof
unfolding unmarshal lock_request_field read_varint add_group skip
open_group_fails = refl

unmarshal-ne-stuck_example :
    (unmarshal (lock_request_field codes) empty_request open_group ≢ stuck)
    × (unmarshal (resource_field codes) empty_resource open_group ≢ stuck)
unmarshal-ne-stuck_example = unmarshal-ne-stuck codes open_group empty_request empty_resource

unmarshal_overflows_example :
    (unmarshal (lock_request_field codes) empty_request (0x0a ∷ (encode_varint max_int64 ++ []))
      ≡ panicked)
    × (unmarshal (resource_field codes) empty_resource (0x0a ∷ (encode_varint max_int64 ++ []))
        ≡ panicked)
unfolding encode_varint
unmarshal_overflows_example =
    unmarshal_overflows codes empty_request empty_resource max_int64 [] (omega arith) (omega arith)
