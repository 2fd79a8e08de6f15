-- ===== src/Models/Wire/Queries.antt =====
-- The requests for one resource and for all of a type: their codecs, and that they are read back.
use mathlib.Core.List.{append-nil}
use locket.Prelude.{
  ℕ, ◌≤◌, ◌≡◌, refl, subst, ap, Option, none, some, List, [], ◌++◌, if◌then◌else◌, nat_eq, length,
  arith,
}
use locket.Prelude.Int64.{pos, max_int64}
use locket.Models.{FetchRequest, FetchAllRequest}
use locket.Models.Wire.Reading.{done}
use locket.Models.Wire.Unmarshal.{Field, unmarshal}
use locket.Models.Wire.Messages.{
  Text, to_int32, write_string, write_varint, varint_field, string_field,
}
use locket.Models.Wire.Fields.{Decodes, Decodes-nil, write_varint-Decodes}
use locket.Models.Wire.Roundtrip.{
  IsText, IsInt32, string-Decodes, to_int32-to_uint64, to_uint64-lt, IsInt32-IsInt64,
}

abbrev pub empty_fetch_request : FetchRequest
empty_fetch_request = record { key = "" }

abbrev pub empty_fetch_all_request : FetchAllRequest
empty_fetch_all_request = record { type = ""; type_code = pos 0 }

module _ (t : Text) where
  open t use {bytes_of}

  unfoldable pub fetch_request_field : ℕ → Option (Field FetchRequest)
  fetch_request_field number =
      if nat_eq number 1 then some (string_field t λ m s. record m { key = s }) else none

  unfoldable pub marshal_fetch_request : FetchRequest → List ℕ
  marshal_fetch_request m = write_string 0x0a (bytes_of m.key)

  unfoldable pub fetch_all_request_field : ℕ → Option (Field FetchAllRequest)
  fetch_all_request_field number =
      if nat_eq number 1
      then some (string_field t λ m s. record m { type = s })
      else if nat_eq number 2
      then some (varint_field 32 λ m n. record m { type_code = to_int32 n })
      else none

  unfoldable pub marshal_fetch_all_request : FetchAllRequest → List ℕ
  marshal_fetch_all_request m = write_string 0x0a (bytes_of m.type) ++ write_varint 0x10 m.type_code

module _ (t : Text) (laws : IsText t) where
  fetch_request-Decodes :
      (m : FetchRequest)
      → Decodes (fetch_request_field t) empty_fetch_request (marshal_fetch_request t m) (done m)
  unfolding fetch_request_field marshal_fetch_request
  fetch_request-Decodes m =
      subst (λ bytes. Decodes (fetch_request_field t) empty_fetch_request bytes (done m))
        (append-nil _)
        (string-Decodes t laws (fetch_request_field t) 0x0a (λ m s. record m { key = s })
          empty_fetch_request m.key [] (done m) (omega arith) refl refl
          (Decodes-nil (fetch_request_field t) m))

  fetch_all_request-Decodes :
      (m : FetchAllRequest)
      → IsInt32 m.type_code
      → Decodes
          (fetch_all_request_field t)
          empty_fetch_all_request
          (marshal_fetch_all_request t m)
          (done m)
  unfolding fetch_all_request_field marshal_fetch_all_request
  fetch_all_request-Decodes m c =
      string-Decodes t laws (fetch_all_request_field t) 0x0a (λ m s. record m { type = s })
        empty_fetch_all_request m.type _ (done m) (omega arith) refl refl
        (subst (λ bytes. Decodes (fetch_all_request_field t) typed bytes (done m)) (append-nil _)
          (write_varint-Decodes (fetch_all_request_field t) 0x10 32 _ typed m m.type_code []
            (done m) (omega arith) (omega arith) refl refl
            (to_uint64-lt m.type_code (IsInt32-IsInt64 m.type_code c))
            (ap (λ n. record typed { type_code = n }) (to_int32-to_uint64 m.type_code c))
            (λ e. ap (λ n. record typed { type_code = n }) e)
            (Decodes-nil (fetch_all_request_field t) m)))
    where
      typed : FetchAllRequest
      typed = record empty_fetch_all_request { type = m.type }

  -- A FetchRequest and a FetchAllRequest are read back from what was written of them, if the type code
  -- is an int32 and what was written has the length of a slice.
  pub unmarshal-marshal_queries :
      (m : FetchRequest) (n : FetchAllRequest)
      → length (marshal_fetch_request t m) ≤ max_int64
      → IsInt32 n.type_code
      → length (marshal_fetch_all_request t n) ≤ max_int64
      → (unmarshal (fetch_request_field t) empty_fetch_request (marshal_fetch_request t m) ≡ done m)
        × (unmarshal
              (fetch_all_request_field t)
              empty_fetch_all_request
              (marshal_fetch_all_request t n)
            ≡ done n)
  unfolding unmarshal
  unmarshal-marshal_queries m n h c k = (
    fetch_request-Decodes m 0 _ (omega (arith, h)) (omega arith),
    fetch_all_request-Decodes n c 0 _ (omega (arith, k)) (omega arith),
  )
