-- ===== src/Models/Wire/Roundtrip.antt =====
-- A message that was marshalled is unmarshalled as it was.
use mathlib.Core.List.{append-nil}
use locket.Prelude.{
  ℕ, ◌/◌, ◌%◌, ◌^◌, ◌≤◌, ◌<◌, ◌≡◌, refl, sym, subst, ap, ◌∙◌, String, Option, none, some, List, [],
  ◌++◌, length, length-append, arith,
}
use locket.Prelude.Int64.{ℤ, pos, negsuc, max_int64, to_int64}
use locket.Models.{Resource, LockRequest}
use locket.Models.Wire.Reading.{Decoded, done}
use locket.Models.Wire.Unmarshal.{Field, unmarshal}
use locket.Models.Wire.Messages.{
  Text, to_int32, to_uint64, empty_resource, empty_request, resource_field, marshal_resource,
  lock_request_field, marshal_lock_request, write_resource, write_varint, write_string,
  string_field, read_resource, resource_or_new, write_delimited, encode_varint,
}
use locket.Models.Wire.Sizes.{write_resource_lem}
use locket.Models.Wire.Fields.{
  Decodes, Decodes-nil, write_string-Decodes, write_varint-Decodes, write_delimited-Decodes,
}

-- A Go string is converted to its bytes and back without a change.
pub record IsText (t : Text) : Type 0 where
  pub string_of-bytes_of : (s : String) → t.string_of (t.bytes_of s) ≡ s
  pub bytes_of_empty : t.bytes_of "" ≡ []

-- The integers of a width, by their bits in a uint64.
abbrev pub IsInt32 : ℤ → Type 0
IsInt32 (pos n) = n < 2 ^ 31
IsInt32 (negsuc n) = n < 2 ^ 31

abbrev pub IsInt64 : ℤ → Type 0
IsInt64 (pos n) = n < 2 ^ 63
IsInt64 (negsuc n) = n < 2 ^ 63

-- The type code of the resource, if there is one.
abbrev pub CodeIsInt32 : Option Resource → Type 0
CodeIsInt32 none = Unit
CodeIsInt32 (some r) = IsInt32 r.type_code

pub to_int32-to_uint64 : (n : ℤ) → IsInt32 n → to_int32 (to_uint64 n % 2 ^ 32) ≡ n
to_int32-to_uint64 (pos n) h = ground arith
to_int32-to_uint64 (negsuc n) h = ground arith

to_int64-to_uint64 : (n : ℤ) → IsInt64 n → to_int64 (to_uint64 n % 2 ^ 64) ≡ n
to_int64-to_uint64 (pos n) h = ground arith
to_int64-to_uint64 (negsuc n) h = ground arith

pub to_uint64-lt : (n : ℤ) → IsInt64 n → to_uint64 n < 2 ^ 64
to_uint64-lt (pos n) h = omega arith
to_uint64-lt (negsuc n) h = omega arith

pub IsInt32-IsInt64 : (n : ℤ) → IsInt32 n → IsInt64 n
IsInt32-IsInt64 (pos n) h = omega arith
IsInt32-IsInt64 (negsuc n) h = omega arith

module _ (t : Text) (laws : IsText t) where
  open t use {bytes_of, string_of}

  bytes_of_nil : (s : String) → bytes_of s ≡ [] → s ≡ ""
  bytes_of_nil s e =
      sym (laws.string_of-bytes_of s)
      ∙ ap string_of (e ∙ sym laws.bytes_of_empty)
      ∙ laws.string_of-bytes_of ""

  -- A string field, where the empty string is what the message has before.
  pub string-Decodes :
      {M : Type 0} (fields : ℕ → Option (Field M)) (tag : ℕ) (set : M → String → M) (m : M)
      (s : String) (rest : List ℕ) (r : Decoded M)
      → (8 ≤ tag) × (tag < 128) × (tag % 8 ≡ 2)
      → fields (tag / 8 % 2 ^ 32) ≡ some (string_field t set)
      → set m "" ≡ m
      → Decodes fields (set m s) rest r
      → Decodes fields m (write_string tag (bytes_of s) ++ rest) r
  unfolding string_field
  string-Decodes fields tag set m s rest r (a, b, c) f e d =
      write_string-Decodes fields tag _ m (set m s) (bytes_of s) rest r a b c f
        (ap (λ x. done (set m x)) (laws.string_of-bytes_of s))
        (λ n. ap (set m) (bytes_of_nil s n) ∙ e) d

  resource-Decodes :
      (r : Resource)
      → IsInt32 r.type_code
      → Decodes (resource_field t) empty_resource (marshal_resource t r) (done r)
  unfolding resource_field marshal_resource
  resource-Decodes r c =
      string-Decodes fields 0x0a (λ m s. record m { key = s }) empty_resource r.key _ (done r)
        (omega arith) refl refl
        (string-Decodes fields 0x12 (λ m s. record m { owner = s }) m₁ r.owner _ (done r)
          (omega arith) refl refl
          (string-Decodes fields 0x1a (λ m s. record m { value = s }) m₂ r.value _ (done r)
            (omega arith) refl refl
            (string-Decodes fields 0x22 (λ m s. record m { type = s }) m₃ r.type _ (done r)
              (omega arith) refl refl
              (subst (λ bytes. Decodes fields m₄ bytes (done r)) (append-nil _)
                (write_varint-Decodes fields 0x28 32 _ m₄ r r.type_code [] (done r) (omega arith)
                  (omega arith) refl refl (to_uint64-lt r.type_code (IsInt32-IsInt64 r.type_code c))
                  (ap (λ n. record m₄ { type_code = n }) (to_int32-to_uint64 r.type_code c))
                  (λ e. ap (λ n. record m₄ { type_code = n }) e) (Decodes-nil fields r))))))
    where
      fields : ℕ → Option (Field Resource)
      fields = resource_field t

      m₁ : Resource
      m₁ = record empty_resource { key = r.key }

      m₂ : Resource
      m₂ = record m₁ { owner = r.owner }

      m₃ : Resource
      m₃ = record m₂ { value = r.value }

      m₄ : Resource
      m₄ = record m₃ { type = r.type }

  -- A resource is read back from what was written of it, if its type code is an int32 and what was
  -- written has the length of a slice.
  pub unmarshal-marshal_resource :
      (r : Resource)
      → IsInt32 r.type_code
      → length (marshal_resource t r) ≤ max_int64
      → unmarshal (resource_field t) empty_resource (marshal_resource t r) ≡ done r
  unfolding unmarshal
  unmarshal-marshal_resource r c h = resource-Decodes r c 0 _ (omega (arith, h)) (omega arith)

  ttl-Decodes :
      (m : LockRequest)
      → IsInt64 m.ttl_in_seconds
      → Decodes
          (lock_request_field t)
          (record m { ttl_in_seconds = pos 0 })
          (write_varint 0x10 m.ttl_in_seconds)
          (done m)
  unfolding lock_request_field
  ttl-Decodes m h =
      subst
        (λ bytes.
          Decodes (lock_request_field t) (record m { ttl_in_seconds = pos 0 }) bytes (done m))
        (append-nil _)
        (write_varint-Decodes (lock_request_field t) 0x10 64 _ (record m { ttl_in_seconds = pos 0 })
          m m.ttl_in_seconds [] (done m) (omega arith) (omega arith) refl refl
          (to_uint64-lt m.ttl_in_seconds h)
          (ap (λ n. record m { ttl_in_seconds = n }) (to_int64-to_uint64 m.ttl_in_seconds h))
          (λ e. ap (λ n. record m { ttl_in_seconds = n }) e) (Decodes-nil (lock_request_field t) m))

  abbrev request : Option Resource → ℤ → LockRequest
  request o n = record { resource = o; ttl_in_seconds = n }

  resource-lt-request :
      (r : Resource) (n : ℤ)
      → length (marshal_resource t r) ≤ length (marshal_lock_request t (request (some r) n))
  unfolding marshal_lock_request write_delimited
  resource-lt-request r n = omega (
    arith,
    ap (λ xs. length (xs ++ write_varint 0x10 n)) (write_resource_lem t 0x0a r),
    length-append (encode_varint (length (marshal_resource t r)) ++ marshal_resource t r)
        (write_varint 0x10 n),
    length-append (encode_varint (length (marshal_resource t r))) (marshal_resource t r),
  )

  request-Decodes :
      (o : Option Resource) (n : ℤ)
      → CodeIsInt32 o
      → IsInt64 n
      → length (marshal_lock_request t (request o n)) ≤ max_int64
      → Decodes
          (lock_request_field t)
          empty_request
          (marshal_lock_request t (request o n))
          (done (request o n))
  unfolding marshal_lock_request lock_request_field read_resource write_resource resource_or_new
  request-Decodes none n c h l = ttl-Decodes (request none n) h
  request-Decodes (some r) n c h l =
      subst
        (λ bytes.
          Decodes (lock_request_field t) empty_request (bytes ++ write_varint 0x10 n)
            (done (request (some r) n)))
        (sym (write_resource_lem t 0x0a r))
        (write_delimited-Decodes (lock_request_field t) 0x0a _ empty_request
          (request (some r) (pos 0)) (marshal_resource t r) (write_varint 0x10 n)
          (done (request (some r) n)) (omega arith) (omega arith) refl refl
          (rw (unmarshal-marshal_resource r c (omega (arith, l, resource-lt-request r n))) refl)
          (ttl-Decodes (request (some r) n) h))

  -- A LockRequest is read back from what was written of it, its resource included, if its TTL is an
  -- int64, the type code of its resource an int32, and what was written has the length of a slice.
  pub unmarshal-marshal_lock_request :
      (m : LockRequest)
      → CodeIsInt32 m.resource
      → IsInt64 m.ttl_in_seconds
      → length (marshal_lock_request t m) ≤ max_int64
      → unmarshal (lock_request_field t) empty_request (marshal_lock_request t m) ≡ done m
  unfolding unmarshal
  unmarshal-marshal_lock_request m c h l =
      request-Decodes m.resource m.ttl_in_seconds c h l 0 _ (omega (arith, l)) (omega arith)
