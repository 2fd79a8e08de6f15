-- ===== src/Models/Wire/Sizes.antt =====
-- Marshal makes a slice of the length that Size gives, and MarshalTo writes into it.
use locket.Prelude.{
  ℕ, ◌+◌, ◌≡◌, refl, sym, ap, ◌∙◌, Option, none, some, List, [], ◌∷◌, ◌++◌, length, length-append,
  arith,
}
use locket.Prelude.Int64.{ℤ}
use locket.Models.{Resource, LockRequest}
use locket.Models.Wire.Messages.{
  Text, encode_varint, sov, write_delimited, write_string, write_varint, size_string, size_varint,
  marshal_resource, size_resource, write_resource, size_of_resource, marshal_lock_request,
  size_lock_request, to_uint64,
}
use locket.Models.Wire.Varint.{length-encode_varint}

length-write_delimited :
    (tag : ℕ) (bytes : List ℕ)
    → length (write_delimited tag bytes) ≡ 1 + length bytes + sov (length bytes)
unfolding write_delimited
length-write_delimited tag bytes =
    omega (
      arith,
      length-append (encode_varint (length bytes)) bytes,
      length-encode_varint (length bytes),
    )

length-write_string :
    (tag : ℕ) (bytes : List ℕ) → length (write_string tag bytes) ≡ size_string bytes
unfolding write_string size_string
length-write_string tag [] = refl
length-write_string tag (b ∷ bytes) = ground (arith, length-write_delimited tag (b ∷ bytes))

length-write_varint : (tag : ℕ) (n : ℤ) → length (write_varint tag n) ≡ size_varint n
unfolding write_varint size_varint
length-write_varint tag n = ground (arith, length-encode_varint (to_uint64 n))

module _ (t : Text) where
  open t use {bytes_of}

  pub length-marshal_resource : (r : Resource) → length (marshal_resource t r) ≡ size_resource t r
  unfolding marshal_resource size_resource
  length-marshal_resource r =
      rw (length-append, length-append, length-append, length-append)
        (omega (
          arith,
          length-write_string 0x0a (bytes_of r.key),
          length-write_string 0x12 (bytes_of r.owner),
          length-write_string 0x1a (bytes_of r.value),
          length-write_string 0x22 (bytes_of r.type),
          length-write_varint 0x28 r.type_code,
        ))

  -- What Size counts of a resource is written in front of it, and is the length of what follows.
  pub write_resource_lem :
      (tag : ℕ) (r : Resource)
      → write_resource t tag (some r) ≡ write_delimited tag (marshal_resource t r)
  unfolding write_resource write_delimited
  write_resource_lem tag r =
      ap (λ n. tag ∷ (encode_varint n ++ marshal_resource t r)) (sym (length-marshal_resource r))

  length-write_resource :
      (tag : ℕ) (o : Option Resource) → length (write_resource t tag o) ≡ size_of_resource t o
  unfolding write_resource size_of_resource
  length-write_resource tag none = refl
  length-write_resource tag (some r) =
      ap length (write_resource_lem tag r)
      ∙ length-write_delimited tag (marshal_resource t r)
      ∙ ap (λ n. 1 + n + sov n) (length-marshal_resource r)

  -- What MarshalTo writes of a LockRequest, and of the resource in it, fills the slice that Marshal has
  -- made for it, exactly: its length is that which Size gives.
  pub length-marshal :
      (m : LockRequest) (r : Resource)
      → (length (marshal_lock_request t m) ≡ size_lock_request t m)
        × (length (marshal_resource t r) ≡ size_resource t r)
  unfolding marshal_lock_request size_lock_request
  length-marshal m r = (
    omega (
      arith,
      length-append (write_resource t 0x0a m.resource) (write_varint 0x10 m.ttl_in_seconds),
      length-write_resource 0x0a m.resource,
      length-write_varint 0x10 m.ttl_in_seconds,
    ),
    length-marshal_resource r,
  )
