-- ===== src/Models/Types.antt =====
-- The type and the type code of a resource agree after `get_resource`.
use locket.Prelude.{◌≡◌, ◌⊎◌, arith, eq_iff, inl, inr}
use locket.Models.{Resource, unknown_code, lock_code, presence_code, get_type_code, get_resource}

-- GetResource of what GetResource returns is the same resource, for every type code.
pub get_resource_idem : (r : Resource) → get_resource (get_resource r) ≡ get_resource r
unfolding get_resource
get_resource_idem r = ground (arith, eq_iff r.type "lock", eq_iff r.type "presence")

-- For a resource whose type code is in the enum, GetTypeCode of the type that GetResource gives is the
-- type code that it gives, so a row is read back with the type code that was locked.
pub get_type_code-get_resource :
    (r : Resource)
    → (r.type_code ≡ unknown_code) ⊎ (r.type_code ≡ lock_code) ⊎ (r.type_code ≡ presence_code)
    → get_type_code (get_resource r).type ≡ (get_resource r).type_code
unfolding get_resource
get_type_code-get_resource r (inl e) = rw e
get_type_code-get_resource r (inr (inl e)) = rw e
get_type_code-get_resource r (inr (inr e)) = rw e
