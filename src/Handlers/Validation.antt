-- ===== src/Handlers/Validation.antt =====
-- Which requests pass `validate`.
use locket.Prelude.{String, ◌≡◌, ◌⊎◌, ◌↔◌, none, arith, eq_iff, inl, inr}
use locket.Models.{TypeCode, unknown_code, lock_code, presence_code, lock_type, presence_type}
use locket.Handlers.{validate_type}

-- The type names a kind of lock that the type code agrees with, where both are given.
abbrev pub IsConsistent : String → TypeCode → Type 0
IsConsistent type code =
    ((code ≡ unknown_code) × ((type ≡ lock_type) ⊎ (type ≡ presence_type)))
    ⊎ ((code ≡ lock_code) × ((type ≡ "") ⊎ (type ≡ lock_type)))
    ⊎ ((code ≡ presence_code) × ((type ≡ "") ⊎ (type ≡ presence_type)))

pub validate_type_sound :
    (type : String) (code : TypeCode) → validate_type type code ≡ none → IsConsistent type code
unfolding validate_type
validate_type_sound type code h =
    ground (arith, eq_iff type "", eq_iff type lock_type, eq_iff type presence_type)

validate_type_complete :
    (type : String) (code : TypeCode) → IsConsistent type code → validate_type type code ≡ none
unfolding validate_type
validate_type_complete type code (inl (c, inl t)) = rw (c, t)
validate_type_complete type code (inl (c, inr t)) = rw (c, t)
validate_type_complete type code (inr (inl (c, inl t))) = rw (c, t)
validate_type_complete type code (inr (inl (c, inr t))) = rw (c, t)
validate_type_complete type code (inr (inr (c, inl t))) = rw (c, t)
validate_type_complete type code (inr (inr (c, inr t))) = rw (c, t)

-- `validate` accepts a type and a type code exactly if they are consistent.
pub validate_type_iff :
    (type : String) (code : TypeCode) → (validate_type type code ≡ none) ↔ IsConsistent type code
validate_type_iff type code = (validate_type_sound type code, validate_type_complete type code)
