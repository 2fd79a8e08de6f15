-- ===== src/Models/Wire/Termination.antt =====
-- Unmarshal ends on every input.
use locket.Prelude.{
  ℕ, zero, suc, ◌+◌, ◌-◌, ◌*◌, ◌/◌, ◌%◌, ◌^◌, ◌≤◌, ◌<◌, ◌≢◌, String, Option, none, some, List, [],
  ◌∷◌, length, arith, nat_eq, ltb, ◌||◌,
}
use locket.Prelude.Int64.{ℤ, pos, negsuc, max_int64, to_int64}
use locket.Models.{Resource, LockRequest}
use locket.Models.Wire.Reading.{Decoded, stuck, Place}
use locket.Models.Wire.Unmarshal.{
  Field, leave_out, by_field, unmarshal_field, unmarshal_loop, unmarshal,
}
use locket.Models.Wire.Messages.{
  Text, delimited_field, varint_field, string_field, resource_field, lock_request_field,
  read_resource, resource_or_new, to_int32,
}
use locket.Models.Wire.Ensures.{
  Ensures, Ensures->>=, Ensures-mono, Ensures-ne-stuck, if_either, Advances, read_varint-Advances,
  read_slice-Shrinks, length-drop_lt,
}
use locket.Models.Wire.Forward.{IsForward, skip-IsForward}

-- No more is left than there was; and less.
abbrev Leaves : {A : Type 0} → Place → A × Place → Type 0
Leaves before after = length after.1.1 ≤ length before.1

abbrev LeavesLess : {A : Type 0} → Place → A × Place → Type 0
LeavesLess before after = length after.1.1 < length before.1

abbrev Ends : {M : Type 0} → Option (Field M) → Type 0
Ends none = Unit
Ends {M} (some f) =
    (wire_type : ℕ) (m : M) (place : Place) → Ensures (Leaves place) (f wire_type m place)

delimited-Ends :
    {M : Type 0} (set : M → List ℕ → Decoded M)
    → ((m : M) (bytes : List ℕ) → Ensures (λ _. Unit) (set m bytes))
    → Ends (some (delimited_field set))
unfolding delimited_field
delimited-Ends set h wire_type m place =
    if_either (Ensures (Leaves place)) (nat_eq wire_type 2) _ _
      (Ensures->>= (Advances place) (Leaves place) _ _ (read_varint-Advances 64 place) λ a p.
        Ensures->>= (Leaves a.1) (Leaves place) _ _ (read_slice-Shrinks a.0 a.1)
          λ b q. Ensures->>= (λ _. Unit) (Leaves place) _ _ (h m b.0) (λ _ _. omega (arith, p, q)))
      tt

varint-Ends : {M : Type 0} (width : ℕ) (set : M → ℕ → M) → Ends (some (varint_field width set))
unfolding varint_field
varint-Ends width set wire_type m place =
    if_either (Ensures (Leaves place)) (nat_eq wire_type 0) _ _
      (Ensures->>= (Advances place) (Leaves place) _ _ (read_varint-Advances width place)
        λ a p. omega (arith, p))
      tt

leave_out-LeavesLess :
    {M : Type 0} (m : M) (n : ℤ) (place : Place)
    → IsForward n
    → 1 ≤ length place.1
    → Ensures (LeavesLess place) (leave_out m n place)
unfolding leave_out
leave_out-LeavesLess m (negsuc n) place h k = tt
leave_out-LeavesLess m (pos n) (index, bytes) h k =
    if_either (Ensures (LeavesLess (index, bytes))) (ltb max_int64 (index + n)) _ _ tt (
      if_either (Ensures (LeavesLess (index, bytes))) (ltb (length bytes) n) _ _ tt
        (length-drop_lt n bytes h k))

module _ {M : Type 0} (fields : ℕ → Option (Field M))
    (h : (number : ℕ) → Ends (fields number)) where
  by_field-LeavesLess :
      (o : Option (Field M)) (wire_type : ℕ) (m : M) (after before : Place)
      → Ends o
      → length after.1 < length before.1
      → Ensures (LeavesLess before) (by_field fields o wire_type m after before)
  unfolding by_field
  by_field-LeavesLess none wire_type m after before e p =
      Ensures->>= IsForward (LeavesLess before) _ _
        (skip-IsForward (2 * length before.1) before.1 (omega (arith, p)) (omega arith))
        λ n q. leave_out-LeavesLess m n before q (omega (arith, p))
  by_field-LeavesLess (some f) wire_type m after before e p =
      Ensures-mono (Leaves after) (LeavesLess before) _ (λ a q. omega (arith, p, q))
        (e wire_type m after)

  unmarshal_field-LeavesLess :
      (m : M) (before : Place) → Ensures (LeavesLess before) (unmarshal_field fields m before)
  unfolding unmarshal_field
  unmarshal_field-LeavesLess m before =
      Ensures->>= (Advances before) (LeavesLess before) _ _ (read_varint-Advances 64 before) λ a p.
        if_either (Ensures (LeavesLess before)) (nat_eq (a.0 % 8) 4) _ _ tt (
          if_either (Ensures (LeavesLess before))
            (nat_eq (a.0 / 8 % 2 ^ 32) 0 || ltb (2 ^ 31 - 1) (a.0 / 8 % 2 ^ 32)) _ _ tt
            (by_field-LeavesLess (fields (a.0 / 8 % 2 ^ 32)) (a.0 % 8) m a.1 before
              (h (a.0 / 8 % 2 ^ 32)) (omega (arith, p))))

  unmarshal_loop_ends :
      (fuel : ℕ) (m : M) (place : Place)
      → length place.1 ≤ fuel
      → Ensures (λ _. Unit) (unmarshal_loop fields fuel m place)
  unfolding unmarshal_loop
  unmarshal_loop_ends zero m (index, []) k = tt
  unmarshal_loop_ends (suc fuel) m (index, []) k = tt
  unmarshal_loop_ends zero m (index, b ∷ bytes) k = absurd (omega arith)
  unmarshal_loop_ends (suc fuel) m (index, b ∷ bytes) k =
      Ensures->>= (LeavesLess (index, b ∷ bytes)) (λ _. Unit) _ _
        (unmarshal_field-LeavesLess m (index, b ∷ bytes))
        λ a p. unmarshal_loop_ends fuel a.0 a.1 (omega (arith, p, k))

  unmarshal_ends : (m : M) (bytes : List ℕ) → Ensures (λ _. Unit) (unmarshal fields m bytes)
  unfolding unmarshal
  unmarshal_ends m bytes = unmarshal_loop_ends (length bytes) m (0, bytes) (omega arith)

module _ (t : Text) where
  string-Ends : {M : Type 0} (set : M → String → M) → Ends (some (string_field t set))
  unfolding string_field
  string-Ends set = delimited-Ends _ (λ m bytes. tt)

  resource-Ends : (number : ℕ) → Ends (resource_field t number)
  unfolding resource_field
  resource-Ends number =
      if_either Ends (nat_eq number 1) _ _ (string-Ends λ m s. record m { key = s }) (
        if_either Ends (nat_eq number 2) _ _ (string-Ends λ m s. record m { owner = s }) (
          if_either Ends (nat_eq number 3) _ _ (string-Ends λ m s. record m { value = s }) (
            if_either Ends (nat_eq number 4) _ _ (string-Ends λ m s. record m { type = s }) (
              if_either Ends (nat_eq number 5) _ _
                (varint-Ends 32 λ m n. record m { type_code = to_int32 n }) tt))))

  read_resource_ends :
      (old : Option Resource) (bytes : List ℕ) → Ensures (λ _. Unit) (read_resource t old bytes)
  unfolding read_resource
  read_resource_ends old bytes =
      Ensures->>= (λ _. Unit) (λ _. Unit) _ _
        (unmarshal_ends (resource_field t) resource-Ends (resource_or_new t old) bytes) (λ r _. tt)

  lock_request-Ends : (number : ℕ) → Ends (lock_request_field t number)
  unfolding lock_request_field
  lock_request-Ends number =
      if_either Ends (nat_eq number 1) _ _
        (delimited-Ends _ λ m bytes.
          Ensures->>= (λ _. Unit) (λ _. Unit) _ _ (read_resource_ends m.resource bytes) (λ r _. tt))
        (if_either Ends (nat_eq number 2) _ _
          (varint-Ends 64 λ m n. record m { ttl_in_seconds = to_int64 n }) tt)

  -- Unmarshal of a LockRequest, and of a Resource, ends on all bytes, groups and fields of no known
  -- number among them: with a message, an error or a panic.
  pub unmarshal-ne-stuck :
      (bytes : List ℕ) (m : LockRequest) (r : Resource)
      → (unmarshal (lock_request_field t) m bytes ≢ stuck)
        × (unmarshal (resource_field t) r bytes ≢ stuck)
  unmarshal-ne-stuck bytes m r = (
    Ensures-ne-stuck (λ _. Unit) _
        (unmarshal_ends (lock_request_field t) lock_request-Ends m bytes),
    Ensures-ne-stuck (λ _. Unit) _ (unmarshal_ends (resource_field t) resource-Ends r bytes),
  )
