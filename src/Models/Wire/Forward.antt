-- ===== src/Models/Wire/Forward.antt =====
-- skipLocket ends on every field, and goes on by a byte at least.
use locket.Prelude.{
  ℕ, Bool, zero, suc, ◌+◌, ◌*◌, ◌%◌, ◌≤◌, ◌<◌, List, [], ◌∷◌, if◌then◌else◌, length, arith, nat_eq,
  ltb,
}
use locket.Prelude.Int64.{ℤ, pos, negsuc, max_int64, to_int64}
use locket.Models.Wire.Reading.{Decoded, Place}
use locket.Models.Wire.Skipping.{skip, skip_group, skip_value, group_step, move_on, skip_length}
use locket.Models.Wire.Ensures.{
  Ensures, Ensures->>=, if_either, Advances, read_varint-Advances, length-drop_lt,
}

-- A positive index: the field was at least a byte long.
abbrev pub IsForward : ℤ → Type 0
IsForward (pos n) = 1 ≤ n
IsForward (negsuc n) = Unit

to_int64-IsForward : (n : ℕ) → 1 ≤ n → IsForward (to_int64 n)
to_int64-IsForward n h = ground arith

skip_length-IsForward : (n index : ℕ) → 1 ≤ index → Ensures IsForward (skip_length n index)
unfolding skip_length
skip_length-IsForward n index h =
    if_either (Ensures IsForward) (ltb max_int64 n) _ _ tt
      (to_int64-IsForward (index + n) (omega arith))

skip_value-IsForward :
    (group : Place → Decoded ℤ) (wire_type : ℕ) (place : Place)
    → 1 ≤ place.0
    → Ensures IsForward (group place)
    → Ensures IsForward (skip_value group wire_type place)
unfolding skip_value
skip_value-IsForward group wire_type (index, bytes) h g =
    either (nat_eq wire_type 0) _ _
      (Ensures->>= (Advances (index, bytes)) IsForward _ _ (read_varint-Advances 64 (index, bytes))
        (λ a p. omega (arith, p)))
      (either (nat_eq wire_type 1) _ _ (omega arith) (
        either (nat_eq wire_type 2) _ _
          (Ensures->>= (Advances (index, bytes)) IsForward _ _
            (read_varint-Advances 64 (index, bytes))
            (λ a p. skip_length-IsForward a.0 a.1.0 (omega (arith, p))))
          (either (nat_eq wire_type 3) _ _ g (
            either (nat_eq wire_type 4) _ _ h (either (nat_eq wire_type 5) _ _ (omega arith) tt)))))
  where
    either :
        (b : Bool) (x y : Decoded ℤ)
        → Ensures IsForward x
        → Ensures IsForward y
        → Ensures IsForward (if b then x else y)
    either = if_either (Ensures IsForward)

move_on-Shrinks :
    (n : ℤ) (place : Place)
    → IsForward n
    → 1 ≤ length place.1
    → Ensures (λ (next : Place). length next.1 < length place.1) (move_on n place)
unfolding move_on
move_on-Shrinks (negsuc n) place h k = tt
move_on-Shrinks (pos n) (start, bytes) h k =
    if_either (Ensures λ (next : Place). length next.1 < length bytes) (ltb max_int64 (start + n)) _
      _ tt (length-drop_lt n bytes h k)

-- A group goes on from where it is shorter.
group_step-IsForward :
    (skip_field : List ℕ → Decoded ℤ) (go_on : Place → Decoded ℤ) (place : Place)
    → (1 ≤ length place.1 → Ensures IsForward (skip_field place.1))
    → ((next : Place) → length next.1 < length place.1 → Ensures IsForward (go_on next))
    → Ensures IsForward (group_step skip_field go_on place)
unfolding group_step
group_step-IsForward skip_field go_on (start, bytes) f g =
    Ensures->>= (Advances (start, bytes)) IsForward _ _ (read_varint-Advances 64 (start, bytes))
      λ a p. if_either (Ensures IsForward) (nat_eq (a.0 % 8) 4) _ _ (omega (arith, p)) (
        Ensures->>= IsForward IsForward _ _ (f (omega (arith, p))) λ n q.
          Ensures->>= (λ (next : Place). length next.1 < length bytes) IsForward _ _
            (move_on-Shrinks n (start, bytes) q (omega (arith, p))) g)

-- Twice the length of the slice is fuel enough, and one more at the start of a group.
mutual
  unfolding skip skip_group

  pub skip-IsForward :
      (fuel : ℕ) (bytes : List ℕ)
      → 1 ≤ length bytes
      → 2 * length bytes ≤ fuel
      → Ensures IsForward (skip fuel bytes)
  skip-IsForward zero bytes h k = absurd (omega arith)
  skip-IsForward (suc fuel) [] h k = tt
  skip-IsForward (suc fuel) (b ∷ bytes) h k =
      Ensures->>= (Advances (0, b ∷ bytes)) IsForward _ _ (read_varint-Advances 64 (0, b ∷ bytes))
        λ a p.
          skip_value-IsForward (λ q. skip_group fuel q) (a.0 % 8) a.1 (omega (arith, p))
            (skip_group-IsForward fuel a.1 (omega (arith, p, k)))

  skip_group-IsForward :
      (fuel : ℕ) (place : Place)
      → 2 * length place.1 + 1 ≤ fuel
      → Ensures IsForward (skip_group fuel place)
  skip_group-IsForward zero place k = absurd (omega arith)
  skip_group-IsForward (suc fuel) place k =
      group_step-IsForward (λ bytes. skip fuel bytes) (λ p. skip_group fuel p) place
        (λ h. skip-IsForward fuel place.1 h (omega (arith, k)))
        (λ next h. skip_group-IsForward fuel next (omega (arith, h, k)))
