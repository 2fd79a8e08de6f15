-- ===== src/Models/Wire/Unmarshal.antt =====
-- The loop of Unmarshal over the fields of a message, which every message has alike.
use locket.Prelude.{
  ℕ, zero, suc, ◌+◌, ◌-◌, ◌*◌, ◌/◌, ◌%◌, ◌^◌, ◌||◌, Option, none, some, List, [], ◌∷◌,
  if◌then◌else◌, ltb, nat_eq, length, drop,
}
use locket.Prelude.Int64.{ℤ, pos, negsuc, max_int64}
use locket.Models.Wire.Reading.{
  Decoded, done, failed, panicked, stuck, ◌>>=◌, Place, read_varint, invalid_length, unexpected_eof,
  end_group, illegal_tag,
}
use locket.Models.Wire.Skipping.{skip}

-- The case of a field in the switch of Unmarshal, given the wire type of its tag.
abbrev pub Field : Type 0 → Type 0
Field M = ℕ → M → Place → Decoded (M × Place)

-- The default case: from the tag on, `skippy` bytes are left out.
unfoldable pub leave_out : {M : Type 0} → M → ℤ → Place → Decoded (M × Place)
leave_out m (negsuc _) place = failed invalid_length
leave_out m (pos skippy) (index, bytes) =
    if ltb max_int64 (index + skippy)
    then panicked
    else if ltb (length bytes) skippy
    then failed unexpected_eof
    else done (m, (index + skippy, drop skippy bytes))

module _ {M : Type 0} (fields : ℕ → Option (Field M)) where
  unfoldable pub by_field : Option (Field M) → ℕ → M → Place → Place → Decoded (M × Place)
  unfolding leave_out
  by_field (some f) wire_type m after_tag before = f wire_type m after_tag
  by_field none wire_type m after_tag before = do
    skippy ← skip (2 * length before.1) before.1
    leave_out m skippy before

  -- One round of the loop. The field number is an int32.
  unfoldable pub unmarshal_field : M → Place → Decoded (M × Place)
  unfolding by_field
  unmarshal_field m before = do
    (wire, after_tag) ← read_varint 64 before
    let number = wire / 8 % 2 ^ 32
    if nat_eq (wire % 8) 4
        then failed end_group
        else if nat_eq number 0 || ltb (2 ^ 31 - 1) number
        then failed illegal_tag
        else by_field (fields number) (wire % 8) m after_tag before

  -- A round takes a byte at least, so the length of the slice is fuel enough.
  unfoldable pub unmarshal_loop : ℕ → M → Place → Decoded M
  unfolding unmarshal_field
  unmarshal_loop fuel m (index, []) = done m
  unmarshal_loop zero m (index, b ∷ bytes) = stuck
  unmarshal_loop (suc fuel) m (index, b ∷ bytes) = do
    (m', place) ← unmarshal_field m (index, b ∷ bytes)
    unmarshal_loop fuel m' place

  unfoldable pub unmarshal : M → List ℕ → Decoded M
  unfolding unmarshal_loop
  unmarshal m bytes = unmarshal_loop (length bytes) m (0, bytes)
