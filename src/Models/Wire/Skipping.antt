-- ===== src/Models/Wire/Skipping.antt =====
-- skipLocket: how many bytes a field of no known number takes, its tag included.
use locket.Prelude.{ℕ, zero, suc, ◌+◌, ◌%◌, List, [], ◌∷◌, if◌then◌else◌, ltb, nat_eq, drop}
use locket.Prelude.Int64.{ℤ, pos, negsuc, max_int64, to_int64}
use locket.Models.Wire.Reading.{
  Decoded, done, failed, panicked, stuck, ◌>>=◌, Place, read_varint, invalid_length,
  illegal_wire_type,
}

-- The index behind a value of so many bytes.
unfoldable pub skip_length : ℕ → ℕ → Decoded ℤ
skip_length n index = if ltb max_int64 n then failed invalid_length else done (to_int64 (index + n))

-- The bytes of a place from `start + next` on, where `next` is what skipLocket gave from `start` on. An
-- index that is negative, or overflows, is read from, and panics.
unfoldable pub move_on : ℤ → Place → Decoded Place
move_on (negsuc n) place = panicked
move_on (pos n) (start, bytes) =
    if ltb max_int64 (start + n) then panicked else done (start + n, drop n bytes)

-- What follows a tag, by its wire type; `group` is the loop over the fields of a group.
unfoldable pub skip_value : (Place → Decoded ℤ) → ℕ → Place → Decoded ℤ
unfolding skip_length
skip_value group wire_type (index, bytes) =
    if nat_eq wire_type 0
    then (do (_, (end, _)) ← read_varint 64 (index, bytes); done (pos end))
    else if nat_eq wire_type 1
    then done (pos (index + 8))
    else if nat_eq wire_type 2
    then (do (n, (start, _)) ← read_varint 64 (index, bytes); skip_length n start)
    else if nat_eq wire_type 3
    then group (index, bytes)
    else if nat_eq wire_type 4
    then done (pos index)
    else if nat_eq wire_type 5
    then done (pos (index + 4))
    else failed illegal_wire_type

-- The fields of a group up to its end; `skip_field` is skipLocket on what is left.
unfoldable pub group_step :
    (skip_field : List ℕ → Decoded ℤ) (go_on : Place → Decoded ℤ) → Place → Decoded ℤ
unfolding move_on
group_step skip_field go_on (start, bytes) = do
  (inner, (end, _)) ← read_varint 64 (start, bytes)
  if nat_eq (inner % 8) 4
      then done (pos end)
      else (do n ← skip_field bytes; place ← move_on n (start, bytes); go_on place)

-- Both take fuel, for groups inside one another and for the fields of a group.
unfoldable mutual
  unfolding skip_value group_step

  pub skip : ℕ → List ℕ → Decoded ℤ
  skip zero bytes = stuck
  skip (suc fuel) [] = panicked
  skip (suc fuel) (b ∷ bytes) = do
    (wire, place) ← read_varint 64 (0, b ∷ bytes)
    skip_value (λ p. skip_group fuel p) (wire % 8) place

  pub skip_group : ℕ → Place → Decoded ℤ
  skip_group zero place = stuck
  skip_group (suc fuel) place = group_step (λ bytes. skip fuel bytes) (λ p. skip_group fuel p) place
