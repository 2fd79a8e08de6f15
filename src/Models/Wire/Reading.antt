-- ===== src/Models/Wire/Reading.antt =====
-- What Unmarshal reads a message by: varints, and slices of a given length.
use Prim.Native.Nat.{bit_or}
use locket.Prelude.{
  ℕ, ◌+◌, ◌*◌, ◌%◌, ◌^◌, List, [], ◌∷◌, if◌then◌else◌, ltb, leb, length, take, drop,
}
use locket.Prelude.Int64.{max_int64}

pub data DecodeError : Type 0 where
  int_overflow unexpected_eof invalid_length end_group illegal_tag wrong_wire_type : DecodeError
  illegal_wire_type : DecodeError

-- `panicked` is a slice or an index out of bounds; `stuck` is no outcome of the code: the fuel is out.
pub data Decoded (A : Type 0) : Type 0 where
  done : A → Decoded A
  failed : DecodeError → Decoded A
  panicked stuck : Decoded A

infixl 5 ◌>>=◌
abbrev pub ◌>>=◌ : {A B : Type 0} → Decoded A → (A → Decoded B) → Decoded B
done a >>= f = f a
failed e >>= f = failed e
panicked >>= f = panicked
stuck >>= f = stuck

-- An index, and the bytes from there.
abbrev pub Place : Type 0
Place = ℕ × List ℕ

-- `acc |= (uint64(b) & 0x7F) << shift`; what goes beyond the width is lost.
unfoldable pub add_group : (width shift acc b : ℕ) → ℕ
add_group width shift acc b = bit_or acc (b % 128 * 2 ^ shift) % 2 ^ width

unfoldable pub varint_loop : (width shift acc index : ℕ) → List ℕ → Decoded (ℕ × Place)
varint_loop width shift acc index [] =
    failed (if leb 64 shift then int_overflow else unexpected_eof)
varint_loop width shift acc index (b ∷ rest) =
    let acc' = add_group width shift acc b in
    let more = varint_loop width (shift + 7) acc' (index + 1) rest in
    if leb 64 shift
    then failed int_overflow
    else if ltb b 128
    then done (acc', (index + 1, rest))
    else more

-- Into a variable of so many bits.
unfoldable pub read_varint : (width : ℕ) → Place → Decoded (ℕ × Place)
unfolding varint_loop
read_varint width (index, bytes) = varint_loop width 0 0 index bytes

-- `dAtA[iNdEx:postIndex]` for a length that was read. A sum that overflows is negative, so it is not
-- beyond the end, and the slice panics.
unfoldable pub read_slice : ℕ → Place → Decoded (List ℕ × Place)
read_slice n (index, bytes) =
    if ltb max_int64 n
    then failed invalid_length
    else if ltb max_int64 (index + n)
    then panicked
    else if ltb (length bytes) n
    then failed unexpected_eof
    else done (take n bytes, (index + n, drop n bytes))
