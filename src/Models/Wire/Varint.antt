-- ===== src/Models/Wire/Varint.antt =====
-- A varint that was written is read back.
use mathlib.Core.WellFounded.{Acc}
use native.Mathlib.Nat.{mod-add-mod, mod-le, div-add-mod}
use native.Mathlib.Bridge.{le_prop}
use native.Mathlib.Numerals.{towards_suc}
use native.Mathlib.Decide.{dec_lt}
use mathlib.Core.Logic.{dif_pos, dif_neg}
use locket.Prelude.{
  ℕ, zero, suc, ◌+◌, ◌*◌, ◌/◌, ◌%◌, ◌^◌, ◌≤◌, ◌<◌, ◌≡◌, refl, ap, ◌∙◌, List, ◌∷◌, ◌++◌, length,
  arith,
}
use locket.Prelude.Bits.{bit_or_field, lt_wf}
use locket.Models.Wire.Reading.{done, add_group, varint_loop, read_varint}
use locket.Models.Wire.Messages.{shifted-lt, rest-lt, encode_loop, encode_varint, sov_loop, sov}

-- Seven bits above what was read are added to it.
add_group_lem :
    (width shift acc b : ℕ)
    → acc < 2 ^ shift
    → add_group width shift acc b ≡ (acc + b % 128 * 2 ^ shift) % 2 ^ width
unfolding add_group
add_group_lem width shift acc b h = rw (bit_or_field shift acc (b % 128) h)

pow_seven : (s : ℕ) → 2 ^ (s + 7) ≡ 128 * 2 ^ s
pow_seven s = simp towards_suc (omega arith)

-- The lowest seven bits of `v` and the others, from bit `s` on.
low_group : (v s : ℕ) → v % 128 * 2 ^ s + v / 128 * 2 ^ (s + 7) ≡ v * 2 ^ s
low_group v s = omega (
  arith,
  ap (λ (t : ℕ). t * 2 ^ s) (div-add-mod v 128),
  ap (λ (t : ℕ). v / 128 * t) (pow_seven s),
)

group-lt : (acc g s : ℕ) → acc < 2 ^ s → g < 128 → acc + g * 2 ^ s < 2 ^ (s + 7)
group-lt acc g s h k = grind (arith, pow_seven s)

last_byte :
    (width shift acc index v : ℕ) (rest : List ℕ)
    → v < 128
    → shift ≤ 63
    → acc < 2 ^ shift
    → varint_loop width shift acc index (v ∷ rest)
      ≡ done ((acc + v * 2 ^ shift) % 2 ^ width, (index + 1, rest))
unfolding varint_loop
last_byte width shift acc index v rest h k a = ground (arith, add_group_lem width shift acc v)

inner_byte :
    (width shift acc index g : ℕ) (rest : List ℕ)
    → g < 128
    → shift ≤ 63
    → acc < 2 ^ shift
    → varint_loop width shift acc index ((g + 128) ∷ rest)
      ≡ varint_loop width (shift + 7) ((acc + g * 2 ^ shift) % 2 ^ width) (index + 1) rest
unfolding varint_loop
inner_byte width shift acc index g rest h k a =
    ground (arith, add_group_lem width shift acc (g + 128))

regroup :
    (width shift acc v : ℕ)
    → ((acc + v % 128 * 2 ^ shift) % 2 ^ width + v / 128 * 2 ^ (shift + 7)) % 2 ^ width
      ≡ (acc + v * 2 ^ shift) % 2 ^ width
regroup width shift acc v =
    mod-add-mod (acc + v % 128 * 2 ^ shift) (2 ^ width) (v / 128 * 2 ^ (shift + 7))
    ∙ ap (λ (t : ℕ). t % 2 ^ width) (omega (arith, low_group v shift))

varint_loop-encode_loop :
    (k width shift acc index v : ℕ) (w : Acc ◌<◌ v) (rest : List ℕ)
    → v < 128 ^ suc k
    → shift + 7 * k ≤ 63
    → acc < 2 ^ shift
    → varint_loop width shift acc index (encode_loop v w ++ rest)
      ≡ done ((acc + v * 2 ^ shift) % 2 ^ width, (index + length (encode_loop v w), rest))
unfolding encode_loop
varint_loop-encode_loop zero width shift acc index v (Acc.intro _ smaller) rest h k a =
    ground (arith, last_byte width shift acc index v rest)
varint_loop-encode_loop (suc n) width shift acc index v (Acc.intro _ smaller) rest h k a =
    elim (dec_lt 127 v) [
      | no p ↦
          rw (dif_neg _ p) (last_byte width shift acc index v rest (omega arith) (omega arith) a)
      | yes p ↦ rw (dif_pos _ le_prop p) (
          inner_byte width shift acc index (v % 128)
            (encode_loop (v / 128) (smaller (v / 128) (shifted-lt v p)) ++ rest) (omega arith)
            (omega arith) a
          ∙ varint_loop-encode_loop n width (shift + 7) ((acc + v % 128 * 2 ^ shift) % 2 ^ width)
              (index + 1) (v / 128) (smaller (v / 128) (shifted-lt v p)) rest (omega arith)
              (omega arith)
              (omega (
                arith,
                mod-le (acc + v % 128 * 2 ^ shift) (2 ^ width),
                group-lt acc (v % 128) shift a (omega arith),
              ))
          ∙ rw (regroup width shift acc v)
              (ap (λ (j : ℕ). done ((acc + v * 2 ^ shift) % 2 ^ width, (j, rest))) (omega arith)))
    ]

-- What is read into a variable of so many bits is what was written, without the bits beyond.
pub read_varint-encode :
    (width index v : ℕ) (rest : List ℕ)
    → v < 2 ^ 64
    → read_varint width (index, encode_varint v ++ rest)
      ≡ done (v % 2 ^ width, (index + length (encode_varint v), rest))
unfolding read_varint encode_varint
read_varint-encode width index v rest h =
    varint_loop-encode_loop 9 width 0 0 index v (lt_wf.apply v) rest (omega arith) (omega arith)
      (omega arith)
    ∙ ap (λ (n : ℕ). done (n % 2 ^ width, (index + length (encode_loop v (lt_wf.apply v)), rest)))
        (omega arith)

pub read_varint_tag :
    (index tag : ℕ) (rest : List ℕ)
    → tag < 128
    → read_varint 64 (index, tag ∷ rest) ≡ done (tag, (index + 1, rest))
unfolding read_varint
read_varint_tag index tag rest h =
    last_byte 64 0 0 index tag rest h (omega arith) (omega arith)
    ∙ ap (λ (n : ℕ). done (n, (index + 1, rest))) (omega arith)

length-encode_loop : (v : ℕ) (w w' : Acc ◌<◌ v) → length (encode_loop v w) ≡ sov_loop v w'
unfolding encode_loop sov_loop
length-encode_loop v (Acc.intro _ smaller) (Acc.intro _ smaller') = elim (dec_lt 127 v) [
  | no p ↦ rw (dif_neg _ p, dif_neg (dec_lt 0 (v / 128)) (λ q. p (omega arith))) refl
  | yes p ↦
      rw (dif_pos _ le_prop p, dif_pos (dec_lt 0 (v / 128)) le_prop (omega arith))
        (ap suc (
          length-encode_loop (v / 128) (smaller (v / 128) (shifted-lt v p))
            (smaller' (v / 128) (rest-lt v (omega arith)))))
]

-- sovLocket counts the bytes that encodeVarintLocket writes.
pub length-encode_varint : (v : ℕ) → length (encode_varint v) ≡ sov v
unfolding encode_varint sov
length-encode_varint v = length-encode_loop v (lt_wf.apply v) (lt_wf.apply v)
