-- ===== src/Models/Wire/Ensures.antt =====
-- What holds of a reader's result, if it has one, where the fuel is not out.
use locket.Prelude.{
  ℕ, zero, suc, ◌+◌, ◌≤◌, ◌<◌, ◌≢◌, List, [], ◌∷◌, Bool, true, false, if◌then◌else◌, leb, ltb,
  length, drop, length-drop, arith,
}
use locket.Models.Wire.Reading.{
  Decoded, done, failed, panicked, stuck, ◌>>=◌, Place, varint_loop, read_varint, read_slice,
  add_group,
}

abbrev pub Ensures : {A : Type 0} → (A → Type 0) → Decoded A → Type 0
Ensures P (done a) = P a
Ensures P stuck = ⊥
Ensures P _ = Unit

pub Ensures->>= :
    {A B : Type 0} (P : A → Type 0) (Q : B → Type 0) (r : Decoded A) (f : A → Decoded B)
    → Ensures P r
    → ((a : A) → P a → Ensures Q (f a))
    → Ensures Q (r >>= f)
Ensures->>= P Q (done a) f h k = k a h
Ensures->>= P Q (failed e) f h k = tt
Ensures->>= P Q panicked f h k = tt
Ensures->>= P Q stuck f h k = h

pub Ensures-mono :
    {A : Type 0} (P Q : A → Type 0) (r : Decoded A)
    → ((a : A) → P a → Q a)
    → Ensures P r
    → Ensures Q r
Ensures-mono P Q (done a) f h = f a h
Ensures-mono P Q (failed e) f h = tt
Ensures-mono P Q panicked f h = tt
Ensures-mono P Q stuck f h = h

pub Ensures-ne-stuck : {A : Type 0} (P : A → Type 0) (r : Decoded A) → Ensures P r → r ≢ stuck
Ensures-ne-stuck P (done a) h = λ e. (cc)
Ensures-ne-stuck P (failed e) h = λ e. (cc)
Ensures-ne-stuck P panicked h = λ e. (cc)
Ensures-ne-stuck P stuck h = absurd h

pub if_either :
    {A : Type 0} (P : A → Type 0) (b : Bool) (x y : A) → P x → P y → P (if b then x else y)
if_either P true x y h k = h
if_either P false x y h k = k

-- A varint takes a byte at least.
abbrev pub Advances : Place → ℕ × Place → Type 0
Advances before after = (before.0 < after.1.0) × (length after.1.1 < length before.1)

varint_loop-Advances :
    (width shift acc index : ℕ) (bytes : List ℕ)
    → Ensures (Advances (index, bytes)) (varint_loop width shift acc index bytes)
unfolding varint_loop
varint_loop-Advances width shift acc index [] = tt
varint_loop-Advances width shift acc index (b ∷ rest) =
    if_either (Ensures (Advances (index, b ∷ rest))) (leb 64 shift) _ _ tt (
      if_either (Ensures (Advances (index, b ∷ rest))) (ltb b 128) _ _ (omega arith) (
        Ensures-mono (Advances (index + 1, rest)) (Advances (index, b ∷ rest)) _
          (λ a h. omega (arith, h))
          (varint_loop-Advances width (shift + 7) (add_group width shift acc b) (index + 1) rest)))

pub read_varint-Advances :
    (width : ℕ) (place : Place) → Ensures (Advances place) (read_varint width place)
unfolding read_varint
read_varint-Advances width (index, bytes) = varint_loop-Advances width 0 0 index bytes

pub length-drop_le : (n : ℕ) (xs : List ℕ) → length (drop n xs) ≤ length xs
length-drop_le n xs = omega (arith, length-drop {0} n xs)

pub length-drop_lt : (n : ℕ) (xs : List ℕ) → 1 ≤ n → 1 ≤ length xs → length (drop n xs) < length xs
length-drop_lt zero xs h k = absurd (omega arith)
length-drop_lt (suc n) [] h k = absurd (omega arith)
length-drop_lt (suc n) (x ∷ xs) h k = omega (arith, length-drop_le n xs)

pub read_slice-Shrinks :
    (n : ℕ) (place : Place)
    → Ensures (λ (a : List ℕ × Place). length a.1.1 ≤ length place.1) (read_slice n place)
unfolding read_slice
read_slice-Shrinks n (index, bytes) = ground (arith, length-drop_le n bytes)
