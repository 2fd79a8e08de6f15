-- ===== src/Models/Wire/Fields.antt =====
-- The loop of Unmarshal on one field that MarshalTo wrote, with whatever follows it.
use mathlib.Core.List.{append_assoc}
use locket.Prelude.{
  ℕ, zero, suc, ◌+◌, ◌/◌, ◌%◌, ◌^◌, ◌≤◌, ◌<◌, ◌≡◌, refl, subst, Option, some, List, [], ◌∷◌, ◌++◌,
  length, length-append, take-append, drop-append, arith, inl, inr, Bool-cases,
}
use locket.Prelude.Int64.{ℤ, pos, max_int64, eq_ℤ, eq_ℤ→eq}
use locket.Models.Wire.Reading.{Decoded, done, read_slice}
use locket.Models.Wire.Unmarshal.{Field, unmarshal_field, unmarshal_loop}
use locket.Models.Wire.Messages.{
  delimited_field, varint_field, encode_varint, write_delimited, write_string, write_varint,
  to_uint64,
}
use locket.Models.Wire.Varint.{read_varint-encode, read_varint_tag}

read_slice-append :
    (index : ℕ) (bytes rest : List ℕ)
    → index + length bytes ≤ max_int64
    → read_slice (length bytes) (index, bytes ++ rest) ≡ done (bytes, (index + length bytes, rest))
unfolding read_slice
read_slice-append index bytes rest h =
    rw (take-append bytes rest, drop-append bytes rest) (ground (arith, length-append bytes rest))

module _ {M : Type 0} (fields : ℕ → Option (Field M)) where
  -- From any index on that leaves room for the bytes the loop ends so.
  abbrev pub Decodes : M → List ℕ → Decoded M → Type 0
  Decodes m bytes r =
      (index fuel : ℕ)
      → index + length bytes ≤ max_int64
      → length bytes ≤ fuel
      → unmarshal_loop fields fuel m (index, bytes) ≡ r

  pub Decodes-nil : (m : M) → Decodes m [] (done m)
  unfolding unmarshal_loop
  Decodes-nil m index zero h k = refl
  Decodes-nil m index (suc fuel) h k = refl

  -- A field that is read whole.
  abbrev Reads : M → M → List ℕ → List ℕ → Type 0
  Reads m m' chunk rest =
      (index : ℕ)
      → index + length (chunk ++ rest) ≤ max_int64
      → unmarshal_field fields m (index, chunk ++ rest) ≡ done (m', (index + length chunk, rest))

  Decodes-cons :
      (m m' : M) (c : ℕ) (chunk rest : List ℕ) (r : Decoded M)
      → Reads m m' (c ∷ chunk) rest
      → Decodes m' rest r
      → Decodes m ((c ∷ chunk) ++ rest) r
  unfolding unmarshal_loop
  Decodes-cons m m' c chunk rest r reads d index zero h k = absurd (omega arith)
  Decodes-cons m m' c chunk rest r reads d index (suc fuel) h k = rw (reads index h) (
      d (index + suc (length chunk)) fuel (omega (arith, length-append chunk rest))
        (omega (arith, length-append chunk rest)))

  delimited-Reads :
      (tag : ℕ) (set : M → List ℕ → Decoded M) (m m' : M) (bytes rest : List ℕ)
      → 8 ≤ tag
      → tag < 128
      → tag % 8 ≡ 2
      → fields (tag / 8 % 2 ^ 32) ≡ some (delimited_field set)
      → set m bytes ≡ done m'
      → Reads m m' (write_delimited tag bytes) rest
  unfolding unmarshal_field delimited_field write_delimited
  delimited-Reads tag set m m' bytes rest a b c f s index h = rw (append_assoc e bytes rest) (
      ground (
        arith,
        read_varint_tag index tag (e ++ (bytes ++ rest)),
        f,
        c,
        read_varint-encode 64 (index + 1) (length bytes) (bytes ++ rest),
        read_slice-append (index + 1 + length e) bytes rest,
        s,
        total,
        length-append e bytes,
      ))
    where
      e : List ℕ
      e = encode_varint (length bytes)

      total : index + suc (length e + length bytes + length rest) ≤ max_int64
      total = omega (arith, h, length-append (e ++ bytes) rest, length-append e bytes)

  varint-Reads :
      (tag width : ℕ) (set : M → ℕ → M) (m : M) (v : ℕ) (rest : List ℕ)
      → 8 ≤ tag
      → tag < 128
      → tag % 8 ≡ 0
      → fields (tag / 8 % 2 ^ 32) ≡ some (varint_field width set)
      → v < 2 ^ 64
      → Reads m (set m (v % 2 ^ width)) (tag ∷ encode_varint v) rest
  unfolding unmarshal_field varint_field
  varint-Reads tag width set m v rest a b c f k index h = ground (
    arith,
    read_varint_tag index tag (encode_varint v ++ rest),
    f,
    c,
    read_varint-encode width (index + 1) v rest,
  )

  -- A string: one that is empty is not written, and `m'` is what it leaves then.
  pub write_string-Decodes :
      (tag : ℕ) (set : M → List ℕ → Decoded M) (m m' : M) (bytes rest : List ℕ) (r : Decoded M)
      → 8 ≤ tag
      → tag < 128
      → tag % 8 ≡ 2
      → fields (tag / 8 % 2 ^ 32) ≡ some (delimited_field set)
      → set m bytes ≡ done m'
      → (bytes ≡ [] → m' ≡ m)
      → Decodes m' rest r
      → Decodes m (write_string tag bytes ++ rest) r
  unfolding write_string write_delimited
  write_string-Decodes tag set m m' [] rest r a b c f s e d =
      subst (λ n. Decodes n rest r) (e refl) d
  write_string-Decodes tag set m m' (x ∷ bytes) rest r a b c f s e d =
      Decodes-cons m m' tag (encode_varint (length (x ∷ bytes)) ++ (x ∷ bytes)) rest r
        (delimited-Reads tag set m m' (x ∷ bytes) rest a b c f s) d

  pub write_delimited-Decodes :
      (tag : ℕ) (set : M → List ℕ → Decoded M) (m m' : M) (bytes rest : List ℕ) (r : Decoded M)
      → 8 ≤ tag
      → tag < 128
      → tag % 8 ≡ 2
      → fields (tag / 8 % 2 ^ 32) ≡ some (delimited_field set)
      → set m bytes ≡ done m'
      → Decodes m' rest r
      → Decodes m (write_delimited tag bytes ++ rest) r
  unfolding write_delimited
  write_delimited-Decodes tag set m m' bytes rest r a b c f s d =
      Decodes-cons m m' tag (encode_varint (length bytes) ++ bytes) rest r
        (delimited-Reads tag set m m' bytes rest a b c f s) d

  -- An integer: zero is not written.
  pub write_varint-Decodes :
      (tag width : ℕ) (set : M → ℕ → M) (m m' : M) (n : ℤ) (rest : List ℕ) (r : Decoded M)
      → 8 ≤ tag
      → tag < 128
      → tag % 8 ≡ 0
      → fields (tag / 8 % 2 ^ 32) ≡ some (varint_field width set)
      → to_uint64 n < 2 ^ 64
      → set m (to_uint64 n % 2 ^ width) ≡ m'
      → (n ≡ pos 0 → m' ≡ m)
      → Decodes m' rest r
      → Decodes m (write_varint tag n ++ rest) r
  unfolding write_varint
  write_varint-Decodes tag width set m m' n rest r a b c f k s e d =
      elim (Bool-cases (eq_ℤ n (pos 0))) [
        | inl z ↦ rw z (subst (λ p. Decodes p rest r) (e (eq_ℤ→eq n (pos 0) z)) d)
        | inr z ↦ rw z (
            Decodes-cons m m' tag (encode_varint (to_uint64 n)) rest r
              (subst (λ p. Reads m p (tag ∷ encode_varint (to_uint64 n)) rest) s
                (varint-Reads tag width set m (to_uint64 n) rest a b c f k))
              d)
      ]
