-- ===== src/Mqtt/Length.antt =====
-- The length field of an MQTT packet: what `encodeRemainingLength` writes is what
-- `decodeRemainingLength` and `readRemainingLength` read.
mod Bits
use Prim.Native.Nat.{bit_or}
use native.Mathlib.Nat.{pow-suc, one-le-pow}
use xmdm.Common.{
  ℕ, zero, suc, ◌+◌, ◌*◌, ◌/◌, ◌%◌, ◌^◌, ◌≤◌, ◌<◌, ◌≡◌, refl, ap, ◌∙◌, List, [], ◌∷◌, ◌++◌, Bool,
  true, false, ltb, if◌then◌else◌, length, Bool-cases, inl, inr, append_assoc, arith,
}
use xmdm.Common.Int.{ℤ, pos}
use xmdm.Mqtt.{
  Bytes, Wire, ok, err, length_too_large, length_digits, encode_remaining_length, read_length_loop,
  read_remaining_length, decode_loop, decode_remaining_length, remaining_length_bytes,
}
use Bits.{bit_and-last, bit_and-marked, bit_and-digit, bit_and-plain}

length_digits-more :
    (r n : ℕ)
    → 0 < n / 128
    → length_digits (suc r) n ≡ bit_or (n % 128) 0x80 ∷ length_digits r (n / 128)
unfolding length_digits
length_digits-more r n h = ground arith

length_digits-last : (r n : ℕ) → n < 128 → length_digits (suc r) n ≡ n ∷ []
unfolding length_digits
length_digits-last r n h = ground arith

split_digit : (n m : ℕ) → n % 128 * m + n / 128 * (m * 128) ≡ n * m
split_digit n m =
    let parts : n ≡ n / 128 * 128 + n % 128 = omega arith in
    omega (arith, ap (λ (t : ℕ). t * m) parts)

decode_loop-length_digits :
    (rounds n multiplier value : ℕ)
    → n < rounds
    → decode_loop multiplier value (length_digits rounds n) ≡ value + n * multiplier
unfolding decode_loop
decode_loop-length_digits zero n m v h = absurd (omega arith)
decode_loop-length_digits (suc r) n m v h = elim (Bool-cases (ltb 0 (n / 128))) [
  | inl more ↦
      ap (decode_loop m v) (length_digits-more r n (ground arith))
      ∙ (ap (λ t. decode_loop (m * 128) (v + t * m) (length_digits r (n / 128)))
            (bit_and-digit (n % 128) (omega arith))
          ∙ (decode_loop-length_digits r (n / 128) (m * 128) (v + n % 128 * m) (ground arith)
              ∙ omega (arith, split_digit n m)))
  | inr last ↦
      ap (decode_loop m v) (length_digits-last r n (ground arith))
      ∙ ap (λ t. v + t * m) (bit_and-plain n (ground arith))
]

-- Decoding undoes encoding, for every length.
pub decode-encode_remaining_length :
    (n : ℕ) → decode_remaining_length (encode_remaining_length (pos n)) ≡ n
unfolding decode_remaining_length encode_remaining_length
decode-encode_remaining_length n =
    decode_loop-length_digits (suc n) n 1 0 (omega arith) ∙ omega arith

-- Below 128 ^ (k + 1), k + 1 more rounds of the reader are enough.
read_length_loop-length_digits :
    (k rounds n : ℕ) (encoded rest : Bytes)
    → n < rounds
    → n < 128 ^ suc k
    → read_length_loop (suc k) encoded (length_digits rounds n ++ rest)
      ≡ ok (encoded ++ length_digits rounds n, rest)
unfolding read_length_loop
read_length_loop-length_digits k zero n encoded rest h g = absurd (omega arith)
read_length_loop-length_digits zero (suc r) n encoded rest h g =
    rw (length_digits-last r n (omega arith), bit_and-last n (omega arith)) refl
read_length_loop-length_digits (suc k) (suc r) n encoded rest h g =
    elim (Bool-cases (ltb 0 (n / 128))) [
      | inl more ↦
          rw (length_digits-more r n (ground arith), bit_and-marked (n % 128) (omega arith))
            (rw (← append_assoc encoded (bit_or (n % 128) 0x80 ∷ []) (length_digits r (n / 128))) (
              read_length_loop-length_digits k r (n / 128) (encoded ++ bit_or (n % 128) 0x80 ∷ [])
                rest (ground arith) (omega (arith, pow-suc 128 (suc k)))))
      | inr last ↦ rw (length_digits-last r n (ground arith), bit_and-last n (ground arith)) refl
    ]

-- From 128 ^ k on, k rounds are not enough.
read_length_loop-too_large :
    (k rounds n : ℕ) (encoded rest : Bytes)
    → n < rounds
    → 128 ^ k ≤ n
    → read_length_loop k encoded (length_digits rounds n ++ rest) ≡ err length_too_large
unfolding read_length_loop
read_length_loop-too_large k zero n encoded rest h g = absurd (omega arith)
read_length_loop-too_large zero (suc r) n encoded rest h g = refl
read_length_loop-too_large (suc k) (suc r) n encoded rest h g =
    let more : 0 < n / 128 = omega (arith, pow-suc 128 k, one-le-pow k 128 (omega arith)) in
    rw (length_digits-more r n more, bit_and-marked (n % 128) (omega arith))
      (read_length_loop-too_large k r (n / 128) (encoded ++ bit_or (n % 128) 0x80 ∷ []) rest
        (omega arith) (omega (arith, pow-suc 128 k)))

-- Below 2 ^ 28 the reader takes exactly the bytes that the encoder wrote.
pub read-encode_remaining_length :
    (n : ℕ) (rest : Bytes)
    → n < 128 ^ 4
    → read_remaining_length (encode_remaining_length (pos n) ++ rest)
      ≡ ok (encode_remaining_length (pos n), rest)
unfolding read_remaining_length encode_remaining_length
read-encode_remaining_length n rest h =
    read_length_loop-length_digits 3 (suc n) n [] rest (omega arith) h

-- From 2 ^ 28 on, the reader refuses the field that the encoder wrote, whatever follows it.
pub read-encode_too_large :
    (n : ℕ) (rest : Bytes)
    → 128 ^ 4 ≤ n
    → read_remaining_length (encode_remaining_length (pos n) ++ rest) ≡ err length_too_large
unfolding read_remaining_length encode_remaining_length
read-encode_too_large n rest h = read_length_loop-too_large 4 (suc n) n [] rest (omega arith) h

remaining_length_bytes-length_digits :
    (rounds n : ℕ) (rest : Bytes)
    → n < rounds
    → remaining_length_bytes (length_digits rounds n ++ rest) ≡ length (length_digits rounds n)
unfolding remaining_length_bytes
remaining_length_bytes-length_digits zero n rest h = absurd (omega arith)
remaining_length_bytes-length_digits (suc r) n rest h = elim (Bool-cases (ltb 0 (n / 128))) [
  | inl more ↦
      rw (length_digits-more r n (ground arith), bit_and-marked (n % 128) (omega arith))
        (ap suc (remaining_length_bytes-length_digits r (n / 128) rest (ground arith)))
  | inr last ↦ rw (length_digits-last r n (ground arith), bit_and-last n (ground arith)) refl
]

-- The length field can be skipped without decoding it.
pub remaining_length_bytes-encode :
    (n : ℕ) (rest : Bytes)
    → remaining_length_bytes (encode_remaining_length (pos n) ++ rest)
      ≡ length (encode_remaining_length (pos n))
unfolding encode_remaining_length
remaining_length_bytes-encode n rest =
    remaining_length_bytes-length_digits (suc n) n rest (omega arith)
