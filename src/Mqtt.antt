-- ===== src/Mqtt.antt =====
-- The MQTT 3.1.1 wire format of server/internal/mqttdynsec/client.go and, in an identical copy,
-- server/internal/push/mqtt.go. A Go string or byte slice is the list of its bytes, and a reader is
-- the bytes that it still has to give.
mod Length
mod Framing
pub mod Packets
pub mod Responses
pub mod Publish
mod Tests
use Prim.Native.Nat.{bit_and, bit_or}
use xmdm.Common.{
  ℕ, zero, suc, ◌+◌, ◌*◌, ◌/◌, ◌%◌, ◌^◌, ◌≤◌, ◌<◌, List, [], ◌∷◌, ◌++◌, Bool, true, ltb, ◌==◌,
  if◌then◌else◌, length, take, drop, get_elem?, Option, none, some, ◌≡◌, ◌⊎◌, inl, inr, refl,
}
use xmdm.Common.Int.{ℤ, pos, negsuc}

pub data WireError : Type 0 where
  eof length_too_large string_length_truncated string_truncated : WireError

pub data Wire {ℓ} (A : Type ℓ) : Type ℓ where
  ok : A → Wire A
  err : WireError → Wire A

infixl 5 ◌>>=◌
abbrev pub ◌>>=◌ {ℓ κ} : {A : Type ℓ} {B : Type κ} → Wire A → (A → Wire B) → Wire B
ok a >>= f = f a
err e >>= f = err e

-- To split on a computed result and keep the equation.
pub Wire-cases {ℓ} :
    {A : Type ℓ} (w : Wire A) → ((e : WireError) × (w ≡ err e)) ⊎ ((a : A) × (w ≡ ok a))
Wire-cases (ok a) = inr (a, refl)
Wire-cases (err e) = inl (e, refl)

abbrev pub Bytes : Type 0
Bytes = List ℕ

-- The digits of a length, seven bits each; the rounds left bound the loop.
pub length_digits : ℕ → ℕ → Bytes
length_digits zero n = []
length_digits (suc rounds) n =
    let more = bit_or (n % 128) 0x80 ∷ length_digits rounds (n / 128) in
    if ltb 0 (n / 128) then more else (n % 128) ∷ []

-- `encodeRemainingLength`; the quotient falls in every round, so n + 1 rounds are enough.
unfoldable pub encode_remaining_length : ℤ → Bytes
unfolding length_digits
encode_remaining_length (negsuc n) = 0 ∷ []
encode_remaining_length (pos n) = length_digits (suc n) n

-- `encodeString`: the length is cut to sixteen bits
unfoldable pub encode_string : Bytes → Bytes
encode_string value = (length value % 65536 / 256) ∷ (length value % 256) ∷ value

-- `io.ReadFull` of n bytes, and the bytes that are left
unfoldable pub read_full : ℕ → Bytes → Wire (Bytes × Bytes)
read_full n r = if ltb (length r) n then err eof else ok (take n r, drop n r)

-- The loop of `readRemainingLength`, with the rounds left and the bytes read so far.
pub read_length_loop : ℕ → Bytes → Bytes → Wire (Bytes × Bytes)
read_length_loop zero encoded r = err length_too_large
read_length_loop (suc rounds) encoded [] = err eof
read_length_loop (suc rounds) encoded (b ∷ r) =
    let more = read_length_loop rounds (encoded ++ b ∷ []) r in
    if bit_and b 0x80 == 0 then ok (encoded ++ b ∷ [], r) else more

unfoldable pub read_remaining_length : Bytes → Wire (Bytes × Bytes)
unfolding read_length_loop
read_remaining_length r = read_length_loop 4 [] r

pub decode_loop : ℕ → ℕ → Bytes → ℕ
decode_loop multiplier value [] = value
decode_loop multiplier value (b ∷ bs) =
    decode_loop (multiplier * 128) (value + bit_and b 127 * multiplier) bs

unfoldable pub decode_remaining_length : Bytes → ℕ
unfolding decode_loop
decode_remaining_length encoded = decode_loop 1 0 encoded

-- `remainingLengthBytes`: the place behind the first byte with no continuation bit
unfoldable pub remaining_length_bytes : Bytes → ℕ
remaining_length_bytes [] = 0
remaining_length_bytes (b ∷ bs) =
    let more = suc (remaining_length_bytes bs) in if bit_and b 0x80 == 0 then 1 else more

-- `readPacket`: the whole packet, and the bytes that are left
unfoldable pub read_packet : Bytes → Wire (Bytes × Bytes)
read_packet r = do
  (header, r₁) ← read_full 1 r
  (remaining, r₂) ← read_remaining_length r₁
  (body, r₃) ← read_full (decode_remaining_length remaining) r₂
  ok ((header ++ remaining) ++ body, r₃)

-- `data[i]`, where the caller has tested the length
abbrev pub byte_at : Bytes → ℕ → ℕ
byte_at bytes i = elim (get_elem? bytes i) [ none ↦ 0 | some b ↦ b ]

-- `readMQTTString`: the string at an offset, and the offset behind it
unfoldable pub read_mqtt_string : Bytes → ℕ → Wire (Bytes × ℕ)
read_mqtt_string bytes offset =
    if ltb (length bytes) (offset + 2)
    then err string_length_truncated
    else let size = byte_at bytes offset * 256 + byte_at bytes (offset + 1) in
      if ltb (length bytes) (offset + 2 + size)
      then err string_truncated
      else ok (take size (drop (offset + 2) bytes), offset + 2 + size)
