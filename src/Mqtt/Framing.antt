-- ===== src/Mqtt/Framing.antt =====
-- `readPacket` and `readMQTTString` over what `publishPacket` and the other writers put on the
-- wire, and over any bytes at all.
use native.Mathlib.Numerals.{add-one, add-two}
use xmdm.Common.{
  ℕ, zero, suc, ◌+◌, ◌*◌, ◌/◌, ◌%◌, ◌^◌, ◌≤◌, ◌<◌, ◌≡◌, refl, ap, ◌∙◌, [], ◌∷◌, ◌++◌, length,
  append_assoc, arith, length-append, take, drop, take_append_left, drop_append_left,
}
use xmdm.Common.Int.{pos}
use xmdm.Mqtt.{
  Bytes, Wire, ok, err, length_too_large, ◌>>=◌, encode_remaining_length, encode_string, read_full,
  read_length_loop, read_remaining_length, decode_remaining_length, read_packet, read_mqtt_string,
  byte_at,
}
use xmdm.Mqtt.Length.{
  read-encode_remaining_length, read-encode_too_large, decode-encode_remaining_length,
}
use xmdm.Mqtt.Packets.{frame}

read_full-append : (xs ys : Bytes) → read_full (length xs) (xs ++ ys) ≡ ok (xs, ys)
unfolding read_full
read_full-append xs ys =
    ground (arith, length-append xs ys, take_append_left xs ys, drop_append_left xs ys)

-- The header and the length field are read, and then as many bytes as the field says.
read_packet-header :
    (header : ℕ) (field body : Bytes) {encoded rest : Bytes}
    → read_remaining_length (field ++ body) ≡ ok (encoded, rest)
    → read_packet (header ∷ field ++ body) ≡ (
        read_full (decode_remaining_length encoded) rest >>= λ b.
        ok ((header ∷ encoded) ++ b.0, b.1))
unfolding read_packet
read_packet-header header field body h = rw (read_full-append (header ∷ []) (field ++ body), h) refl

-- A frame whose body has fewer than 2 ^ 28 bytes is read back whole, and nothing behind it is
-- touched.
pub read_packet-frame :
    (header : ℕ) (body rest : Bytes)
    → length body < 128 ^ 4
    → read_packet (frame header body ++ rest) ≡ ok (frame header body, rest)
unfolding frame
read_packet-frame header body rest h =
    let field = encode_remaining_length (pos (length body)) in
    ap read_packet (ap (◌∷◌ header) (append_assoc field body rest))
    ∙ (read_packet-header header field (body ++ rest)
          (read-encode_remaining_length (length body) (body ++ rest) h)
        ∙ rw (decode-encode_remaining_length (length body), read_full-append body rest) refl)

-- A body of 2 ^ 28 bytes or more is refused by the reader.
pub read_packet-too_large :
    (header : ℕ) (body rest : Bytes)
    → 128 ^ 4 ≤ length body
    → read_packet (frame header body ++ rest) ≡ err length_too_large
unfolding read_packet frame
read_packet-too_large header body rest h =
    let field = encode_remaining_length (pos (length body)) in
    ap read_packet (ap (◌∷◌ header) (append_assoc field body rest))
    ∙ rw
        (
          read_full-append (header ∷ []) (field ++ (body ++ rest)),
          read-encode_too_large (length body) (body ++ rest) h,
        )
        refl

take-append-drop : (n : ℕ) (r : Bytes) → take n r ++ drop n r ≡ r
take-append-drop zero r = refl
take-append-drop (suc n) [] = refl
take-append-drop (suc n) (x ∷ r) = ap (◌∷◌ x) (take-append-drop n r)

module _ {ℓ κ} {A : Type ℓ} {B : Type κ} where
  continued :
      (w : Wire A) (next : A → Wire B) {out : B}
      → (w >>= next) ≡ ok out
      → (first : A) × (w ≡ ok first) × (next first ≡ ok out)
  continued (err e) next h = cc h
  continued (ok first) next h = (first, refl, h)

read_full-splits : (n : ℕ) (r : Bytes) {xs ys : Bytes} → read_full n r ≡ ok (xs, ys) → r ≡ xs ++ ys
unfolding read_full
read_full-splits n r h = ground (arith, take-append-drop n r)

read_length_loop-splits :
    (k : ℕ) (encoded r xs ys : Bytes)
    → read_length_loop k encoded r ≡ ok (xs, ys)
    → encoded ++ r ≡ xs ++ ys
unfolding read_length_loop
read_length_loop-splits zero encoded r xs ys h = cc
read_length_loop-splits (suc k) encoded [] xs ys h = cc
read_length_loop-splits (suc k) encoded (b ∷ r) xs ys h =
    ground (
      arith,
      append_assoc encoded (b ∷ []) r,
      read_length_loop-splits k (encoded ++ b ∷ []) r xs ys,
    )

read_remaining_length-splits :
    (r : Bytes) {xs ys : Bytes} → read_remaining_length r ≡ ok (xs, ys) → r ≡ xs ++ ys
unfolding read_remaining_length
read_remaining_length-splits r h = read_length_loop-splits 4 [] r _ _ h

-- Whatever the bytes: what `readPacket` returns, followed by what it leaves, is what it was given.
pub read_packet-splits :
    (r : Bytes) {packet rest : Bytes} → read_packet r ≡ ok (packet, rest) → r ≡ packet ++ rest
unfolding read_packet
read_packet-splits r {packet} {rest} h =
    let (a, first, h₁) = continued (read_full 1 r) _ h in
    let (b, second, h₂) = continued (read_remaining_length a.1) _ h₁ in
    let (c, third, h₃) = continued (read_full (decode_remaining_length b.0) b.1) _ h₂ in
    let whole : r ≡ a.0 ++ (b.0 ++ (c.0 ++ c.1)) = cc (
      read_full-splits 1 r first,
      read_remaining_length-splits a.1 second,
      read_full-splits (decode_remaining_length b.0) b.1 third,
    ) in
    cc (whole, append_assoc (a.0 ++ b.0) c.0 c.1, append_assoc a.0 b.0 (c.0 ++ c.1), h₃)

read_full-one : (r : Bytes) {xs ys : Bytes} → read_full 1 r ≡ ok (xs, ys) → 0 < length xs
unfolding read_full
read_full-one [] h = cc
read_full-one (b ∷ r) {xs} h = ground arith

-- Whatever the bytes: when `readPacket` returns, it leaves fewer bytes than it was given.
pub read_packet-shrinks :
    (r : Bytes) {packet rest : Bytes} → read_packet r ≡ ok (packet, rest) → length rest < length r
unfolding read_packet
read_packet-shrinks r {packet} {rest} h =
    let (a, first, h₁) = continued (read_full 1 r) _ h in
    let (b, second, h₂) = continued (read_remaining_length a.1) _ h₁ in
    let (c, third, h₃) = continued (read_full (decode_remaining_length b.0) b.1) _ h₂ in
    let whole : packet ≡ (a.0 ++ b.0) ++ c.0 = cc h₃ in
    omega (
      arith,
      ap length (read_packet-splits r h),
      length-append packet rest,
      ap length whole,
      length-append (a.0 ++ b.0) c.0,
      length-append a.0 b.0,
      read_full-one r first,
    )

byte_at-append : (before after : Bytes) (b : ℕ) → byte_at (before ++ b ∷ after) (length before) ≡ b
byte_at-append [] after b = refl
byte_at-append (x ∷ before) after b = byte_at-append before after b

byte_at-append_next :
    (before after : Bytes) (a b : ℕ) → byte_at (before ++ (a ∷ b ∷ after)) (suc (length before)) ≡ b
byte_at-append_next [] after a b = refl
byte_at-append_next (x ∷ before) after a b = byte_at-append_next before after a b

drop-append_two :
    (before after : Bytes) (a b : ℕ)
    → drop (suc (suc (length before))) (before ++ (a ∷ b ∷ after)) ≡ after
drop-append_two [] after a b = refl
drop-append_two (x ∷ before) after a b = drop-append_two before after a b

read_mqtt_string-append :
    (before value rest : Bytes) (hi lo : ℕ)
    → hi * 256 + lo ≡ length value
    → read_mqtt_string (before ++ (hi ∷ lo ∷ value ++ rest)) (length before)
      ≡ ok (value, length before + 2 + length value)
unfolding read_mqtt_string
read_mqtt_string-append before value rest hi lo h =
    rw
      (
        add-one,
        add-two,
        byte_at-append before (lo ∷ value ++ rest) hi,
        byte_at-append_next before (value ++ rest) hi lo,
        drop-append_two before (value ++ rest) hi lo,
        h,
        take_append_left value rest,
      )
      (ground (arith, length-append before (hi ∷ lo ∷ value ++ rest), length-append value rest))

-- `readMQTTString` at the place of an encoded string of fewer than 2 ^ 16 bytes returns it and the
-- place behind it.
pub read-encode_string :
    (before value rest : Bytes)
    → length value < 65536
    → read_mqtt_string (before ++ (encode_string value ++ rest)) (length before)
      ≡ ok (value, length before + 2 + length value)
unfolding encode_string
read-encode_string before value rest h =
    read_mqtt_string-append before value rest (length value % 65536 / 256) (length value % 256)
      (omega arith)
