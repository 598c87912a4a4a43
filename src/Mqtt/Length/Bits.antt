-- ===== src/Mqtt/Length/Bits.antt =====
-- The masks of a length byte, checked over all bytes: 0x80 tells whether another byte follows, and
-- 127 leaves the seven bits of the digit.
use Prim.Native.Nat.{bit_and, bit_or}
use xmdm.Common.{
  ℕ, zero, suc, ◌<◌, ◌≡◌, refl, Bool, true, false, if◌then◌else◌, Bool-cases, inl, inr, arith, ◌==◌,
  ==_iff,
}

-- A test of every number under a bound.
passes_under : ℕ → (ℕ → Bool) → Bool
passes_under zero test = true
passes_under (suc top) test = if test top then passes_under top test else false

passes_under-at :
    (test : ℕ → Bool) (bound b : ℕ) → b < bound → passes_under bound test ≡ true → test b ≡ true
unfolding passes_under
passes_under-at test zero b small h = absurd (omega (arith, small))
passes_under-at test (suc top) b small h = elim (Bool-cases (test top)) [
  | inl here ↦ ground (arith, h, here, passes_under-at test top b)
  | inr fails ↦ absurd (ground (arith, h, fails))
]

last_table : passes_under 128 (λ b. bit_and b 0x80 == 0) ≡ true
unfolding passes_under
last_table = refl

marked_table : passes_under 128 (λ b. bit_and (bit_or b 0x80) 0x80 == 128) ≡ true
unfolding passes_under
marked_table = refl

digit_table : passes_under 128 (λ b. bit_and (bit_or b 0x80) 127 == b) ≡ true
unfolding passes_under
digit_table = refl

plain_table : passes_under 128 (λ b. bit_and b 127 == b) ≡ true
unfolding passes_under
plain_table = refl

pub bit_and-last : (b : ℕ) → b < 128 → bit_and b 0x80 ≡ 0
bit_and-last b h = (==_iff _ _).0 (passes_under-at (λ b. bit_and b 0x80 == 0) 128 b h last_table)

pub bit_and-marked : (b : ℕ) → b < 128 → bit_and (bit_or b 0x80) 0x80 ≡ 128
bit_and-marked b h =
    (==_iff _ _).0 (passes_under-at (λ b. bit_and (bit_or b 0x80) 0x80 == 128) 128 b h marked_table)

pub bit_and-digit : (b : ℕ) → b < 128 → bit_and (bit_or b 0x80) 127 ≡ b
bit_and-digit b h =
    (==_iff _ _).0 (passes_under-at (λ b. bit_and (bit_or b 0x80) 127 == b) 128 b h digit_table)

pub bit_and-plain : (b : ℕ) → b < 128 → bit_and b 127 ≡ b
bit_and-plain b h = (==_iff _ _).0 (passes_under-at (λ b. bit_and b 127 == b) 128 b h plain_table)
