-- ===== src/Varint/Bytes.antt =====
-- The masks of varint.go on one byte as arithmetic: tables that are checked by evaluation.
use Prim.Native.Nat.{bit_and, bit_or}
use moq_quic_bbrv3_go.Prelude.{
  ℕ, zero, suc, ◌+◌, ◌*◌, ◌/◌, ◌%◌, ◌<◌, ◌≡◌, refl, arith, Bool, true, ◌&&◌, ◌==◌,
}

-- Two functions agree on every number below a bound.
agree_below : (ℕ → ℕ) → (ℕ → ℕ) → ℕ → Bool
agree_below f g zero = true
agree_below f g (suc n) = f n == g n && agree_below f g n

agree_below→eq : (f g : ℕ → ℕ) (n i : ℕ) → agree_below f g n ≡ true → i < n → f i ≡ g i
unfolding agree_below
agree_below→eq f g zero i e h = absurd (omega arith)
agree_below→eq f g (suc n) i e h = ground (arith, agree_below→eq f g n i)

pub low_six : (b : ℕ) → b < 256 → bit_and b 0x3f ≡ b % 64
unfolding agree_below
low_six b h = agree_below→eq (λ x. bit_and x 0x3f) (λ x. x % 64) 256 b refl h

pub top_two : (b : ℕ) → b < 256 → bit_and b 0xc0 ≡ b / 64 * 64
unfolding agree_below
top_two b h = agree_below→eq (λ x. bit_and x 0xc0) (λ x. x / 64 * 64) 256 b refl h

pub tag_two : (b : ℕ) → b < 64 → bit_or b 0x40 ≡ b + 64
unfolding agree_below
tag_two b h = agree_below→eq (λ x. bit_or x 0x40) (λ x. x + 64) 64 b refl h

pub tag_four : (b : ℕ) → b < 64 → bit_or b 0x80 ≡ b + 128
unfolding agree_below
tag_four b h = agree_below→eq (λ x. bit_or x 0x80) (λ x. x + 128) 64 b refl h

pub tag_eight : (b : ℕ) → b < 64 → bit_or b 0xc0 ≡ b + 192
unfolding agree_below
tag_eight b h = agree_below→eq (λ x. bit_or x 0xc0) (λ x. x + 192) 64 b refl h
