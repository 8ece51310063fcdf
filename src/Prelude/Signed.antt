-- ===== src/Prelude/Signed.antt =====
-- Go's `int64`, kept as the 64 bits of its two's complement.
use Prim.Native.Nat.{ℕ, ◌-◌, ◌/◌, ◌^◌, ◌<◌}
use mathlib.Core.Path.{◌≡◌}
use mathlib.Core.Bool.{Bool, not}
use native.Mathlib.Omega.{arith}
use moq_quic_bbrv3_go.Prelude.Tests.{ltb, if◌then◌else◌, wrap64}

abbrev is_negative : ℕ → Bool
is_negative a = not (ltb a (2 ^ 63))

-- The absolute value.
abbrev size64 : ℕ → ℕ
size64 a = if is_negative a then 2 ^ 64 - a else a

-- Go's `/` on `int64`. By zero, where Go panics, it is 0.
unfoldable pub quot64 : ℕ → ℕ → ℕ
quot64 a b =
    let q = size64 a / size64 b in
    if is_negative a
    then if is_negative b then wrap64 q else wrap64 (2 ^ 64 - q)
    else if is_negative b
    then wrap64 (2 ^ 64 - q)
    else q

-- Where neither is negative it is the division of numbers.
pub quot64_small : (a b : ℕ) → a < 2 ^ 63 → b < 2 ^ 63 → quot64 a b ≡ a / b
unfolding quot64
quot64_small a b h k = ground arith
