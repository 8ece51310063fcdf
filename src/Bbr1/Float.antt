-- ===== src/Bbr1/Float.antt =====
-- Go's `float64`, as bbrv1.go uses it, as a parameter of the model: each conversion, operation and
-- comparison that the file makes is a field. A conversion back is made of values that are not negative.
use moq_quic_bbrv3_go.Prelude.{ℕ, Bool, ◌*◌, ◌-◌, ◌/◌, ltb, leb, ◌==◌, if◌then◌else◌, max}

pub record Float (F : Type 0) : Type 0 where
  -- `float64(x)`, and `protocol.ByteCount(f)` or `monotime.Time(f)`.
  pub of_int : ℕ → F
  pub to_int : F → ℕ
  -- `lit n d` is the constant n / d.
  pub lit : ℕ → ℕ → F
  pub mul : F → F → F
  pub div : F → F → F
  pub sub : F → F → F
  pub larger : F → F → F
  pub lt : F → F → Bool
  pub ge : F → F → Bool

-- Fixed-point numbers with nine decimals, a concrete instance for tests: it is not `float64`. A
-- division by 0 answers a large number.
abbrev pub nano : ℕ
nano = 1_000_000_000

abbrev pub fixed : Float ℕ
fixed = record {
  of_int = λ x. x * nano;
  to_int = λ f. f / nano;
  lit = λ n d. n * nano / d;
  mul = λ a b. a * b / nano;
  div = λ a b. if b == 0 then nano * nano else a * nano / b;
  sub = λ a b. a - b;
  larger = max;
  lt = ltb;
  ge = λ a b. leb b a;
}
