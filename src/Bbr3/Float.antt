-- ===== src/Bbr3/Float.antt =====
-- Go's `float64`, which the controller uses for gains and rates, as a parameter of the model.
-- A program value of type `float64` is an element of `F`, and each conversion and operation that
-- bbrv3.go makes is a field.
use moq_quic_bbrv3_go.Prelude.{ℕ, ◌*◌, ◌+◌, ◌-◌, ◌/◌}

pub record Float (F : Type 0) : Type 0 where
  -- `float64(x)` of a `uint64`, and `uint64(f)`.
  pub of_u64 : ℕ → F
  pub to_u64 : F → ℕ
  -- `lit n d` is the constant n / d: `lit 277 100` is 2.77.
  pub lit : ℕ → ℕ → F
  pub mul : F → F → F
  pub div : F → F → F
  pub add : F → F → F
  pub sub : F → F → F
  -- `d.Seconds()` of a duration in nanoseconds.
  pub seconds : ℕ → F

-- Fixed-point numbers with nine decimals: a concrete instance for tests. It is not `float64`.
abbrev pub nano : ℕ
nano = 1_000_000_000

abbrev pub fixed : Float ℕ
fixed = record {
  of_u64 = λ x. x * nano;
  to_u64 = λ f. f / nano;
  lit = λ n d. n * nano / d;
  mul = λ a b. a * b / nano;
  div = λ a b. a * nano / b;
  add = λ a b. a + b;
  sub = λ a b. a - b;
  seconds = λ d. d;
}
