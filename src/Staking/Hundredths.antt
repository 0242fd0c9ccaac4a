-- ===== src/Staking/Hundredths.antt =====
-- A stand-in for the floats that computes, for concrete runs.
use waychain_consensus.Prelude.{ℕ, ◌+◌, ◌*◌, ◌/◌, ◌-◌, ◌^◌, if◌then◌else◌, ltb, ◌==◌}
use waychain_consensus.Staking.{Floats}

-- Hundredths in place of floats.
abbrev pub hundredths : Floats
hundredths = record {
  F = ℕ;
  from_uint64 = λ n. n * 100;
  to_uint64 = λ f. f / 100;
  ratio = λ n d. n * 100 / d;
  max_float = 10 ^ 15;
  add = λ a b. a + b;
  sub = λ a b. a - b;
  mul = λ a b. a * b / 100;
  div = λ a b. if b == 0 then 0 else a * 100 / b;
  min_f = λ a b. if ltb a b then a else b;
  le_zero = λ a. a == 0;
  lt_f = ltb;
}
