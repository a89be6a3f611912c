-- ===== src/Bwe/Fixed.antt =====
-- Rates in ten-thousandths of a bit per second in place of the `f64` of crates/session/src/bwe, for
-- runs of the code.
use game_streamer_agent.Base.{ℕ, ◌+◌, ◌-◌, ◌*◌, ◌/◌, min, max, ltb, leb, ◌==◌}
use game_streamer_agent.Bwe.Rates.{Float64}
use game_streamer_agent.Bwe.Estimator.{Float64Sizes, nonnegative}

instance abbrev pub fixed : Float64 ℕ
fixed = record {
  of_u64 = λ n. n * 10_000;
  decimal = λ n d. n * 10_000 / d;
  plus = λ a b. a + b;
  minus = λ a b. a - b;
  times = λ a b. a * b / 10_000;
  over = λ a b. a * 10_000 / b;
  min_of = min;
  max_of = max;
  below = ltb;
  at_most = leb;
  same = ◌==◌;
  infinity = 1_000_000_000_000_000_000_000_000_000_000;
  from_secs = λ a. a * 100_000;
}

instance abbrev pub fixed_sizes : Float64Sizes ℕ
fixed_sizes = record {
  as_secs = λ n. n / 100_000;
  as_usize = λ a. a / 10_000;
  as_i64 = λ a. nonnegative (a / 10_000);
  round = λ a. a;
}
