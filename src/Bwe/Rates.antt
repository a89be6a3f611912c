-- ===== src/Bwe/Rates.antt =====
-- Bit rates of crates/session/src/bwe/bandwidth.rs. A rate is an `f64`, which is an interface here;
-- instants and durations of the standard library are nanoseconds.
use game_streamer_agent.Base.{ℕ, ◌*◌, ◌-◌, Bool}

-- The operations of `f64` that the code uses.
pub record Float64 (F : Type 0) : Type 0 where
  pub of_u64 : ℕ → F
  -- The literal `n` over a power of ten, as in `decimal 85 100` for `0.85`.
  pub decimal : ℕ → ℕ → F
  pub plus : F → F → F
  pub minus : F → F → F
  pub times : F → F → F
  pub over : F → F → F
  pub min_of : F → F → F
  pub max_of : F → F → F
  pub below : F → F → Bool
  pub at_most : F → F → Bool
  pub same : F → F → Bool
  pub infinity : F
  -- `Duration::from_secs_f64`, in nanoseconds
  pub from_secs : F → ℕ

module _ {F : Type 0} ⦃fl : Float64 F⦄ where
  abbrev pub bps : ℕ → F
  bps n = fl.of_u64 n

  abbrev pub kbps : ℕ → F
  kbps n = bps (n * 1000)

  abbrev pub is_zero : F → Bool
  is_zero r = fl.same r (bps 0)

  abbrev pub decimal_times : F → ℕ → ℕ → F
  decimal_times r n d = fl.times r (fl.decimal n d)

abbrev pub millis : ℕ → ℕ
millis n = n * 1_000_000

abbrev pub secs : ℕ → ℕ
secs n = n * 1_000_000_000

-- `Duration::MAX`
abbrev pub longest : ℕ
longest = 18_446_744_073_709_551_615_999_999_999

-- `now.saturating_duration_since(t)`
abbrev pub elapsed : ℕ → ℕ → ℕ
elapsed now t = now - t
