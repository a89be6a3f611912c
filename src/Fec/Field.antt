-- ===== src/Fec/Field.antt =====
-- The arithmetic of GF(2^8) of crates/protocol/src/fec.rs, by tables. A `u8` is a number below 256.
pub mod Powers
pub mod Laws
use game_streamer_agent.Base.{
  ℕ, zero, suc, ◌+◌, ◌-◌, ◌*◌, ◌%◌, Bool, ◌||◌, List, bit_and, bit_xor, ◌==◌, if◌then◌else◌, get_or,
  set, replicate,
}

pub record Tables : Type 0 where
  pub exp : List ℕ
  pub log : List ℕ

-- `x <<= 1; if x & 0x100 != 0 { x ^= 0x11d }` on a `u16`.
unfoldable pub double : ℕ → ℕ
double x = let y = x * 2 % 0x1_0000 in if bit_and y 0x100 == 0 then y else bit_xor y 0x11d

-- The rounds of the `while` loop that are left, at index `i` and at the power `x`.
unfoldable pub fill : ℕ → ℕ → ℕ → Tables → Tables
unfolding double
fill zero i x t = t
fill (suc rounds) i x t =
    fill rounds (suc i) (double x) (record {
      exp = set (set t.exp i (x % 256)) (i + 255) (x % 256);
      log = set t.log x (i % 256);
    })

unfoldable pub build_tables : Tables
unfolding fill
build_tables = fill 255 0 1 (record { exp = replicate 510 0; log = replicate 256 0 })

-- `TABLES.exp[i]` and `TABLES.log[a]`; both indices are in range wherever the code reads them.
unfoldable pub exp_at : ℕ → ℕ
exp_at i = get_or build_tables.exp i 0

unfoldable pub log_at : ℕ → ℕ
log_at a = get_or build_tables.log a 0

unfoldable pub mul : ℕ → ℕ → ℕ
mul a b = if a == 0 || b == 0 then 0 else exp_at (log_at a + log_at b)

unfoldable pub inv : ℕ → ℕ
inv a = exp_at (255 - log_at a)

unfoldable pub coef : ℕ → ℕ → ℕ → ℕ
unfolding inv
coef k j i = inv (bit_xor (k + j) i % 256)
