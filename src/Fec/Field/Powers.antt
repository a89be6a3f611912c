-- ===== src/Fec/Field/Powers.antt =====
-- What the tables hold: the powers of the generator, and their logarithms.
use native.Mathlib.Nat.{zero-add}
use game_streamer_agent.Base.{
  ◌≢◌, ℕ, zero, suc, ◌+◌, ◌≡◌, ◌<◌, refl, sym, ap, ◌∙◌, Bool, true, ◌&&◌, ◌||◌, List, [], ◌∷◌,
  arith, bit_xor, ◌==◌, ==_iff, ltb, ltb→lt, get_or, holds_below, holds_below_at,
}
use game_streamer_agent.Fec.Field.{double, build_tables, exp_at, log_at}

-- `x` doubled `n` times.
unfoldable pub doubled : ℕ → ℕ → ℕ
doubled zero x = x
doubled (suc n) x = double (doubled n x)

powers : ℕ → ℕ → List ℕ
unfolding double
powers zero x = []
powers (suc n) x = x ∷ powers n (double x)

exp_table : build_tables.exp ≡ powers 510 1
unfolding build_tables powers
exp_table = refl

xor_row : ℕ → ℕ → Bool
xor_row a b = double (bit_xor a b) == bit_xor (double a) (double b)

double_row : ℕ → Bool
double_row a = ltb (double a) 256 && holds_below (xor_row a) 256

double_table : holds_below double_row 256 ≡ true
unfolding holds_below double double_row xor_row
double_table = refl

log_check : List ℕ → List ℕ → ℕ → Bool
log_check exp log a = a == 0 || (ltb (get_or log a 0) 255 && get_or exp (get_or log a 0) 0 == a)

log_checks : List ℕ → List ℕ → Bool
unfolding log_check holds_below
log_checks exp log = holds_below (log_check exp log) 256

log_table : log_checks build_tables.exp build_tables.log ≡ true
unfolding log_checks build_tables
log_table = refl

-- `double` stays within a byte and goes under exclusive or.
pub double-lt : (a : ℕ) → a < 256 → double a < 256
unfolding double_row
double-lt a h = ground (arith, holds_below_at double_row a h double_table)

pub double-bit_xor :
    (a b : ℕ) → a < 256 → b < 256 → double (bit_xor a b) ≡ bit_xor (double a) (double b)
unfolding xor_row double_row
double-bit_xor a b h k =
    let row : holds_below (xor_row a) 256 ≡ true =
      ground (arith, holds_below_at double_row a h double_table) in
    (==_iff _ _).0 (holds_below_at (xor_row a) b k row)

pub doubled-lt : (n x : ℕ) → x < 256 → doubled n x < 256
unfolding doubled
doubled-lt zero x h = h
doubled-lt (suc n) x h = double-lt (doubled n x) (doubled-lt n x h)

pub doubled-bit_xor :
    (n a b : ℕ) → a < 256 → b < 256 → doubled n (bit_xor a b) ≡ bit_xor (doubled n a) (doubled n b)
unfolding doubled
doubled-bit_xor zero a b h k = refl
doubled-bit_xor (suc n) a b h k =
    ap double (doubled-bit_xor n a b h k)
    ∙ double-bit_xor (doubled n a) (doubled n b) (doubled-lt n a h) (doubled-lt n b k)

pub doubled-add : (m n x : ℕ) → doubled (m + n) x ≡ doubled m (doubled n x)
unfolding doubled
doubled-add zero n x = rw zero-add
doubled-add (suc m) n x =
    let e : suc m + n ≡ suc (m + n) = omega arith in rw e (ap double (doubled-add m n x))

doubled_comm : (n x : ℕ) → doubled n (double x) ≡ double (doubled n x)
unfolding doubled
doubled_comm zero x = refl
doubled_comm (suc n) x = ap double (doubled_comm n x)

get_or-powers : (n x i : ℕ) → i < n → get_or (powers n x) i 0 ≡ doubled i x
unfolding powers doubled
get_or-powers zero x i h = absurd (omega arith)
get_or-powers (suc n) x zero h = refl
get_or-powers (suc n) x (suc i) h = get_or-powers n (double x) i (omega arith) ∙ doubled_comm i x

-- The table of powers holds the powers of the generator.
pub exp_at-doubled : (i : ℕ) → i < 510 → exp_at i ≡ doubled i 1
unfolding exp_at
exp_at-doubled i h = rw exp_table (get_or-powers 510 1 i h)

log_row :
    (a : ℕ)
    → a ≢ 0
    → log_check build_tables.exp build_tables.log a ≡ true
    → (log_at a < 255) × (exp_at (log_at a) ≡ a)
unfolding log_check log_at exp_at
log_row a nz e = ground arith

-- The table of logarithms holds, for a byte that is not 0, the exponent of the generator.
pub log_at_lem : (a : ℕ) → a < 256 → a ≢ 0 → (log_at a < 255) × (doubled (log_at a) 1 ≡ a)
unfolding log_checks
log_at_lem a h nz =
    let row : log_check build_tables.exp build_tables.log a ≡ true =
      holds_below_at (log_check build_tables.exp build_tables.log) a h log_table in
    let (small, back) = log_row a nz row in
    (small, sym (exp_at-doubled (log_at a) (omega arith)) ∙ back)

pos_check : List ℕ → Bool
unfolding holds_below
pos_check exp = holds_below (λ i. ltb 0 (get_or exp i 0)) 510

pos_table : pos_check build_tables.exp ≡ true
unfolding pos_check build_tables
pos_table = refl

pub exp_at_pos : (i : ℕ) → i < 510 → 0 < exp_at i
unfolding pos_check exp_at
exp_at_pos i h =
    ltb→lt 0 _ (holds_below_at (λ j. ltb 0 (get_or build_tables.exp j 0)) i h pos_table)
