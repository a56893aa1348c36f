-- ===== src/Keys/Hex.antt =====
-- The `{:016x}` format of a u64, and `u64::from_str_radix(_, 16)`.
use native.Mathlib.Nat.{div-lt_iff_lt-mul, mod-lt, div-add-mod', pow-succ'}
use duckdb_object_storage.Common.{
  ℕ, zero, suc, ◌+◌, ◌-◌, ◌*◌, ◌/◌, ◌%◌, ◌^◌, ◌<◌, ◌≡◌, ◌≢◌, refl, ap, ◌∙◌, ne→==, ◌&&◌, Option,
  none, some, List, [], ◌∷◌, arith, ltb, leb, ◌==◌, if◌then◌else◌, All, length, IsU64,
}

-- A lower-case hexadecimal digit.
unfoldable pub hex_digit : ℕ → ℕ
hex_digit d = if ltb d 10 then 48 + d else 87 + d

-- The last `width` hexadecimal digits of a number below `16 ^ width`, zeros in front.
unfoldable pub hex : ℕ → ℕ → List ℕ
unfolding hex_digit
hex zero v = []
hex (suc width) v = hex_digit (v / 16 ^ width) ∷ hex width (v % 16 ^ width)

-- `char::to_digit(16)`
digit_value : ℕ → Option ℕ
digit_value c =
    if leb b'0' c && leb c b'9'
    then some (c - 48)
    else if leb b'a' c && leb c b'f'
    then some (c - 87)
    else if leb b'A' c && leb c b'F'
    then some (c - 55)
    else none

-- Every digit multiplies by 16 and adds, and both steps are checked for overflow.
radix_loop : ℕ → List ℕ → Option ℕ
radix_loop acc [] = some acc
radix_loop acc (c ∷ cs) = elim (digit_value c) [
  | none ↦ none
  | some d ↦ if ltb (acc * 16 + d) 18446744073709551616 then radix_loop (acc * 16 + d) cs else none
]

after_sign : List ℕ → Option ℕ
after_sign [] = none
after_sign (c ∷ cs) = radix_loop 0 (c ∷ cs)

unfoldable pub from_str_radix_16 : List ℕ → Option ℕ
unfolding after_sign radix_loop digit_value
from_str_radix_16 [] = none
from_str_radix_16 (c ∷ cs) = if c == b'+' then after_sign cs else radix_loop 0 (c ∷ cs)

pub pow16_pos : (n : ℕ) → 0 < 16 ^ n
pow16_pos zero = omega arith
pow16_pos (suc n) = omega (arith, pow-succ' 16 n, pow16_pos n)

pub length-hex : (n v : ℕ) → length (hex n v) ≡ n
unfolding hex
length-hex zero v = refl
length-hex (suc n) v = ap suc (length-hex n (v % 16 ^ n))

pub top_digit : (n v : ℕ) → v < 16 ^ suc n → v / 16 ^ n < 16
top_digit n v h = (div-lt_iff_lt-mul (pow16_pos n)).1 (omega (arith, pow-succ' 16 n))

pub low_digits : (n v : ℕ) → v % 16 ^ n < 16 ^ n
low_digits n v = mod-lt v (pow16_pos n)

-- The format writes ASCII characters, and no slash.
abbrev pub IsPlain : ℕ → Type 0
IsPlain c = (c < 128) × (c ≢ b'/') × (c ≢ b'+')

hex_digit-IsPlain : (d : ℕ) → d < 16 → IsPlain (hex_digit d)
unfolding hex_digit
hex_digit-IsPlain d h = ground arith

pub hex-IsPlain : (n v : ℕ) → v < 16 ^ n → All IsPlain (hex n v)
unfolding hex
hex-IsPlain zero v h = tt
hex-IsPlain (suc n) v h =
    (hex_digit-IsPlain (v / 16 ^ n) (top_digit n v h), hex-IsPlain n (v % 16 ^ n) (low_digits n v))

digit_value-hex_digit : (d : ℕ) → d < 16 → digit_value (hex_digit d) ≡ some d
unfolding digit_value hex_digit
digit_value-hex_digit d h = ground arith

-- The value that a run of digits adds to an accumulator, one digit first.
shift_in : (acc v P : ℕ) → 0 < P → (acc * 16 + v / P) * P + v % P ≡ acc * (16 * P) + v
shift_in acc v P h = omega (arith, div-add-mod' v P)

fits_in : (acc v P : ℕ) → 0 < P → IsU64 (acc * (16 * P) + v) → IsU64 (acc * 16 + v / P)
fits_in acc v P h fits = grind (arith, shift_in acc v P)

radix_loop-hex :
    (n v acc : ℕ)
    → v < 16 ^ n
    → IsU64 (acc * 16 ^ n + v)
    → radix_loop acc (hex n v) ≡ some (acc * 16 ^ n + v)
unfolding radix_loop hex
radix_loop-hex zero v acc h fits = ground arith
radix_loop-hex (suc n) v acc h fits = ground (
  arith,
  pow16_pos n,
  pow-succ' 16 n,
  digit_value-hex_digit (v / 16 ^ n) (top_digit n v h),
  shift_in acc v (16 ^ n) (pow16_pos n),
  fits_in acc v (16 ^ n) (pow16_pos n),
  radix_loop-hex n (v % 16 ^ n) (acc * 16 + v / 16 ^ n) (low_digits n v),
)

no_sign :
    (d : ℕ) (cs : List ℕ)
    → d < 16
    → from_str_radix_16 (hex_digit d ∷ cs) ≡ radix_loop 0 (hex_digit d ∷ cs)
unfolding from_str_radix_16
no_sign d cs h = rw (ne→== _ _ (hex_digit-IsPlain d h).2)

-- Parsing the sixteen digits of a u64 gives it back.
pub from_str_radix_16-hex : (v : ℕ) → IsU64 v → from_str_radix_16 (hex 16 v) ≡ some v
unfolding hex
from_str_radix_16-hex v h =
    no_sign (v / 16 ^ 15) (hex 15 (v % 16 ^ 15)) (omega arith)
    ∙ radix_loop-hex 16 v 0 (omega arith) (omega arith)
    ∙ ap {A = ℕ} {B = Option ℕ} some (omega arith)
