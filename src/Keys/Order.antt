-- ===== src/Keys/Order.antt =====
-- The byte order of keys, in which SlateDB scans.
use native.Mathlib.Nat.{div-add-mod'}
use duckdb_object_storage.Common.{
  ℕ, zero, suc, ◌+◌, ◌*◌, ◌/◌, ◌%◌, ◌^◌, ◌<◌, ◌≡◌, refl, ap, Bool, true, false, ◌&&◌, ◌||◌, inl,
  inr, Bool-cases, ==→eq, List, [], ◌∷◌, ◌++◌, arith, ltb, ◌==◌,
}
use duckdb_object_storage.Keys.Hex.{hex_digit, hex, pow16_pos, low_digits}

-- `<=` on byte strings
unfoldable pub lex_le : List ℕ → List ℕ → Bool
lex_le [] ys = true
lex_le (x ∷ xs) [] = false
lex_le (x ∷ xs) (y ∷ ys) = ltb x y || ((x == y) && lex_le xs ys)

unfoldable pub starts_with : List ℕ → List ℕ → Bool
starts_with [] key = true
starts_with (p ∷ ps) [] = false
starts_with (p ∷ ps) (k ∷ ks) = (p == k) && starts_with ps ks

-- `==` on byte strings
unfoldable pub bytes_eq : List ℕ → List ℕ → Bool
bytes_eq [] [] = true
bytes_eq [] (y ∷ ys) = false
bytes_eq (x ∷ xs) [] = false
bytes_eq (x ∷ xs) (y ∷ ys) = (x == y) && bytes_eq xs ys

pub bytes_eq→eq : (xs ys : List ℕ) → bytes_eq xs ys ≡ true → xs ≡ ys
unfolding bytes_eq
bytes_eq→eq [] [] h = refl
bytes_eq→eq [] (y ∷ ys) h = cc
bytes_eq→eq (x ∷ xs) [] h = cc
bytes_eq→eq (x ∷ xs) (y ∷ ys) h = ground (arith, bytes_eq→eq xs ys)

pub bytes_eq_refl : (xs : List ℕ) → bytes_eq xs xs ≡ true
unfolding bytes_eq
bytes_eq_refl [] = refl
bytes_eq_refl (x ∷ xs) = ground (arith, bytes_eq_refl xs)

pub lex_le-append : (p xs ys : List ℕ) → lex_le (p ++ xs) (p ++ ys) ≡ lex_le xs ys
unfolding lex_le
lex_le-append [] xs ys = refl
lex_le-append (b ∷ p) xs ys = ground (arith, lex_le-append p xs ys)

pub starts_with-append : (p xs : List ℕ) → starts_with p (p ++ xs) ≡ true
unfolding starts_with
starts_with-append [] xs = refl
starts_with-append (b ∷ p) xs = ground (arith, starts_with-append p xs)

-- A key between two keys with one prefix has that prefix.
pub starts_with_between :
    (p xs ys key : List ℕ)
    → lex_le (p ++ xs) key ≡ true
    → lex_le key (p ++ ys) ≡ true
    → starts_with p key ≡ true
unfolding lex_le starts_with
starts_with_between [] xs ys key lo hi = refl
starts_with_between (b ∷ p) xs ys [] lo hi = cc
starts_with_between (b ∷ p) xs ys (k ∷ key) lo hi = ground (arith, starts_with_between p xs ys key)

digit_lt : (c d : ℕ) → ltb (hex_digit c) (hex_digit d) ≡ ltb c d
unfolding hex_digit
digit_lt c d = ground arith

digit_eq : (c d : ℕ) → (hex_digit c == hex_digit d) ≡ (c == d)
unfolding hex_digit
digit_eq c d = ground arith

quotient_below : (a b P : ℕ) → 0 < P → a / P < b / P → a < b
quotient_below a b P h lt = grind (arith, div-add-mod' a P, div-add-mod' b P)

same_quotient : (a b P : ℕ) → 0 < P → a / P ≡ b / P → ltb a b ≡ ltb (a % P) (b % P)
same_quotient a b P h e =
    let ea : a / P * P + a % P ≡ a = div-add-mod' a P in
    let eb : b / P * P + b % P ≡ b = div-add-mod' b P in
    let q : a / P * P ≡ b / P * P = ap (λ (t : ℕ). t * P) e in ground arith

hex_order_step :
    (a b P : ℕ) (tail : Bool)
    → 0 < P
    → (ltb (a / P) (b / P)
        || ((a / P == b / P) && (ltb (a % P) (b % P) || ((a % P == b % P) && tail))))
      ≡ (ltb a b || ((a == b) && tail))
hex_order_step a b P tail h = ground (
  arith,
  quotient_below a b P h,
  quotient_below b a P h,
  same_quotient a b P h,
  div-add-mod' a P,
  div-add-mod' b P,
)

hex_prefix_step :
    (a b P : ℕ) (tail : Bool)
    → 0 < P
    → ((a / P == b / P) && ((a % P == b % P) && tail)) ≡ ((a == b) && tail)
hex_prefix_step a b P tail h = elim (Bool-cases (a == b)) [
  | inl e ↦ ground (arith, ap (λ (t : ℕ). t / P) (==→eq a b e), ap (λ (t : ℕ). t % P) (==→eq a b e))
  | inr e ↦ ground (arith, same_quotient a b P h, same_quotient b a P (h), differ)
]
  where
    differ : a / P ≡ b / P → a % P ≡ b % P → a ≡ b
    differ p q =
        let ea : a / P * P + a % P ≡ a = div-add-mod' a P in
        let eb : b / P * P + b % P ≡ b = div-add-mod' b P in
        let r : a / P * P ≡ b / P * P = ap (λ (t : ℕ). t * P) p in omega arith

-- Two numbers in hexadecimal compare as the numbers do, and then by what follows them.
pub lex_le-hex :
    (n a b : ℕ) (xs ys : List ℕ)
    → a < 16 ^ n
    → b < 16 ^ n
    → lex_le (hex n a ++ xs) (hex n b ++ ys) ≡ (ltb a b || ((a == b) && lex_le xs ys))
unfolding lex_le hex
lex_le-hex zero a b xs ys ha hb = ground arith
lex_le-hex (suc n) a b xs ys ha hb = rw (digit_lt (a / 16 ^ n) (b / 16 ^ n)) (
    rw (digit_eq (a / 16 ^ n) (b / 16 ^ n)) (
      rw (lex_le-hex n (a % 16 ^ n) (b % 16 ^ n) xs ys (low_digits n a) (low_digits n b))
        (hex_order_step a b (16 ^ n) (lex_le xs ys) (pow16_pos n))))

pub starts_with-hex :
    (n a b : ℕ) (xs ys : List ℕ)
    → a < 16 ^ n
    → b < 16 ^ n
    → starts_with (hex n a ++ xs) (hex n b ++ ys) ≡ ((a == b) && starts_with xs ys)
unfolding starts_with hex
starts_with-hex zero a b xs ys ha hb = ground arith
starts_with-hex (suc n) a b xs ys ha hb = rw (digit_eq (a / 16 ^ n) (b / 16 ^ n)) (
    rw (starts_with-hex n (a % 16 ^ n) (b % 16 ^ n) xs ys (low_digits n a) (low_digits n b))
      (hex_prefix_step a b (16 ^ n) (starts_with xs ys) (pow16_pos n)))
