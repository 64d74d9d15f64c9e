-- ===== src/Bytes/Order.antt =====
-- The order of byte strings: by parts of equal length, of big-endian numbers, of complements.
use native.Mathlib.Nat.{pow-suc}
use massa_history.Base.{
  ℕ, zero, suc, ◌/◌, ◌%◌, ◌^◌, ◌<◌, compare, Ordering, ◌≡◌, refl, ap, ap₂, sym, ◌∙◌, [], ◌∷◌, ◌++◌,
  map, length, arith,
}
use massa_history.Bytes.{
  Bytes, IsBytes, to_be_bytes, not_u8, then_with, cmp_bytes, length-to_be_bytes,
}

pub then_with_assoc : (a b c : Ordering) → then_with (then_with a b) c ≡ then_with a (then_with b c)
then_with_assoc Ordering.lt b c = refl
then_with_assoc Ordering.eq b c = refl
then_with_assoc Ordering.gt b c = refl

pub then_with-eq : (a : Ordering) → then_with a Ordering.eq ≡ a
then_with-eq Ordering.lt = refl
then_with-eq Ordering.eq = refl
then_with-eq Ordering.gt = refl

-- Behind parts of equal length the rest decides only if these are equal.
pub cmp-append :
    (xs ys : Bytes) (xs' ys' : Bytes)
    → length xs ≡ length ys
    → cmp_bytes (xs ++ xs') (ys ++ ys') ≡ then_with (cmp_bytes xs ys) (cmp_bytes xs' ys')
unfolding cmp_bytes
cmp-append [] [] xs' ys' h = refl
cmp-append [] (y ∷ ys) xs' ys' h = absurd (omega arith)
cmp-append (x ∷ xs) [] xs' ys' h = absurd (omega arith)
cmp-append (x ∷ xs) (y ∷ ys) xs' ys' h =
    ap (then_with (compare x y)) (cmp-append xs ys xs' ys' (omega arith))
    ∙ sym (then_with_assoc (compare x y) (cmp_bytes xs ys) (cmp_bytes xs' ys'))

pub cmp_refl : (xs : Bytes) → cmp_bytes xs xs ≡ Ordering.eq
unfolding cmp_bytes
cmp_refl [] = refl
cmp_refl (x ∷ xs) = ground (arith, cmp_refl xs)

compare_digits :
    (n m : ℕ) → then_with (compare (n / 256) (m / 256)) (compare (n % 256) (m % 256)) ≡ compare n m
compare_digits n m = ground arith

cmp_byte : (a b : ℕ) → cmp_bytes (a ∷ []) (b ∷ []) ≡ compare a b
unfolding cmp_bytes
cmp_byte a b = then_with-eq (compare a b)

-- Big-endian bytes stand in the order of the numbers.
pub cmp-to_be_bytes :
    (w n m : ℕ)
    → n < 256 ^ w
    → m < 256 ^ w
    → cmp_bytes (to_be_bytes w n) (to_be_bytes w m) ≡ compare n m
unfolding to_be_bytes cmp_bytes
cmp-to_be_bytes zero n m h k = ground arith
cmp-to_be_bytes (suc w) n m h k =
    cmp-append (to_be_bytes w (n / 256)) (to_be_bytes w (m / 256)) ((n % 256) ∷ []) ((m % 256) ∷ [])
      (length-to_be_bytes w (n / 256) ∙ sym (length-to_be_bytes w (m / 256)))
    ∙ ap₂ then_with
        (cmp-to_be_bytes w (n / 256) (m / 256) (omega (arith, pow-suc 256 w))
          (omega (arith, pow-suc 256 w)))
        (cmp_byte (n % 256) (m % 256))
    ∙ compare_digits n m

compare-not : (a b : ℕ) → a < 256 → b < 256 → compare (not_u8 a) (not_u8 b) ≡ compare b a
unfolding not_u8
compare-not a b h k = ground arith

-- Complementing every byte turns the order round.
pub cmp-map-not :
    (xs ys : Bytes)
    → IsBytes xs
    → IsBytes ys
    → length xs ≡ length ys
    → cmp_bytes (map not_u8 xs) (map not_u8 ys) ≡ cmp_bytes ys xs
unfolding cmp_bytes
cmp-map-not [] [] h k e = refl
cmp-map-not [] (y ∷ ys) h k e = absurd (omega arith)
cmp-map-not (x ∷ xs) [] h k e = absurd (omega arith)
cmp-map-not (x ∷ xs) (y ∷ ys) h k e =
    ap₂ then_with (compare-not x y h.0 k.0) (cmp-map-not xs ys h.1 k.1 (omega arith))
