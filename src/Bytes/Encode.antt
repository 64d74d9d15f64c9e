-- ===== src/Bytes/Encode.antt =====
-- `from_be_bytes` and `to_be_bytes` are inverse to one another, and `!` undoes itself.
use native.Mathlib.Nat.{pow-suc}
use massa_history.Base.{
  ℕ, zero, suc, ◌+◌, ◌*◌, ◌/◌, ◌%◌, ◌^◌, ◌<◌, ◌≡◌, refl, ap, ap₂, ◌∙◌, [], ◌∷◌, ◌++◌, map, length,
  append_assoc, append-nil, arith,
}
use massa_history.Bytes.{Bytes, IsBytes, to_be_bytes, be_from, from_be_bytes, not_u8}

be_from-snoc :
    (acc : ℕ) (bs : Bytes) (b : ℕ) → be_from acc (bs ++ b ∷ []) ≡ be_from acc bs * 256 + b
unfolding be_from
be_from-snoc acc [] b = refl
be_from-snoc acc (c ∷ bs) b = be_from-snoc (acc * 256 + c) bs b

-- A number that fits its width is decoded from its bytes.
pub from-to_be_bytes : (w n : ℕ) → n < 256 ^ w → from_be_bytes (to_be_bytes w n) ≡ n
unfolding from_be_bytes to_be_bytes
from-to_be_bytes zero n h = omega arith
from-to_be_bytes (suc w) n h = omega (
  arith,
  be_from-snoc 0 (to_be_bytes w (n / 256)) (n % 256),
  from-to_be_bytes w (n / 256) (omega (arith, pow-suc 256 w)),
)

to_be-from :
    (bs : Bytes) (k acc : ℕ)
    → IsBytes bs
    → to_be_bytes (k + length bs) (be_from acc bs) ≡ to_be_bytes k acc ++ bs
unfolding be_from
to_be-from [] k acc h = rw append-nil (ap (λ w. to_be_bytes w acc) (omega arith))
to_be-from (b ∷ bs) k acc h =
    ap (λ w. to_be_bytes w (be_from (acc * 256 + b) bs)) (omega arith)
    ∙ to_be-from bs (suc k) (acc * 256 + b) h.1
    ∙ (unfold to_be_bytes in
        ap₂ (λ q r. (to_be_bytes k q ++ r ∷ []) ++ bs) (omega arith) (omega arith)
        ∙ append_assoc (to_be_bytes k acc) (b ∷ []) bs)

-- Bytes are encoded from the number that they stand for.
pub to-from_be_bytes :
    (w : ℕ) (bs : Bytes) → length bs ≡ w → IsBytes bs → to_be_bytes w (from_be_bytes bs) ≡ bs
unfolding from_be_bytes
to-from_be_bytes w bs e h =
    ap (λ v. to_be_bytes v (be_from 0 bs)) (omega arith)
    ∙ to_be-from bs 0 0 h
    ∙ (unfold to_be_bytes in refl)

not-not_u8 : (b : ℕ) → b < 256 → not_u8 (not_u8 b) ≡ b
unfolding not_u8
not-not_u8 b h = omega arith

pub map-not-not : (bs : Bytes) → IsBytes bs → map not_u8 (map not_u8 bs) ≡ bs
map-not-not [] h = refl
map-not-not (b ∷ bs) h = ap₂ (λ x xs. x ∷ xs) (not-not_u8 b h.0) (map-not-not bs h.1)

pub IsBytes-append : (as' bs : Bytes) → IsBytes as' → IsBytes bs → IsBytes (as' ++ bs)
IsBytes-append [] bs h k = k
IsBytes-append (a ∷ as') bs h k = (h.0, IsBytes-append as' bs h.1 k)

pub to_be_bytes-IsBytes : (w n : ℕ) → IsBytes (to_be_bytes w n)
unfolding to_be_bytes
to_be_bytes-IsBytes zero n = tt
to_be_bytes-IsBytes (suc w) n =
    IsBytes-append (to_be_bytes w (n / 256)) ((n % 256) ∷ []) (to_be_bytes-IsBytes w (n / 256))
      (omega arith, tt)

pub map-not-IsBytes : (bs : Bytes) → IsBytes (map not_u8 bs)
unfolding not_u8
map-not-IsBytes [] = tt
map-not-IsBytes (b ∷ bs) = (omega arith, map-not-IsBytes bs)
