-- ===== src/Base/Lists.antt =====
-- Lists measured and cut by native numbers, under the library's names.
use Prim.Native.Nat.{ℕ, zero, suc, ◌+◌, ◌-◌, ◌≤◌}
use mathlib.Core.Path.{◌≡◌, refl, ap, ◌∙◌}
use mathlib.Core.List.{List, [], ◌∷◌, ◌++◌, map}
use mathlib.Core.Option.{Option, none, some}
use native.Mathlib.Omega.{arith}

module _ {ℓ} {A : Type ℓ} where
  abbrev pub length : List A → ℕ
  length [] = 0
  length (x ∷ xs) = suc (length xs)

  abbrev pub get_elem? : List A → ℕ → Option A
  get_elem? [] i = none
  get_elem? (x ∷ xs) zero = some x
  get_elem? (x ∷ xs) (suc i) = get_elem? xs i

  abbrev pub get_or : List A → ℕ → A → A
  get_or [] i d = d
  get_or (x ∷ xs) zero d = x
  get_or (x ∷ xs) (suc i) d = get_or xs i d

  abbrev pub take : ℕ → List A → List A
  take zero xs = []
  take (suc n) [] = []
  take (suc n) (x ∷ xs) = x ∷ take n xs

  abbrev pub drop : ℕ → List A → List A
  drop zero xs = xs
  drop (suc n) [] = []
  drop (suc n) (x ∷ xs) = drop n xs

  -- `xs[lo..hi]`, within the bounds.
  abbrev pub slice : ℕ → ℕ → List A → List A
  slice lo hi xs = take (hi - lo) (drop lo xs)

  pub length-append : (xs ys : List A) → length (xs ++ ys) ≡ length xs + length ys
  length-append [] ys = omega arith
  length-append (x ∷ xs) ys = omega (arith, length-append xs ys)

  pub take-append-drop : (n : ℕ) (xs : List A) → take n xs ++ drop n xs ≡ xs
  take-append-drop zero xs = refl
  take-append-drop (suc n) [] = refl
  take-append-drop (suc n) (x ∷ xs) = ap (λ ys. x ∷ ys) (take-append-drop n xs)

  pub length-take : (n : ℕ) (xs : List A) → n ≤ length xs → length (take n xs) ≡ n
  length-take zero xs h = refl
  length-take (suc n) [] h = absurd (omega arith)
  length-take (suc n) (x ∷ xs) h = omega (arith, length-take n xs (omega arith))

  pub length-drop : (n : ℕ) (xs : List A) → length (drop n xs) ≡ length xs - n
  length-drop zero xs = omega arith
  length-drop (suc n) [] = omega arith
  length-drop (suc n) (x ∷ xs) = omega (arith, length-drop n xs)

  -- A part of known length is cut off again.
  pub take-append : (n : ℕ) (xs ys : List A) → length xs ≡ n → take n (xs ++ ys) ≡ xs
  take-append zero [] ys h = refl
  take-append zero (x ∷ xs) ys h = absurd (omega arith)
  take-append (suc n) [] ys h = absurd (omega arith)
  take-append (suc n) (x ∷ xs) ys h = ap (λ zs. x ∷ zs) (take-append n xs ys (omega arith))

  pub drop-append : (n : ℕ) (xs ys : List A) → length xs ≡ n → drop n (xs ++ ys) ≡ ys
  drop-append zero [] ys h = refl
  drop-append zero (x ∷ xs) ys h = absurd (omega arith)
  drop-append (suc n) [] ys h = absurd (omega arith)
  drop-append (suc n) (x ∷ xs) ys h = drop-append n xs ys (omega arith)

  pub take-length : (n : ℕ) (xs : List A) → length xs ≡ n → take n xs ≡ xs
  take-length zero [] h = refl
  take-length zero (x ∷ xs) h = absurd (omega arith)
  take-length (suc n) [] h = refl
  take-length (suc n) (x ∷ xs) h = ap (λ zs. x ∷ zs) (take-length n xs (omega arith))

  pub get_or-append :
      (n : ℕ) (xs : List A) (x : A) (ys : List A) (d : A)
      → length xs ≡ n
      → get_or (xs ++ x ∷ ys) n d ≡ x
  get_or-append zero [] x ys d h = refl
  get_or-append zero (y ∷ xs) x ys d h = absurd (omega arith)
  get_or-append (suc n) [] x ys d h = absurd (omega arith)
  get_or-append (suc n) (y ∷ xs) x ys d h = get_or-append n xs x ys d (omega arith)

  -- The last entry behind the others.
  pub take-get_or :
      (n : ℕ) (xs : List A) (d : A) → length xs ≡ suc n → take n xs ++ get_or xs n d ∷ [] ≡ xs
  take-get_or zero [] d h = absurd (omega arith)
  take-get_or zero (x ∷ []) d h = refl
  take-get_or zero (x ∷ y ∷ xs) d h = absurd (omega arith)
  take-get_or (suc n) [] d h = absurd (omega arith)
  take-get_or (suc n) (x ∷ xs) d h = ap (λ ys. x ∷ ys) (take-get_or n xs d (omega arith))

  -- What stands behind two parts of known lengths.
  pub drop-append-append :
      (k : ℕ) (xs ys zs : List A) → length xs + length ys ≡ k → drop k (xs ++ (ys ++ zs)) ≡ zs
  drop-append-append k [] ys zs h = drop-append k ys zs (omega arith)
  drop-append-append zero (x ∷ xs) ys zs h = absurd (omega arith)
  drop-append-append (suc k) (x ∷ xs) ys zs h = drop-append-append k xs ys zs (omega arith)

  -- The middle of three parts.
  pub take-drop-append :
      (n m : ℕ) (xs ys zs : List A)
      → length xs ≡ n
      → length ys ≡ m
      → take m (drop n (xs ++ (ys ++ zs))) ≡ ys
  take-drop-append n m xs ys zs h k =
      ap (take m) (drop-append n xs (ys ++ zs) h) ∙ take-append m ys zs k

  abbrev pub All {κ} : (A → Type κ) → List A → Type κ
  All P [] = Unit
  All P (x ∷ xs) = P x × All P xs

module _ {ℓ} {A : Type ℓ} where
  pub length-map {κ} : {B : Type κ} (f : A → B) (xs : List A) → length (map f xs) ≡ length xs
  length-map f [] = refl
  length-map f (x ∷ xs) = ap suc (length-map f xs)

-- Some entry of a list has a property.
pub data Any {A : Type 0} (P : A → Type 0) : List A → Type 0 where
  here : {x : A} {rest : List A} → P x → Any P (x ∷ rest)
  there : {x : A} {rest : List A} → Any P rest → Any P (x ∷ rest)

module _ {A : Type 0} {P : A → Type 0} where
  pub in_front : (xs ys : List A) → Any P xs → Any P (xs ++ ys)
  in_front (x ∷ xs) ys (here p) = here p
  in_front (x ∷ xs) ys (there h) = there (in_front xs ys h)
  in_front [] ys h = elim h [ ]

  pub behind : (xs ys : List A) → Any P ys → Any P (xs ++ ys)
  behind [] ys h = h
  behind (x ∷ xs) ys h = there (behind xs ys h)
