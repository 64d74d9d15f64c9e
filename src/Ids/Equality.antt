-- ===== src/Ids/Equality.antt =====
-- The derived `==` of identifiers decides their equality.
use massa_history.Base.{true, ◌≡◌, refl, ◌↔◌, List, [], ◌∷◌, ℕ, arith}
use massa_history.Ids.{Family, FamilyId, bytes_eq, id_eq}

pub bytes_eq→eq : (xs ys : List ℕ) → bytes_eq xs ys ≡ true → xs ≡ ys
unfolding bytes_eq
bytes_eq→eq [] [] h = refl
bytes_eq→eq [] (y ∷ ys) h = cc
bytes_eq→eq (x ∷ xs) [] h = cc
bytes_eq→eq (x ∷ xs) (y ∷ ys) h = ground (arith, bytes_eq→eq xs ys)

pub bytes_eq_refl : (xs : List ℕ) → bytes_eq xs xs ≡ true
unfolding bytes_eq
bytes_eq_refl [] = refl
bytes_eq_refl (x ∷ xs) = ground (arith, bytes_eq_refl xs)

pub bytes_eq_iff : (xs ys : List ℕ) → (bytes_eq xs ys ≡ true) ↔ (xs ≡ ys)
bytes_eq_iff xs ys = (bytes_eq→eq xs ys, λ e. rw (← e) (bytes_eq_refl xs))

pub id_eq_refl : {f : Family} (x : FamilyId f) → id_eq x x ≡ true
unfolding id_eq
id_eq_refl x = ground (arith, bytes_eq_refl x.key, bytes_eq_refl x.text)

pub id_eq→eq : {f : Family} (x y : FamilyId f) → id_eq x y ≡ true → x ≡ y
unfolding id_eq
id_eq→eq x y h = ground (arith, bytes_eq→eq x.key y.key, bytes_eq→eq x.text y.text)

pub id_eq_iff : {f : Family} (x y : FamilyId f) → (id_eq x y ≡ true) ↔ (x ≡ y)
id_eq_iff x y = (id_eq→eq x y, λ e. rw (← e) (id_eq_refl x))
