-- ===== src/Registry/Lists.antt =====
-- Lists without repetitions, and properties of all entries of a map.
use massa_history.Base.{
  Bool, true, false, not, ◌≡◌, refl, inl, inr, some, List, [], ◌∷◌, ◌++◌, All, Bool-cases, arith,
  ap₂, subst, some_injective,
}
use massa_history.Ids.{Text, bytes_eq}
use massa_history.Ids.Equality.{bytes_eq→eq}
use massa_history.Registry.{retain, any_eq, push_new, push_all_new, find, remove, insert}

module _ {ℓ} {A : Type ℓ} where
  pub All-retain {κ} :
      (P : A → Type κ) (keep : A → Bool) (xs : List A) → All P xs → All P (retain keep xs)
  All-retain P keep [] h = tt
  All-retain P keep (x ∷ xs) (here, rest) = elim (Bool-cases (keep x)) [
    | inl is ↦ rw is (here, All-retain P keep xs rest)
    | inr off ↦ rw off (All-retain P keep xs rest)
  ]

  -- What is retained passes the test.
  pub All-retain-keep : (keep : A → Bool) (xs : List A) → All (λ x. keep x ≡ true) (retain keep xs)
  All-retain-keep keep [] = tt
  All-retain-keep keep (x ∷ xs) = elim (Bool-cases (keep x)) [
    | inl is ↦ rw is (is, All-retain-keep keep xs)
    | inr off ↦ rw off (All-retain-keep keep xs)
  ]

  pub All-zip {κ} :
      (P Q R : A → Type κ) (xs : List A)
      → ((x : A) → P x → Q x → R x)
      → All P xs
      → All Q xs
      → All R xs
  All-zip P Q R [] f hs ks = tt
  All-zip P Q R (x ∷ xs) f (h, hs) (k, ks) = (f x h k, All-zip P Q R xs f hs ks)

module _ {ℓ} {A : Type ℓ} (eq : A → A → Bool) where
  -- No entry is equal to one behind it.
  abbrev pub Distinct : List A → Type 0
  Distinct [] = Unit
  Distinct (x ∷ xs) = (any_eq eq x xs ≡ false) × Distinct xs

  any_eq-retain :
      (keep : A → Bool) (x : A) (xs : List A)
      → any_eq eq x xs ≡ false
      → any_eq eq x (retain keep xs) ≡ false
  any_eq-retain keep x [] h = refl
  any_eq-retain keep x (y ∷ ys) h = elim (Bool-cases (keep y)) [
    | inl is ↦ ground (arith, is, h, any_eq-retain keep x ys)
    | inr off ↦ ground (arith, off, h, any_eq-retain keep x ys)
  ]

  pub Distinct-retain : (keep : A → Bool) (xs : List A) → Distinct xs → Distinct (retain keep xs)
  Distinct-retain keep [] h = tt
  Distinct-retain keep (x ∷ xs) (new, rest) = elim (Bool-cases (keep x)) [
    | inl is ↦ rw is (any_eq-retain keep x xs new, Distinct-retain keep xs rest)
    | inr off ↦ rw off (Distinct-retain keep xs rest)
  ]

  module _ (comm : (x y : A) → eq x y ≡ eq y x) where
    any_eq-append :
        (x y : A) (ys : List A)
        → any_eq eq x ys ≡ false
        → eq y x ≡ false
        → any_eq eq x (ys ++ y ∷ []) ≡ false
    any_eq-append x y [] h k = ground (arith, k)
    any_eq-append x y (z ∷ zs) h k = ground (arith, h, any_eq-append x y zs, k)

    Distinct-append :
        (x : A) (xs : List A) → any_eq eq x xs ≡ false → Distinct xs → Distinct (xs ++ x ∷ [])
    Distinct-append x [] h d = (refl, tt)
    Distinct-append x (y ∷ ys) h (new, rest) = (
      any_eq-append y x ys new (ground (arith, h, comm x y)),
      Distinct-append x ys (ground (arith, h)) rest,
    )

    pub Distinct-push_new : (x : A) (xs : List A) → Distinct xs → Distinct (push_new eq x xs)
    Distinct-push_new x xs d = elim (Bool-cases (any_eq eq x xs)) [
      | inl there ↦ rw there d
      | inr new ↦ rw new (Distinct-append x xs new d)
    ]

    pub Distinct-push_all_new : (ys xs : List A) → Distinct xs → Distinct (push_all_new eq ys xs)
    Distinct-push_all_new [] xs d = d
    Distinct-push_all_new (y ∷ ys) xs d =
        Distinct-push_all_new ys (push_new eq y xs) (Distinct-push_new y xs d)

pub bytes_eq_comm : (s t : Text) → bytes_eq s t ≡ bytes_eq t s
unfolding bytes_eq
bytes_eq_comm [] [] = refl
bytes_eq_comm [] (b ∷ bs) = refl
bytes_eq_comm (a ∷ as') [] = refl
bytes_eq_comm (a ∷ as') (b ∷ bs) = ground (arith, bytes_eq_comm as' bs)

module _ {ℓ} {A : Type ℓ} where
  pub find-All {κ} :
      (P : (Text × A) → Type κ) (k : Text) (entries : List (Text × A)) (v : A)
      → All P entries
      → find k entries ≡ some v
      → P (k, v)
  find-All P k [] v h e = cc e
  find-All P k ((j, w) ∷ rest) v (here, later) e = elim (Bool-cases (bytes_eq j k)) [
    | inl is ↦ subst P (ap₂ (λ i u. (i, u)) (bytes_eq→eq j k is) (some_injective (rw is at e))) here
    | inr off ↦ find-All P k rest v later (rw off at e)
  ]

  abbrev pub same_key : (Text × A) → (Text × A) → Bool
  same_key e f = bytes_eq e.0 f.0

  any_key-absent :
      (k : Text) (v : A) (entries : List (Text × A))
      → All (λ e. not (bytes_eq e.0 k) ≡ true) entries
      → any_eq same_key (k, v) entries ≡ false
  any_key-absent k v [] h = refl
  any_key-absent k v (e ∷ rest) (here, later) = ground (arith, here, any_key-absent k v rest later)

  pub Distinct-insert :
      (k : Text) (v : A) (entries : List (Text × A))
      → Distinct same_key entries
      → Distinct same_key (insert k v entries)
  Distinct-insert k v entries d = (
    any_key-absent k v (remove k entries) (All-retain-keep _ entries),
    Distinct-retain same_key _ entries d,
  )
