-- ===== src/Reconcile/Rows.antt =====
-- massa-indexer/src/ingest.rs: rows that one write may replace.
use massa_history.Base.{
  Bool, true, false, ◌≡◌, refl, Option, some, inl, inr, ◌⊎◌, if◌then◌else◌, some_injective,
}

module _ {A : Type 0} where
  pub put-cases :
      (c : Bool) (new : A) (old : Option A) {found : A}
      → (if c then some new else old) ≡ some found
      → ((c ≡ true) × (new ≡ found)) ⊎ (old ≡ some found)
  put-cases true new old e = inl (refl, some_injective e)
  put-cases false new old e = inr e

  -- What held of the old row holds of the row that is there now.
  pub put_if :
      (P : A → Type 0) (c : Bool) (new : A) (old : Option A)
      → (c ≡ true → P new)
      → (m : A) × (old ≡ some m) × P m
      → (m : A) × ((if c then some new else old) ≡ some m) × P m
  put_if P true new old h k = (new, refl, h refl)
  put_if P false new old h k = k
