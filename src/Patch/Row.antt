-- ===== src/Patch/Row.antt =====
-- What the stages of `apply_peer_patch` (massa-indexer/src/peer/patch.rs) do to the slot's row.
use massa_history.Base.{
  ℕ, Bool, true, false, not, ◌&&◌, ◌≡◌, refl, subst, ◌∙◌, Option, none, some, inl, inr, ◌⊎◌,
  if◌then◌else◌,
}
use massa_history.Base.Result.{ok}
use massa_history.Ids.{Text, BlockId}
use massa_history.Model.{Slot, SlotState, SlotStatus, SlotCompleteness}
use massa_history.Model.Rows.{StoredBlock}
use massa_history.Db.{Db, Libs, Action, pure, ◌>>=◌, ◌>>◌}
use massa_history.Db.Frame.{Keeps, ok_injective, >>=-ok, >>=-Keeps, if-Keeps}
use massa_history.Patch.{FinalSlotResponse}
use massa_history.Patch.Parts.{apply_block_part, apply_exec_part, apply_transfers_part, is_some}
use massa_history.Patch.Frame.{
  apply_block_part-Keeps, apply_exec_part-Keeps, apply_transfers_part-Keeps,
}
use massa_history.Patch.Apply.{
  Progress, with_body, with_miss, block_stage, ships_exec, with_exec, exec_stage, ships_transfers,
  with_transfers, transfers_stage,
}

-- Each part that the first has, the second has too.
pub data Grows (c d : SlotCompleteness) : Type 0 where
  grows :
      (c.block_body_stored ≡ true → d.block_body_stored ≡ true)
      → (c.exec_output_final ≡ true → d.exec_output_final ≡ true)
      → (c.transfers_stored ≡ true → d.transfers_stored ≡ true)
      → Grows c d

-- What no stage after the verdict changes.
abbrev pub Verdicts : Type 0
Verdicts = Slot × SlotStatus × Bool × Option BlockId × Option Text

abbrev pub verdicts : SlotState → Verdicts
verdicts row = (row.slot, row.status, row.is_miss, row.final_block_id, row.execution_trail_hash)

pub data Extends (p q : Progress) : Type 0 where
  extends :
      (verdicts q.row ≡ verdicts p.row)
      → (q.out.became_final ≡ p.out.became_final)
      → (q.out.divergence_repaired ≡ p.out.divergence_repaired)
      → Grows p.row.completeness q.row.completeness
      → Extends p q

pub Grows-refl : {c : SlotCompleteness} → Grows c c
Grows-refl = grows (λ e. e) (λ e. e) (λ e. e)

pub Grows-trans : {c d e : SlotCompleteness} → Grows c d → Grows d e → Grows c e
Grows-trans (grows a b c) (grows a' b' c') = grows (λ h. a' (a h)) (λ h. b' (b h)) (λ h. c' (c h))

pub Extends-refl : {p : Progress} → Extends p p
Extends-refl = extends refl refl refl Grows-refl

pub Extends-trans : {p q r : Progress} → Extends p q → Extends q r → Extends p r
Extends-trans (extends v b d g) (extends v' b' d' g') =
    extends (v' ∙ v) (b' ∙ b) (d' ∙ d) (Grows-trans g g')

with_body-Extends : (body : Option StoredBlock) (p : Progress) → Extends p (with_body body p)
unfolding with_body
with_body-Extends none p = Extends-refl
with_body-Extends (some b) p = extends refl refl refl (grows (λ e. refl) (λ e. e) (λ e. e))

pub with_miss-Extends : (is_miss : Bool) (p : Progress) → Extends p (with_miss is_miss p)
unfolding with_miss
with_miss-Extends true p = extends refl refl refl (grows (λ e. refl) (λ e. e) (λ e. e))
with_miss-Extends false p = Extends-refl

-- An action under a condition, with another that only passes a value on.
pub when-ok :
    {A : Type 0} (c : Bool) (act : Action A) (a : A) (db : Db) {b : A}
    → ((if c then act else pure a) db).0 ≡ ok b
    → ((c ≡ true) × ((act db).0 ≡ ok b)) ⊎ (a ≡ b)
when-ok true act a db e = inl (refl, e)
when-ok false act a db e = inr (ok_injective e)

-- An action, then a value of it.
pub map-ok :
    {A B : Type 0} (act : Action A) (f : A → B) (db : Db) {b : B}
    → ((act >>= λ a. pure (f a)) db).0 ≡ ok b
    → (a : A) × (f a ≡ b)
map-ok act f db e = let (a, _, is, _) = >>=-ok act (λ a. pure (f a)) db e in (a, ok_injective is)

module _ (libs : Libs) (resp : FinalSlotResponse) (now_ms : ℕ) where
  pub block_stage-Extends :
      (p : Progress) (db : Db) {q : Progress}
      → (block_stage libs resp now_ms p db).0 ≡ ok q
      → Extends p q
  unfolding block_stage
  block_stage-Extends p db e =
      elim (when-ok (is_some resp.block && not resp.is_miss)
        (apply_block_part libs resp now_ms >>= λ body.
          pure (with_miss resp.is_miss (with_body body p)))
        (with_miss resp.is_miss p) db e) [
          | inl (_, run) ↦
              let (body, is) =
                map-ok (apply_block_part libs resp now_ms)
                  (λ body. with_miss resp.is_miss (with_body body p)) db run in
              subst (Extends p) is (
                Extends-trans (with_body-Extends body p)
                  (with_miss-Extends resp.is_miss (with_body body p)))
          | inr is ↦ subst (Extends p) is (with_miss-Extends resp.is_miss p)
        ]

  pub exec_stage-Extends :
      (p : Progress) (db : Db) {q : Progress} → (exec_stage libs resp p db).0 ≡ ok q → Extends p q
  unfolding exec_stage with_exec
  exec_stage-Extends p db e =
      elim (when-ok (ships_exec resp && not p.row.completeness.exec_output_final)
        (apply_exec_part libs resp >> pure (with_exec libs resp p)) p db e) [
          | inl (_, run) ↦
              let (_, is) =
                map-ok (apply_exec_part libs resp) (λ _. with_exec libs resp p) db run in
              subst (Extends p) is (extends refl refl refl (grows (λ e. e) (λ e. refl) (λ e. e)))
          | inr is ↦ subst (Extends p) is Extends-refl
        ]

  pub transfers_stage-Extends :
      (p : Progress) (db : Db) {q : Progress}
      → (transfers_stage libs resp now_ms p db).0 ≡ ok q
      → Extends p q
  unfolding transfers_stage with_transfers
  transfers_stage-Extends p db e =
      elim (when-ok (ships_transfers resp && not p.row.completeness.transfers_stored)
        (apply_transfers_part libs resp now_ms >> pure (with_transfers p)) p db e) [
          | inl (_, run) ↦
              let (_, is) =
                map-ok (apply_transfers_part libs resp now_ms) (λ _. with_transfers p) db run in
              subst (Extends p) is (extends refl refl refl (grows (λ e. e) (λ e. e) (λ e. refl)))
          | inr is ↦ subst (Extends p) is Extends-refl
        ]

  pub block_stage-Keeps : (p : Progress) → Keeps (block_stage libs resp now_ms p)
  unfolding block_stage
  block_stage-Keeps p =
      if-Keeps (is_some resp.block && not resp.is_miss) _ _
        (>>=-Keeps (apply_block_part libs resp now_ms) _ (apply_block_part-Keeps libs resp now_ms)
          (λ _ db. refl))
        (λ db. refl)

  pub exec_stage-Keeps : (p : Progress) → Keeps (exec_stage libs resp p)
  unfolding exec_stage
  exec_stage-Keeps p =
      if-Keeps (ships_exec resp && not p.row.completeness.exec_output_final) _ (pure p)
        (>>=-Keeps (apply_exec_part libs resp) _ (apply_exec_part-Keeps libs resp) (λ _ db. refl))
        (λ db. refl)

  pub transfers_stage-Keeps : (p : Progress) → Keeps (transfers_stage libs resp now_ms p)
  unfolding transfers_stage
  transfers_stage-Keeps p =
      if-Keeps (ships_transfers resp && not p.row.completeness.transfers_stored) _ (pure p)
        (>>=-Keeps (apply_transfers_part libs resp now_ms) _
          (apply_transfers_part-Keeps libs resp now_ms) (λ _ db. refl))
        (λ db. refl)
