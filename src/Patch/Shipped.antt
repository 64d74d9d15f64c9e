-- ===== src/Patch/Shipped.antt =====
-- massa-indexer/src/peer/patch.rs: the parts that a response ships are the parts that the row then has.
use massa_history.Base.{
  ℕ, Bool, true, false, not, ◌&&◌, ◌≡◌, refl, ◌∙◌, subst, Option, none, some, if◌then◌else◌,
  some_injective, arith,
}
use massa_history.Base.Result.{ok}
use massa_history.Model.Rows.{StoredBlock}
use massa_history.Db.{Db, Libs, Action, pure, read_block}
use massa_history.Db.Frame.{Gives, ok_injective, >>=-ok, >>=-Gives, pure-Gives, if-Gives}
use massa_history.Patch.{FinalSlotResponse}
use massa_history.Patch.Parts.{
  apply_block_part, shipped_part, block_part, write_if_absent, apply_ops, apply_endorsements,
  apply_denunciations, apply_exec_part, apply_transfers_part, is_some,
}
use massa_history.Patch.Row.{
  grows, Extends, extends, with_miss-Extends, exec_stage-Extends, transfers_stage-Extends,
}
use massa_history.Patch.Apply.{
  Progress, with_body, with_miss, block_stage, ships_exec, with_exec, exec_stage, ships_transfers,
  with_transfers, transfers_stage,
}

-- A stage that is left out found its part stored.
left_out : (ships stored : Bool) → ships ≡ true → (ships && not stored) ≡ false → stored ≡ true
left_out ships stored e n = ground arith

-- An action under a condition that holds.
when-only :
    {A : Type 0} (c : Bool) (act : Action A) (a : A) (db : Db) {b : A}
    → c ≡ true
    → ((if c then act else pure a) db).0 ≡ ok b
    → (act db).0 ≡ ok b
when-only true act a db e run = run
when-only false act a db e run = cc e

has_exec :
    (p q : Progress)
    → Extends p q
    → p.row.completeness.exec_output_final ≡ true
    → q.row.completeness.exec_output_final ≡ true
has_exec p q (extends _ _ _ (grows _ b _)) e = b e

has_body :
    (p q : Progress)
    → Extends p q
    → p.row.completeness.block_body_stored ≡ true
    → q.row.completeness.block_body_stored ≡ true
has_body p q (extends _ _ _ (grows b _ _)) e = b e

some-eq : {A : Type 0} (a b : A) → some (some a) ≡ some (some b) → some a ≡ some b
some-eq a b e = some_injective e

-- The row has every part that the response ships in a form that can be stored.
pub data Takes (resp : FinalSlotResponse) (q : Progress) : Type 0 where
  takes :
      ((b : StoredBlock)
        → resp.block ≡ some (some b)
        → resp.is_miss ≡ false
        → q.row.completeness.block_body_stored ≡ true)
      → (ships_exec resp ≡ true → q.row.completeness.exec_output_final ≡ true)
      → (ships_transfers resp ≡ true → q.row.completeness.transfers_stored ≡ true)
      → Takes resp q

module _ (libs : Libs) (resp : FinalSlotResponse) (now_ms : ℕ) where
  abbrev Body : Progress → Type 0
  Body q = q.row.completeness.block_body_stored ≡ true

  -- A body that decodes is what the part gives back.
  block_part-Gives :
      (b : StoredBlock) → Gives (λ found. found ≡ some b) (block_part libs resp now_ms b)
  unfolding block_part
  block_part-Gives b =
      let P : Option StoredBlock → Type 0 = λ found. found ≡ some b in
      >>=-Gives P (read_block b.id) _ λ old. >>=-Gives P (write_if_absent b old) _ λ _.
        >>=-Gives P (apply_ops resp.operations) _ λ _.
          >>=-Gives P (apply_endorsements libs resp.endorsements) _ λ _.
            >>=-Gives P (apply_denunciations libs now_ms b.id b.denunciations) _
              λ _. pure-Gives P (some b) refl

  shipped-Gives :
      (b : StoredBlock) (shipped : Option (Option StoredBlock))
      → shipped ≡ some (some b)
      → Gives (λ found. found ≡ some b) (shipped_part libs resp now_ms shipped)
  unfolding shipped_part
  shipped-Gives b none e = cc e
  shipped-Gives b (some none) e = cc e
  shipped-Gives b (some (some c)) e =
      λ db found run. block_part-Gives c db found run ∙ some-eq c b e

  with_body-Body :
      (b : StoredBlock) (body : Option StoredBlock) (p : Progress)
      → body ≡ some b
      → Body (with_miss resp.is_miss (with_body body p))
  unfolding with_body
  with_body-Body b none p e = cc e
  with_body-Body b (some c) p e =
      has_body (with_body (some c) p) _ (with_miss-Extends resp.is_miss (with_body (some c) p)) refl

  block_stage-Gives :
      (b : StoredBlock) (p : Progress)
      → resp.block ≡ some (some b)
      → resp.is_miss ≡ false
      → Gives Body (block_stage libs resp now_ms p)
  unfolding block_stage apply_block_part
  block_stage-Gives b p ships held db q run =
      let taken : (is_some resp.block && not resp.is_miss) ≡ true = rw (ships, held) in
      let (body, found, is, _) =
        >>=-ok (apply_block_part libs resp now_ms) _ db
          (when-only _ _ (with_miss resp.is_miss p) db taken run) in
      subst Body (ok_injective is)
        (with_body-Body b body p (shipped-Gives b resp.block ships db body found))

  exec_stage-Gives :
      (p : Progress)
      → ships_exec resp ≡ true
      → Gives (λ q. q.row.completeness.exec_output_final ≡ true) (exec_stage libs resp p)
  unfolding exec_stage with_exec
  exec_stage-Gives p ships =
      let P : Progress → Type 0 = λ q. q.row.completeness.exec_output_final ≡ true in
      if-Gives P (ships_exec resp && not p.row.completeness.exec_output_final) _ (pure p)
        (λ _.
          >>=-Gives P (apply_exec_part libs resp) _ λ _. pure-Gives P (with_exec libs resp p) refl)
        λ no. pure-Gives P p (left_out (ships_exec resp) _ ships no)

  transfers_stage-Gives :
      (p : Progress)
      → ships_transfers resp ≡ true
      → Gives (λ q. q.row.completeness.transfers_stored ≡ true) (transfers_stage libs resp now_ms p)
  unfolding transfers_stage with_transfers
  transfers_stage-Gives p ships =
      let P : Progress → Type 0 = λ q. q.row.completeness.transfers_stored ≡ true in
      if-Gives P (ships_transfers resp && not p.row.completeness.transfers_stored) _ (pure p)
        (λ _.
          >>=-Gives P (apply_transfers_part libs resp now_ms) _
            λ _. pure-Gives P (with_transfers p) refl)
        λ no. pure-Gives P p (left_out (ships_transfers resp) _ ships no)

  pub stages-Takes :
      (p p1 p2 p3 : Progress) (db1 db2 db3 : Db)
      → (block_stage libs resp now_ms p db1).0 ≡ ok p1
      → (exec_stage libs resp p1 db2).0 ≡ ok p2
      → (transfers_stage libs resp now_ms p2 db3).0 ≡ ok p3
      → Takes resp p3
  stages-Takes p p1 p2 p3 db1 db2 db3 x1 x2 x3 =
      let late : Extends p2 p3 = transfers_stage-Extends libs resp now_ms p2 db3 x3 in
      takes
        (λ b ships held. has_body p2 p3 late (
          has_body p1 p2 (exec_stage-Extends libs resp now_ms p1 db2 x2)
            (block_stage-Gives b p ships held db1 p1 x1)))
        (λ ships. has_exec p2 p3 late (exec_stage-Gives p1 ships db2 p2 x2))
        (λ ships. transfers_stage-Gives p2 ships db3 p3 x3)
