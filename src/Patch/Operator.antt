-- ===== src/Patch/Operator.antt =====
-- massa-indexer/src/peer/patch.rs: what an operator's `apply_forced_verdict` ensures.
use massa_history.Base.{
  ℕ, Bool, true, false, ◌&&◌, ◌≡◌, refl, sym, ap, ◌∙◌, subst, Option, none, some, inl, inr, ltb,
  if◌then◌else◌, Bool-cases, arith,
}
use massa_history.Base.Result.{ok}
use massa_history.Ids.{Text, BlockId}
use massa_history.Model.{SlotState, SlotStatus}
use massa_history.Arbiter.{Verdict, of_local, of_peer}
use massa_history.Arbiter.Evidence.{verdict_eq_refl, verdict_eq→eq}
use massa_history.Db.{Db, Libs, Action, pure, read_slot, write_slot, broadcast}
use massa_history.Db.Frame.{>>=-ok}
use massa_history.Patch.{
  FinalSlotResponse, no_outcome, slot_of, or_fresh, named_block, peer_trail, touched,
}
use massa_history.Patch.Parts.{adopted_row, adopt_peer_verdict, apply_finality_to_blocks}
use massa_history.Patch.Stored.{stored-here, write_slot-Stores}
use massa_history.Patch.Verdict.{adopt-is}
use massa_history.Patch.Outcome.{start}
use massa_history.Patch.Promotion.{is_final-eq}
use massa_history.Patch.Apply.{is_final}
use massa_history.Patch.Forced.{already, verdict_is, force, force_to, apply_forced_verdict}

-- The slot's row is FINAL with that verdict.
abbrev pub HasVerdict : FinalSlotResponse → Verdict → Db → Type 0
HasVerdict resp v db =
    (row : SlotState) × (db.slots resp.period resp.thread ≡ some row)
    × (row.status ≡ SlotStatus.final)
    × (of_local row ≡ some v)

adopted-of_local :
    (is_miss : Bool) (bid : Option BlockId) (trail : Option Text) (row : SlotState) (v : Verdict)
    → of_peer is_miss bid ≡ some v
    → of_local (adopted_row is_miss bid trail row) ≡ some v
unfolding adopted_row of_local of_peer
adopted-of_local true bid trail row v e = e
adopted-of_local false bid trail row v e = e

same-of_local :
    (row : SlotState) (s : SlotStatus) (now_ms : ℕ)
    → of_local (touched now_ms (record row { status = s })) ≡ of_local row
unfolding of_local
same-of_local row s now_ms = refl

verdict_is-eq : (o : Option Verdict) (v : Verdict) → verdict_is o v ≡ true → o ≡ some v
verdict_is-eq none v e = cc e
verdict_is-eq (some w) v e = ap some (verdict_eq→eq w v e)

both : (a b : Bool) → (a && b) ≡ true → (a ≡ true) × (b ≡ true)
both a b e = ground arith

module _ (libs : Libs) (resp : FinalSlotResponse) (now_ms : ℕ) where
  -- What a forced run stores.
  force-HasVerdict :
      (v : Verdict) (row : SlotState) (db : Db) (b : Bool)
      → row.slot ≡ slot_of resp
      → of_peer resp.is_miss (named_block libs.b58 resp) ≡ some v
      → (force libs resp now_ms row db).0 ≡ ok b
      → HasVerdict resp v (force libs resp now_ms row db).1
  unfolding force broadcast write_slot adopted_row
  force-HasVerdict v row db b at said e =
      let bid = named_block libs.b58 resp in
      let (adopted, run, e1, s1) =
        >>=-ok (adopt_peer_verdict libs row resp bid (peer_trail resp)) _ db e in
      let db1 : Db = (adopt_peer_verdict libs row resp bid (peer_trail resp) db).1 in
      let last : SlotState = touched now_ms (record adopted { status = SlotStatus.final }) in
      let (_, _, e2, s2) =
        >>=-ok (apply_finality_to_blocks last.final_block_id last.candidate_block_ids) _ db1 e1 in
      let db2 : Db =
        (apply_finality_to_blocks last.final_block_id last.candidate_block_ids db1).1 in
      let is = adopt-is libs resp (record { row = row; out = no_outcome }) db run in
      let now : Db = (force libs resp now_ms row db).1 in
      let there : now.slots last.slot.period last.slot.thread ≡ some last =
        ap (λ d. d.slots last.slot.period last.slot.thread) (s1 ∙ s2)
        ∙ stored-here last db2 (write_slot last db2).1 (write_slot-Stores last db2) in
      (
        last,
        subst (λ x. now.slots x.period x.thread ≡ some last) (ap (λ r. r.slot) (sym is) ∙ at) there,
        refl,
        same-of_local adopted SlotStatus.final now_ms
            ∙ ap of_local (sym is)
            ∙ adopted-of_local resp.is_miss bid (peer_trail resp) row v said,
      )

  -- The row on which nothing is forced has the verdict.
  already-HasVerdict :
      (v : Verdict) (db : Db) (found : Option SlotState)
      → db.slots resp.period resp.thread ≡ found
      → already (or_fresh (slot_of resp) now_ms found) v ≡ true
      → HasVerdict resp v db
  unfolding already or_fresh
  already-HasVerdict v db none e a = cc a
  already-HasVerdict v db (some row) e a =
      let (fin, is) = both (is_final row.status) (verdict_is (of_local row) v) a in
      (row, e, is_final-eq row.status fin, verdict_is-eq (of_local row) v is)

  if-HasVerdict :
      (v : Verdict) (row : SlotState) (db : Db) (b : Bool) (c : Bool)
      → row.slot ≡ slot_of resp
      → of_peer resp.is_miss (named_block libs.b58 resp) ≡ some v
      → (c ≡ true → HasVerdict resp v db)
      → ((if c then pure false else force libs resp now_ms row) db).0 ≡ ok b
      → HasVerdict resp v ((if c then pure false else force libs resp now_ms row) db).1
  if-HasVerdict v row db b true at said there e = there refl
  if-HasVerdict v row db b false at said there e = force-HasVerdict v row db b at said e

  force_to-HasVerdict :
      (db : Db) (b : Bool) (target : Option Verdict)
      → (start libs resp now_ms db).row.slot ≡ slot_of resp
      → of_peer resp.is_miss (named_block libs.b58 resp) ≡ target
      → (force_to libs resp now_ms (start libs resp now_ms db).row target db).0 ≡ ok b
      → (v : Verdict) × (target ≡ some v)
        × HasVerdict resp v (force_to libs resp now_ms (start libs resp now_ms db).row target db).1
  unfolding force_to
  force_to-HasVerdict db b none at said e = cc e
  force_to-HasVerdict db b (some v) at said e = (
    v,
    refl,
    if-HasVerdict v (start libs resp now_ms db).row db b _ at said (already-HasVerdict v db _ refl)
        e,
  )

  in_range :
      (c : Bool) (act : Action Bool) (db : Db) {b : Bool} (P : Db → Type 0)
      → c ≡ true
      → ((act db).0 ≡ ok b → P (act db).1)
      → ((if c then act else pure false) db).0 ≡ ok b
      → P ((if c then act else pure false) db).1
  in_range true act db P e h run = h run
  in_range false act db P e h run = cc e

  -- A forced verdict that ends well leaves a FINAL row with the verdict that was asked for, whether
  -- or not it had to change anything, where the thread fits a byte and the slot's row stands under
  -- its own slot.
  pub forced_verdict_stands :
      (db : Db) (b : Bool)
      → ltb resp.thread 256 ≡ true
      → (start libs resp now_ms db).row.slot ≡ slot_of resp
      → (apply_forced_verdict libs resp now_ms db).0 ≡ ok b
      → (v : Verdict) × (of_peer resp.is_miss (named_block libs.b58 resp) ≡ some v)
        × HasVerdict resp v (apply_forced_verdict libs resp now_ms db).1
  unfolding apply_forced_verdict read_slot
  forced_verdict_stands db b fits at e =
      in_range (ltb resp.thread 256) _ db
        (λ d.
          (v : Verdict) × (of_peer resp.is_miss (named_block libs.b58 resp) ≡ some v)
          × HasVerdict resp v d)
        fits (force_to-HasVerdict db b _ at refl) e

-- A verdict that stands is not forced again: the run says so and changes nothing.
pub forced_again_is_noop :
    (libs : Libs) (resp : FinalSlotResponse) (now_ms : ℕ) (db : Db) (v : Verdict)
    → of_peer resp.is_miss (named_block libs.b58 resp) ≡ some v
    → HasVerdict resp v db
    → apply_forced_verdict libs resp now_ms db ≡ (ok false, db)
unfolding apply_forced_verdict read_slot force_to or_fresh already of_local
forced_again_is_noop libs resp now_ms db v said (row, there, fin, is) =
    elim (Bool-cases (ltb resp.thread 256)) [
      | inr wide ↦ rw wide
      | inl fits ↦ rw (fits, there, said, fin, is, verdict_eq_refl v)
    ]

-- A forced verdict that ended well is not applied twice: a second run on the store that the first
-- left reports that nothing was to be done and leaves the store. The thread fits a byte, and the
-- slot's row stands under its own slot.
pub forced_twice :
    (libs : Libs) (resp : FinalSlotResponse) (now_ms later_ms : ℕ) (db : Db) (b : Bool)
    → ltb resp.thread 256 ≡ true
    → (start libs resp now_ms db).row.slot ≡ slot_of resp
    → (apply_forced_verdict libs resp now_ms db).0 ≡ ok b
    → apply_forced_verdict libs resp later_ms (apply_forced_verdict libs resp now_ms db).1
      ≡ (ok false, (apply_forced_verdict libs resp now_ms db).1)
forced_twice libs resp now_ms later_ms db b fits at e =
    let (v, said, stands) = forced_verdict_stands libs resp now_ms db b fits at e in
    forced_again_is_noop libs resp later_ms (apply_forced_verdict libs resp now_ms db).1 v said
      stands
