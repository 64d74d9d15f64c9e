-- ===== src/Patch/Verdict.antt =====
-- The ways `reconcile_verdict` of massa-indexer/src/peer/patch.rs can end, as a relation.
use massa_history.Base.{
  Bool, true, false, ◌≡◌, refl, subst, Option, none, some, inl, inr, if◌then◌else◌, Bool-cases,
}
use massa_history.Base.Result.{ok}
use massa_history.Model.{Slot, SlotState}
use massa_history.Model.Rows.{StoredBlock}
use massa_history.Arbiter.{
  Reader, Verdict, of_local, of_peer, verdict_eq, Arbitration, adopt_peer, keep_local, inconclusive,
  arbitrate_verdicts,
}
use massa_history.Db.{Db, Libs, pure, ◌>>=◌}
use massa_history.Db.Frame.{Keeps, ok_injective, >>=-ok, >>=-Keeps, if-Keeps}
use massa_history.Patch.{FinalSlotResponse, PatchOutcome, slot_of, peer_trail, named_block}
use massa_history.Db.Events.{clear_sc_events_for_slot, clear_transfers_for_slot}
use massa_history.Patch.Parts.{adopted_row, adopt_peer_verdict, discard_old}
use massa_history.Patch.Frame.{adopt-Keeps}
use massa_history.Patch.Apply.{
  Progress, Stage, stop, go, is_final, promoted, or_old, trails_differ, same_verdict, shipped_block,
  by_arbitration, both_final, arbitrate, reader, reconcile_verdict,
}

module _ (libs : Libs) (resp : FinalSlotResponse) (db : Reader) (p : Progress) where
  -- Why the patch went on with the row that it goes on with.
  pub data Reconciled : Stage → Type 0 where
    promotes :
        (is_final p.row.status ≡ false)
        → Reconciled (
            go (record {
              row = promoted resp.is_miss (named_block libs.b58 resp) (peer_trail resp) p.row;
              out = record p.out { became_final = true };
            }))
    fills :
        (is_final p.row.status ≡ true)
        → trails_differ p.row.execution_trail_hash (peer_trail resp) ≡ false
        → Reconciled (
            go (record p {
              row = record p.row {
                execution_trail_hash = or_old p.row.execution_trail_hash (peer_trail resp);
              };
            }))
    refuses :
        (is_final p.row.status ≡ true)
        → (out : PatchOutcome) → out.became_final ≡ p.out.became_final
        → out.divergence_repaired ≡ p.out.divergence_repaired
        → Reconciled (stop (record p { out = out }))
    repairs :
        (is_final p.row.status ≡ true)
        → (local peer : Verdict) → of_local p.row ≡ some local
        → of_peer resp.is_miss (named_block libs.b58 resp) ≡ some peer
        → verdict_eq local peer ≡ false
        → arbitrate_verdicts db (slot_of resp) local peer (shipped_block resp) ≡ ok adopt_peer
        → Reconciled (
            go (record {
              row = adopted_row resp.is_miss (named_block libs.b58 resp) (peer_trail resp) p.row;
              out = record p.out { divergence_repaired = true };
            }))

module _ (libs : Libs) (resp : FinalSlotResponse) (p : Progress) where
  same_by :
      (db : Reader) (differ : Bool)
      → is_final p.row.status ≡ true
      → trails_differ p.row.execution_trail_hash (peer_trail resp) ≡ differ
      → Reconciled libs resp db p (
          if differ
          then stop (record p { out = record p.out { trail_mismatch = true } })
          else go (record p {
            row = record p.row {
              execution_trail_hash = or_old p.row.execution_trail_hash (peer_trail resp);
            };
          }))
  same_by db true fin e = refuses fin _ refl refl
  same_by db false fin e = fills fin e

  same_verdict-Reconciled :
      (db : Reader)
      → is_final p.row.status ≡ true
      → Reconciled libs resp db p (same_verdict (peer_trail resp) p)
  unfolding same_verdict
  same_verdict-Reconciled db fin = same_by db _ fin refl

  pub adopt-is :
      (db : Db) {row : SlotState}
      → (adopt_peer_verdict libs p.row resp (named_block libs.b58 resp) (peer_trail resp) db).0
        ≡ ok row
      → adopted_row resp.is_miss (named_block libs.b58 resp) (peer_trail resp) p.row ≡ row
  unfolding adopt_peer_verdict clear_sc_events_for_slot clear_transfers_for_slot
  adopt-is db e =
      let (_, _, is, _) = >>=-ok (discard_old p.row.final_block_id) _ db e in ok_injective is

  by_arbitration-Reconciled :
      (db : Db) (local peer : Verdict)
      → is_final p.row.status ≡ true
      → of_local p.row ≡ some local
      → of_peer resp.is_miss (named_block libs.b58 resp) ≡ some peer
      → verdict_eq local peer ≡ false
      → (a : Arbitration)
      → arbitrate_verdicts (reader db) (slot_of resp) local peer (shipped_block resp) ≡ ok a
      → {s : Stage} → (by_arbitration libs resp p a db).0 ≡ ok s
      → Reconciled libs resp (reader db) p s
  unfolding by_arbitration
  by_arbitration-Reconciled db local peer fin l r differ adopt_peer by e =
      let (row, run, is, _) =
        >>=-ok (adopt_peer_verdict libs p.row resp (named_block libs.b58 resp) (peer_trail resp)) _
          db e in
      subst (Reconciled libs resp (reader db) p) (ok_injective is) (
        subst
          (λ r.
            Reconciled libs resp (reader db) p
              (go (record { row = r; out = record p.out { divergence_repaired = true } })))
          (adopt-is db run) (repairs fin local peer l r differ by))
  by_arbitration-Reconciled db local peer fin l r differ keep_local by e =
      subst (Reconciled libs resp (reader db) p) (ok_injective e) (refuses fin _ refl refl)
  by_arbitration-Reconciled db local peer fin l r differ inconclusive by e =
      subst (Reconciled libs resp (reader db) p) (ok_injective e) (refuses fin _ refl refl)

  arbitrated :
      (db : Db) (local peer : Verdict)
      → is_final p.row.status ≡ true
      → of_local p.row ≡ some local
      → of_peer resp.is_miss (named_block libs.b58 resp) ≡ some peer
      → verdict_eq local peer ≡ false
      → {s : Stage}
      → ((arbitrate (slot_of resp) local peer (shipped_block resp) >>= by_arbitration libs resp p)
          db).0
        ≡ ok s
      → Reconciled libs resp (reader db) p s
  unfolding arbitrate
  arbitrated db local peer fin l r differ e =
      let (a, by, run, _) =
        >>=-ok (arbitrate (slot_of resp) local peer (shipped_block resp))
          (by_arbitration libs resp p) db e in
      by_arbitration-Reconciled db local peer fin l r differ a by run

  both_final-Reconciled :
      (db : Db)
      → is_final p.row.status ≡ true
      → (l r : Option Verdict) → of_local p.row ≡ l
      → of_peer resp.is_miss (named_block libs.b58 resp) ≡ r
      → {s : Stage} → (both_final libs resp p l r db).0 ≡ ok s
      → Reconciled libs resp (reader db) p s
  unfolding both_final
  both_final-Reconciled db fin none r _ _ e =
      subst (Reconciled libs resp (reader db) p) (ok_injective e) (same_verdict-Reconciled _ fin)
  both_final-Reconciled db fin (some local) none _ _ e =
      subst (Reconciled libs resp (reader db) p) (ok_injective e) (same_verdict-Reconciled _ fin)
  both_final-Reconciled db fin (some local) (some peer) l r e =
      elim (Bool-cases (verdict_eq local peer)) [
        | inl same ↦
            subst (Reconciled libs resp (reader db) p) (ok_injective (rw same at e))
              (same_verdict-Reconciled _ fin)
        | inr differ ↦ arbitrated db local peer fin l r differ (rw differ at e)
      ]

  pub reconcile_verdict-Reconciled :
      (db : Db) {s : Stage}
      → (reconcile_verdict libs resp p db).0 ≡ ok s
      → Reconciled libs resp (reader db) p s
  unfolding reconcile_verdict
  reconcile_verdict-Reconciled db e = elim (Bool-cases (is_final p.row.status)) [
    | inl fin ↦ both_final-Reconciled db fin _ _ refl refl (rw fin at e)
    | inr other ↦
        subst (Reconciled libs resp (reader db) p) (ok_injective (rw other at e)) (promotes other)
  ]

  arbitrate-Keeps :
      (slot : Slot) (l r : Verdict) (body : Option StoredBlock) → Keeps (arbitrate slot l r body)
  unfolding arbitrate
  arbitrate-Keeps slot l r body db = refl

  by_arbitration-Keeps : (a : Arbitration) → Keeps (by_arbitration libs resp p a)
  unfolding by_arbitration
  by_arbitration-Keeps adopt_peer =
      >>=-Keeps (adopt_peer_verdict libs p.row resp (named_block libs.b58 resp) (peer_trail resp)) _
        (adopt-Keeps libs p.row resp (named_block libs.b58 resp) (peer_trail resp)) (λ row db. refl)
  by_arbitration-Keeps keep_local = λ db. refl
  by_arbitration-Keeps inconclusive = λ db. refl

  both_final-Keeps : (l r : Option Verdict) → Keeps (both_final libs resp p l r)
  unfolding both_final
  both_final-Keeps none r = λ db. refl
  both_final-Keeps (some local) none = λ db. refl
  both_final-Keeps (some local) (some peer) =
      if-Keeps (verdict_eq local peer) (pure (same_verdict (peer_trail resp) p)) _ (λ db. refl)
        (>>=-Keeps (arbitrate (slot_of resp) local peer (shipped_block resp))
          (by_arbitration libs resp p)
          (arbitrate-Keeps (slot_of resp) local peer (shipped_block resp)) by_arbitration-Keeps)

  pub reconcile_verdict-Keeps : Keeps (reconcile_verdict libs resp p)
  unfolding reconcile_verdict
  reconcile_verdict-Keeps = if-Keeps (is_final p.row.status) _ _ (both_final-Keeps _ _) (λ db. refl)
