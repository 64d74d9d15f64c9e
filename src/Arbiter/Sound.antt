-- ===== src/Arbiter/Sound.antt =====
-- The conclusions of `arbitrate_verdicts` of massa-indexer/src/peer/patch.rs, each with what the
-- chain shows for it.
use massa_history.Base.{
  ◌+◌, ◌^◌, ◌<◌, ◌≡◌, ◌≢◌, refl, ap, ◌∙◌, ◌⊎◌, inl, inr, Option, none, some, Bool-cases,
  Option-cases,
}
use massa_history.Base.Result.{ok, >>=-eq-ok}
use massa_history.Ids.{BlockId}
use massa_history.Model.{Slot}
use massa_history.Model.Rows.{StoredBlock}
use massa_history.Arbiter.{
  Reader, Verdict, block, Arbitration, adopt_peer, keep_local, inconclusive, verdict_eq,
  next_parent_link, dead_fork_anchor, peer_block_dead, local_block_dead, immediate,
  arbitrate_in_dead_fork, unless_fork, conclude, by_linkage, arbitrate_verdicts,
}
use massa_history.Arbiter.Links.{next_parent_link_first}
use massa_history.Arbiter.Fork.{dead_fork_anchor_first}
use massa_history.Arbiter.Evidence.{
  verdict_eq→eq, verdict_eq_refl, peer_block_dead-true, peer_block_dead-false,
  local_block_dead-true, HasDeadParent, NextNames, BrokenAt, UnbrokenAhead, ForPeer, ForLocal,
  local_is_dead, same_verdict, peer_is_dead, next_names_ours,
}
use massa_history.Arbiter.Linkage.{immediate-adopt, immediate-keep, fork-keep, fork-adopt}

module _ (db : Reader) (slot : Slot) (local peer : Verdict)
    (fits : slot.period + 512 < 2 ^ 64) where
  unless_fork-ok :
      (otherwise result : Arbitration)
      → unless_fork db slot local peer otherwise ≡ ok result
      → ((anchor : BlockId) × BrokenAt db slot local peer anchor
          × (arbitrate_in_dead_fork db slot local peer anchor ≡ ok result))
        ⊎ (UnbrokenAhead db slot local peer × (otherwise ≡ result))
  unfolding unless_fork
  unless_fork-ok otherwise result e =
      let (anchor, found, e') = >>=-eq-ok (dead_fork_anchor db slot local) _ e in
      let (prev, before, known) = dead_fork_anchor_first db slot local anchor fits found in
      elim known [
        | inl (a, is, broken) ↦ inl (a, (prev, before, broken), rw is at e')
        | inr (is, whole) ↦ inr ((prev, before, whole), cc (rw is at e'))
      ]

  conclude-adopt :
      (now : Option Arbitration)
      → conclude db slot local peer now ≡ ok adopt_peer
      → (now ≡ some adopt_peer) ⊎ ForPeer db slot local peer
  unfolding conclude
  conclude-adopt (some adopt_peer) e = inl refl
  conclude-adopt (some inconclusive) e = cc e
  conclude-adopt (some keep_local) e = elim (unless_fork-ok keep_local adopt_peer e) [
    | inl (a, broken, decided) ↦ inr (fork-adopt db slot local peer a decided broken)
    | inr (_, is) ↦ cc is
  ]
  conclude-adopt none e = elim (unless_fork-ok inconclusive adopt_peer e) [
    | inl (a, broken, decided) ↦ inr (fork-adopt db slot local peer a decided broken)
    | inr (_, is) ↦ cc is
  ]

  conclude-keep :
      (now : Option Arbitration)
      → conclude db slot local peer now ≡ ok keep_local
      → (local ≡ peer) ⊎ ((now ≡ some keep_local) × UnbrokenAhead db slot local peer)
  unfolding conclude
  conclude-keep (some adopt_peer) e = cc e
  conclude-keep (some inconclusive) e = cc e
  conclude-keep (some keep_local) e = elim (unless_fork-ok keep_local keep_local e) [
    | inl (a, _, decided) ↦ inl (fork-keep db slot local peer a decided)
    | inr (whole, _) ↦ inr (refl, whole)
  ]
  conclude-keep none e = elim (unless_fork-ok inconclusive keep_local e) [
    | inl (a, _, decided) ↦ inl (fork-keep db slot local peer a decided)
    | inr (_, is) ↦ cc is
  ]

  next_named :
      (link : Option BlockId) (next : BlockId)
      → next_parent_link db slot ≡ ok link
      → link ≡ some next
      → NextNames db slot local peer next
  next_named link next found is =
      elim (next_parent_link_first db slot (some next) fits (found ∙ ap ok is)) [
        | inl first ↦ first
        | inr (gone, _) ↦ cc gone
      ]

  by_linkage-adopt : by_linkage db slot local peer ≡ ok adopt_peer → ForPeer db slot local peer
  unfolding by_linkage
  by_linkage-adopt e =
      let (link, found, e') = >>=-eq-ok (next_parent_link db slot) _ e in
      elim (Option-cases link) [
        | inl gone ↦ cc (rw gone at e')
        | inr (next, is) ↦
            let (now, said, e'') = >>=-eq-ok (immediate db slot local peer next) _ (rw is at e') in
            elim (conclude-adopt now e'') [
              | inl at_once ↦
                  immediate-adopt db slot local peer next (said ∙ ap ok at_once)
                    (next_named link next found is)
              | inr reason ↦ reason
            ]
      ]

  by_linkage-keep :
      (peer_block : Option StoredBlock)
      → by_linkage db slot local peer ≡ ok keep_local
      → ForLocal db slot local peer peer_block
  unfolding by_linkage
  by_linkage-keep peer_block e =
      let (link, found, e') = >>=-eq-ok (next_parent_link db slot) _ e in
      elim (Option-cases link) [
        | inl gone ↦ cc (rw gone at e')
        | inr (next, is) ↦
            let (now, said, e'') = >>=-eq-ok (immediate db slot local peer next) _ (rw is at e') in
            elim (conclude-keep now e'') [
              | inl same ↦ same_verdict same
              | inr (at_once, whole) ↦
                  elim (immediate-keep db slot local peer next (said ∙ ap ok at_once)) [
                    | inl same ↦ same_verdict same
                    | inr ours ↦ next_names_ours next ours (next_named link next found is) whole
                  ]
            ]
      ]

-- Within the range of u64, the peer's verdict is adopted only if it differs from the local one and
-- the stored chain speaks for it: a parent of the local block is dead, or the next final block
-- names the peer's block, or it skips the local block where the peer says miss, or the chain ahead
-- is broken and the peer says miss or names the block, or an ancestor, from which the chain goes
-- on.
pub adopt_peer_sound :
    (db : Reader) (slot : Slot) (local peer : Verdict) (peer_block : Option StoredBlock)
    → slot.period + 512 < 2 ^ 64
    → arbitrate_verdicts db slot local peer peer_block ≡ ok adopt_peer
    → (local ≢ peer) × ForPeer db slot local peer
unfolding arbitrate_verdicts
adopt_peer_sound db slot local peer peer_block fits e = elim (Bool-cases (verdict_eq local peer)) [
  | inl same ↦ cc (rw same at e)
  | inr ne ↦
      let (dead, _, e') = >>=-eq-ok (peer_block_dead db peer peer_block) _ (rw ne at e) in
      elim (Bool-cases dead) [
        | inl is ↦ cc (rw is at e')
        | inr isnt ↦
            let (ours, found, e'') = >>=-eq-ok (local_block_dead db local) _ (rw isnt at e') in
            let differ : local ≢ peer =
              λ same. cc (ne, ap (verdict_eq local) same, verdict_eq_refl local) in
            elim (Bool-cases ours) [
              | inl is ↦
                  let (x, b, known, held, dies) =
                    local_block_dead-true db local (found ∙ ap ok is) in
                  (differ, local_is_dead x b known held dies)
              | inr alive ↦ (differ, by_linkage-adopt db slot local peer fits (rw alive at e''))
            ]
      ]
]

-- A block that the peer ships and that is built on a dead parent is never adopted.
pub dead_peer_refused :
    (db : Reader) (slot : Slot) (local : Verdict) (y : BlockId) (body : StoredBlock)
    → body.id ≡ y
    → arbitrate_verdicts db slot local (block y) (some body) ≡ ok adopt_peer
    → ¬ HasDeadParent db body
unfolding arbitrate_verdicts
dead_peer_refused db slot local y body same e (i, parent, at, dies) =
    elim (Bool-cases (verdict_eq local (block y))) [
      | inl equal ↦ cc (rw equal at e)
      | inr ne ↦
          let (dead, found, e') =
            >>=-eq-ok (peer_block_dead db (block y) (some body)) _ (rw ne at e) in
          elim (Bool-cases dead) [
            | inl is ↦ cc (rw is at e')
            | inr isnt ↦ peer_block_dead-false db y body (found ∙ ap ok isnt) same i parent at dies
          ]
    ]

-- Within the range of u64, the local verdict is confirmed only if it is the peer's too, or the
-- peer's block is built on a dead parent, or the next final block names the local block and the
-- chain ahead is unbroken.
pub keep_local_sound :
    (db : Reader) (slot : Slot) (local peer : Verdict) (peer_block : Option StoredBlock)
    → slot.period + 512 < 2 ^ 64
    → arbitrate_verdicts db slot local peer peer_block ≡ ok keep_local
    → ForLocal db slot local peer peer_block
unfolding arbitrate_verdicts
keep_local_sound db slot local peer peer_block fits e = elim (Bool-cases (verdict_eq local peer)) [
  | inl same ↦ same_verdict (verdict_eq→eq local peer same)
  | inr ne ↦
      let (dead, found, e') = >>=-eq-ok (peer_block_dead db peer peer_block) _ (rw ne at e) in
      elim (Bool-cases dead) [
        | inl is ↦
            let (y, b, known, shipped, same, dies) =
              peer_block_dead-true db peer peer_block (found ∙ ap ok is) in
            peer_is_dead y b known shipped same dies
        | inr isnt ↦
            let (ours, _, e'') = >>=-eq-ok (local_block_dead db local) _ (rw isnt at e') in
            elim (Bool-cases ours) [
              | inl is ↦ cc (rw is at e'')
              | inr alive ↦ by_linkage-keep db slot local peer fits peer_block (rw alive at e'')
            ]
      ]
]
