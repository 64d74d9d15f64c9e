-- ===== src/Arbiter/Linkage.antt =====
-- massa-indexer/src/peer/patch.rs: what the next parent link decides by itself, and what a broken
-- chain does.
use massa_history.Base.{
  ◌≡◌, refl, ap, ◌∙◌, ◌⊎◌, inl, inr, some, arith, Bool-cases, sym, if◌then◌else◌,
}
use massa_history.Base.Result.{ok, ◌>>=◌, >>=-eq-ok}
use massa_history.Ids.{BlockId, id_eq}
use massa_history.Ids.Equality.{id_eq→eq}
use massa_history.Model.{Slot}
use massa_history.Arbiter.{
  Reader, Verdict, miss, block, adopt_peer, keep_local, inconclusive, option_eq, prev_final_block,
  reachable_via_parents, immediate, arbitrate_in_dead_fork,
}
use massa_history.Arbiter.Links.{prev_final_block_last}
use massa_history.Arbiter.Parents.{option_eq→eq}
use massa_history.Arbiter.Ancestors.{here, reachable_iff}
use massa_history.Arbiter.Evidence.{
  NextNames, BrokenAt, ForPeer, next_names_it, next_skips_ours, fork_and_miss, fork_and_ancestor,
}

module _ (db : Reader) (slot : Slot) where
  pub immediate-adopt :
      (local peer : Verdict) (next : BlockId)
      → immediate db slot local peer next ≡ ok (some adopt_peer)
      → NextNames db slot local peer next
      → ForPeer db slot local peer
  unfolding immediate
  immediate-adopt (block x) (block y) next e named = elim (Bool-cases (id_eq next y)) [
    | inl same ↦ let is : next ≡ y = id_eq→eq next y same in next_names_it y refl (rw (← is) named)
    | inr ne ↦ elim (Bool-cases (id_eq next x)) [
      | inl ours ↦ cc (rw (ne, ours) at e)
      | inr other ↦ cc (rw (ne, other) at e)
    ]
  ]
  immediate-adopt miss (block y) next e named = elim (Bool-cases (id_eq next y)) [
    | inl same ↦ let is : next ≡ y = id_eq→eq next y same in next_names_it y refl (rw (← is) named)
    | inr ne ↦ cc (rw ne at e)
  ]
  immediate-adopt (block x) miss next e named = elim (Bool-cases (id_eq next x)) [
    | inl ours ↦ cc (rw ours at e)
    | inr other ↦
        let (before, found, e') = >>=-eq-ok (prev_final_block db slot) _ (rw other at e) in
        elim (Bool-cases (option_eq before (some next))) [
          | inl same ↦
              let is : before ≡ some next = option_eq→eq before (some next) same in
              elim (prev_final_block_last db slot before found) [
                | inl (b, known, l) ↦
                    let b_is : b ≡ next = cc (known, is) in
                    next_skips_ours x next refl refl named (rw b_is at l)
                | inr (gone, _) ↦ cc (gone, is)
              ]
          | inr ne ↦ cc (rw ne at e')
        ]
  ]
  immediate-adopt miss miss next e named = cc e

  pub immediate-keep :
      (local peer : Verdict) (next : BlockId)
      → immediate db slot local peer next ≡ ok (some keep_local)
      → (local ≡ peer) ⊎ (local ≡ block next)
  unfolding immediate
  immediate-keep (block x) (block y) next e = elim (Bool-cases (id_eq next y)) [
    | inl same ↦ cc (rw same at e)
    | inr ne ↦ elim (Bool-cases (id_eq next x)) [
      | inl ours ↦ inr (ap block (sym (id_eq→eq next x ours)))
      | inr other ↦ cc (rw (ne, other) at e)
    ]
  ]
  immediate-keep miss (block y) next e = elim (Bool-cases (id_eq next y)) [
    | inl same ↦ cc (rw same at e)
    | inr ne ↦ cc (rw ne at e)
  ]
  immediate-keep (block x) miss next e = elim (Bool-cases (id_eq next x)) [
    | inl ours ↦ inr (ap block (sym (id_eq→eq next x ours)))
    | inr other ↦
        let (before, found, e') = >>=-eq-ok (prev_final_block db slot) _ (rw other at e) in
        elim (Bool-cases (option_eq before (some next))) [
          | inl same ↦ cc (rw same at e')
          | inr ne ↦ cc (rw ne at e')
        ]
  ]
  immediate-keep miss miss next e = inl refl

  fork_linked :
      (local : Verdict) (y anchor : BlockId)
      → (if id_eq y anchor
          then ok adopt_peer
          else reachable_via_parents db anchor y slot.thread >>= λ reached.
              ok (if reached then adopt_peer else inconclusive))
        ≡ ok adopt_peer
      → BrokenAt db slot local (block y) anchor
      → ForPeer db slot local (block y)
  fork_linked local y anchor e broken = elim (Bool-cases (id_eq y anchor)) [
    | inl same ↦
        let is : y ≡ anchor = id_eq→eq y anchor same in
        fork_and_ancestor y anchor 0 refl broken (omega arith) (rw is here)
    | inr ne ↦
        let (reached, found, e') =
          >>=-eq-ok (reachable_via_parents db anchor y slot.thread) _ (rw ne at e) in
        elim (Bool-cases reached) [
          | inl is ↦
              let (n, below, path) = (reachable_iff db anchor y slot.thread).0 (found ∙ ap ok is) in
              fork_and_ancestor y anchor n refl broken below path
          | inr isnt ↦ cc (rw isnt at e')
        ]
  ]

  fork_never_keeps :
      (y anchor : BlockId)
      → (if id_eq y anchor
          then ok adopt_peer
          else reachable_via_parents db anchor y slot.thread >>= λ reached.
              ok (if reached then adopt_peer else inconclusive))
        ≡ ok keep_local
      → ⊥
  fork_never_keeps y anchor e = elim (Bool-cases (id_eq y anchor)) [
    | inl same ↦ cc (rw same at e)
    | inr ne ↦
        let (reached, _, e') =
          >>=-eq-ok (reachable_via_parents db anchor y slot.thread) _ (rw ne at e) in
        elim (Bool-cases reached) [ inl is ↦ cc (rw is at e') | inr isnt ↦ cc (rw isnt at e') ]
  ]

  pub fork-keep :
      (local peer : Verdict) (anchor : BlockId)
      → arbitrate_in_dead_fork db slot local peer anchor ≡ ok keep_local
      → local ≡ peer
  unfolding arbitrate_in_dead_fork
  fork-keep (block x) miss anchor e = cc e
  fork-keep miss miss anchor e = refl
  fork-keep miss (block y) anchor e = absurd (fork_never_keeps y anchor e)
  fork-keep (block x) (block y) anchor e = absurd (fork_never_keeps y anchor e)

  pub fork-adopt :
      (local peer : Verdict) (anchor : BlockId)
      → arbitrate_in_dead_fork db slot local peer anchor ≡ ok adopt_peer
      → BrokenAt db slot local peer anchor
      → ForPeer db slot local peer
  unfolding arbitrate_in_dead_fork
  fork-adopt (block x) miss anchor e broken = fork_and_miss x anchor refl refl broken
  fork-adopt miss miss anchor e broken = cc e
  fork-adopt miss (block y) anchor e broken = fork_linked miss y anchor e broken
  fork-adopt (block x) (block y) anchor e broken = fork_linked (block x) y anchor e broken
