-- ===== src/Ingest/Moves.antt =====
-- What a slot promises a reader, apart from how its row is stored: nothing yet, a candidate, or a
-- verdict with the trail that is known for it; and the moves that are allowed.
use massa_history.Base.{Bool, Option, none, some}
use massa_history.Ids.{Text, BlockId}
use massa_history.Model.{SlotState, SlotStatus}

pub data View : Type 0 where
  unseen candidate : View
  settled : (is_miss : Bool) (winner : Option BlockId) (trail : Option Text) → View

unfoldable pub view_as : SlotState → SlotStatus → View
view_as row SlotStatus.unknown = unseen
view_as row SlotStatus.candidate = candidate
view_as row SlotStatus.final = settled row.is_miss row.final_block_id row.execution_trail_hash

unfoldable pub view : Option SlotState → View
unfolding view_as
view none = unseen
view (some row) = view_as row row.status

-- A verdict is given once, and its trail is told once.
pub data Moves : View → View → Type 0 where
  stays : {v : View} → Moves v v
  seen : Moves unseen candidate
  settled_unseen : {m : Bool} {b : Option BlockId} {h : Option Text} → Moves unseen (settled m b h)
  settled_candidate :
      {m : Bool} {b : Option BlockId} {h : Option Text} → Moves candidate (settled m b h)
  trail_told :
      {m : Bool} {b : Option BlockId} {h : Text} → Moves (settled m b none) (settled m b (some h))

pub Moves-trans : {a b c : View} → Moves a b → Moves b c → Moves a c
Moves-trans stays k = k
Moves-trans seen stays = seen
Moves-trans seen settled_candidate = settled_unseen
Moves-trans settled_unseen stays = settled_unseen
Moves-trans settled_unseen trail_told = settled_unseen
Moves-trans settled_candidate stays = settled_candidate
Moves-trans settled_candidate trail_told = settled_candidate
Moves-trans trail_told stays = trail_told
