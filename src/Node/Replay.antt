-- ===== src/Node/Replay.antt =====
-- A command that is sent again is answered as before, and nothing is done again.
use open_llmops.Prelude.{◌≡◌, nat_eq, ok, err}
use open_llmops.Node.Commands.{owner_eq, Command, Processor, execute, Executed}

module _ {W : Type 0} (p : Processor W) where
  -- An execution that was answered is repeated by its state.
  abbrev IsRepeated : Command → Executed p → Type 0
  IsRepeated c (ok r, s, w) = execute p c s w ≡ (ok r, s, w)
  IsRepeated c (err m, s, w) = Unit
