-- ===== src/Repository/Actions.antt =====
-- Code that changes a world and may throw: what has changed before the throw stays changed.
use baresync.Prelude.{Result, ok, throw}

module _ {World Error : Type 0} where
  abbrev pub and_then :
      {A B : Type 0}
      → Result Error A × World
      → (A → World → Result Error B × World)
      → Result Error B × World
  and_then (ok value, world) next = next value world
  and_then (throw error, world) next = (throw error, world)

  -- A step that leaves the world alone.
  abbrev pub lift : {A : Type 0} → Result Error A → World → Result Error A × World
  lift result world = (result, world)
