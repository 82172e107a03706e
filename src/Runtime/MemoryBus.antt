-- ===== src/Runtime/MemoryBus.antt =====
-- internal/runtime/memory_bus.go: the event bus of local demos, for envelopes of a type E. Its mutex
-- makes Publish atomic.
use anaysitics_service.Base.{List, [], ◌∷◌, ◌++◌, Result, ok}

pub record MemoryBus (E : Type 0) : Type 0 where
  pub events : List E

unfoldable pub new_memory_bus : {E : Type 0} → MemoryBus E
new_memory_bus = record { events = [] }

-- Publish, whose error is always nil.
unfoldable pub publish : {E X : Type 0} → E → MemoryBus E → Result X (Unit {0}) × MemoryBus E
publish envelope bus = (ok tt, record bus { events = bus.events ++ (envelope ∷ []) })

-- Subscribe, where `canceled` waits until the context is done and gives its error: no handler is called.
unfoldable pub subscribe : {W X : Type 0} → (W → X × W) → W → X × W
subscribe canceled w = canceled w
