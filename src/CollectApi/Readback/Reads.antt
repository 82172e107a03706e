-- ===== src/CollectApi/Readback/Reads.antt =====
-- internal/collectapi/query.go: a query of a store is one read, whichever interface answers it.
use anaysitics_service.Base.{List, ◌∷◌, Option, none, some, Result, ok, err}
use anaysitics_service.Base.Action.{Satisfies, Satisfies-bind}
use anaysitics_service.CollectApi.Handler.{
  ServerState, ErrorReply, Read, call, run_read, write_query_error,
}
use anaysitics_service.CollectApi.Storage.{ReadError, invalid_event_query, read_failed}
use anaysitics_service.CollectApi.Evidence.{QueryEvidenceResponse}
use anaysitics_service.CollectApi.Readback.{answered, read_with}

module _ {W : Type 0} (R : ServerState W → Type 0) where
  -- A claim that lines logged do not change.
  abbrev pub IgnoresLog : Type 0
  IgnoresLog = (s : ServerState W) (lines : List _) → R s → R (record s { logged = lines })

  pub answered_keeps :
      {A B : Type 0} (f : A → B) (answer : Result ReadError A)
      → IgnoresLog
      → Satisfies R (answered f answer) (λ b s. R s) (λ e s. R s)
  unfolding answered write_query_error
  answered_keeps f (ok a) ignores = record { run = λ s r. r }
  answered_keeps f (err (invalid_event_query message)) ignores = record { run = λ s r. r }
  answered_keeps f (err (read_failed code)) ignores = record { run = λ s r. ignores s _ r }

  -- If R holds after the read is recorded, whatever the world is then, it holds after the query.
  pub run_read_sound :
      {A : Type 0} {P : ServerState W → Type 0} (read : Read) (f : W → A × W)
      → ((s : ServerState W) (w : W) → P s → R (record s { world = w; reads = read ∷ s.reads }))
      → Satisfies P (run_read read f) (λ a s. R s) (λ e s. R s)
  run_read_sound read f after = record { run = λ s p. after s (f s.world).1 p }

  pub read_with_sound :
      {A B : Type 0} {P : ServerState W → Type 0} (read : Read)
      (wide : Option (W → Result ReadError B × W)) (evidence : B → A × Option QueryEvidenceResponse)
      (narrow : W → Result ReadError A × W)
      → IgnoresLog
      → ((s : ServerState W) (w : W) → P s → R (record s { world = w; reads = read ∷ s.reads }))
      → Satisfies P (read_with read wide evidence narrow) (λ b s. R s) (λ e s. R s)
  unfolding read_with
  read_with_sound read (some wide) evidence narrow ignores after =
      Satisfies-bind (run_read_sound read wide after)
        (λ answer. answered_keeps evidence answer ignores)
  read_with_sound {A = A} read none evidence narrow ignores after =
      Satisfies-bind (run_read_sound read narrow after)
        (λ answer. answered_keeps {A = A} (λ a. (a, none)) answer ignores)

-- A call of the clock or another service keeps what does not speak of the world.
pub call_keeps :
    {W A : Type 0} {X : ErrorReply → ServerState W → Type 0} (P : ServerState W → Type 0)
    (f : W → A × W)
    → ((s : ServerState W) (w : W) → P s → P (record s { world = w }))
    → Satisfies P (call f) (λ a s. P s) X
call_keeps P f ignores = record { run = λ s p. ignores s (f s.world).1 p }
