-- ===== src/Runtime/TableWriter/Once.antt =====
-- internal/runtime/dynamic_table_writer.go: the tables of a route are created and checked once.
use anaysitics_service.Base.{
  ℕ, true, contains, ==_refl, ◌∷◌, Result, ok, err, ◌≡◌, refl, sym, subst, Bool-cases, inl, inr,
}
use anaysitics_service.Base.Action.{◌>>=◌, Satisfies, Satisfies-bind, Ends}
use anaysitics_service.Base.Text.{Text, Text_eq}
use anaysitics_service.Runtime.TableWriter.{
  WriterError, TableWriter, WriterState, Writing, wrote, mark_ensured, ensure_new_table,
  unless_ensured, ensure_tables_for_envelope, delegate, written_state, write_event,
}

module _ {W Envelope : Type 0} (w : TableWriter W Envelope) where
  -- For an envelope that is routed to an ensured table, a write is one call of the inner writer, with its
  -- result.
  write_event_ensured :
      (envelope : Envelope) (s : WriterState W Envelope) (table : Text)
      → w.warehouse.route envelope ≡ ok table
      → contains s.ensured table ≡ true
      → write_event w envelope s ≡ (
        (w.warehouse.write envelope s.world).0,
        record {
          world = (w.warehouse.write envelope s.world).1;
          ensured = s.ensured;
          steps = wrote envelope ∷ s.steps;
        },
      )
  unfolding write_event ensure_tables_for_envelope unless_ensured delegate ◌>>=◌
  write_event_ensured envelope s table routed old = rw (routed, old) refl

  -- A step that ensures a table, if it succeeds.
  abbrev Ensures : {A : Type 0} → Text → Writing W Envelope A → Type 0
  Ensures table m =
      Satisfies (λ s. Unit {0}) m (λ a s. contains s.ensured table ≡ true) (λ e s. Unit {0})

  anything :
      {A : Type 0} (m : Writing W Envelope A)
      → Satisfies (λ s. Unit {0}) m (λ a s. Unit {0}) (λ e s. Unit {0})
  anything {A} m = record { run = λ s p. ends (m s) }
    where
      ends :
          (o : Result WriterError A × WriterState W Envelope)
          → Ends (λ a s. Unit {0}) (λ e s. Unit {0}) o
      ends (ok a, s) = tt
      ends (err e, s) = tt

  ensure_new_table-Ensures : (table : Text) → Ensures table (ensure_new_table w table)
  unfolding ensure_new_table mark_ensured contains
  ensure_new_table-Ensures table = Satisfies-bind (anything _) (λ statement.
      Satisfies-bind (anything _) (λ _.
        Satisfies-bind (anything _) (λ _.
          Satisfies-bind (anything _) (λ _. record { run = λ s p. rw (==_refl table) refl }))))

  unless_ensured-Ensures :
      (table : Text) (create : Writing W Envelope (Unit {0}))
      → Ensures table create
      → Ensures table (unless_ensured w table create)
  unfolding unless_ensured
  unless_ensured-Ensures table create h = record {
    run = λ s p. elim (Bool-cases (contains s.ensured table)) [
      | inl old ↦ rw old old
      | inr new ↦ rw new (h.run s p)
    ];
  }

  write_event-Ensures :
      (envelope : Envelope) (table : Text)
      → w.warehouse.route envelope ≡ ok table
      → Ensures table (write_event w envelope)
  unfolding write_event ensure_tables_for_envelope delegate
  write_event-Ensures envelope table routed =
      Satisfies-bind
        (Satisfies-bind {Q = λ found s. found ≡ table}
          (record {
            run = λ s p.
                subst (λ r. Ends (λ found s. found ≡ table) (λ e s. Unit {0}) (r, s)) (sym routed)
                  refl;
          })
          (λ found. record {
            run = λ s same.
                subst
                  (λ t.
                    Ends (λ a s. contains s.ensured table ≡ true) (λ e s. Unit {0})
                      (unless_ensured w t (unless_ensured w t (ensure_new_table w t)) s))
                  (sym same)
                  ((unless_ensured-Ensures table _
                      (unless_ensured-Ensures table _ (ensure_new_table-Ensures table))).run
                    s tt);
          }))
        (λ _. record { run = λ s h. written s h (w.warehouse.write envelope s.world) })
    where
      written :
          (s : WriterState W Envelope)
          → contains s.ensured table ≡ true
          → (o : Result WriterError ℕ × W)
          → Ends
              (λ a s. contains s.ensured table ≡ true)
              (λ e s. Unit {0})
              (written_state w envelope s o)
      written s h (ok n, world) = h
      written s h (err e, world) = tt

  -- After a write has succeeded, a write of an envelope that is routed to the same table is one call of
  -- the inner writer, with its result: no statement is executed, no table is looked for, and the set of
  -- ensured tables stays. That holds whatever the state was before.
  pub write_event_twice :
      (first second : Envelope) (s : WriterState W Envelope) (table : Text) (written : ℕ)
      → w.warehouse.route first ≡ ok table
      → w.warehouse.route second ≡ ok table
      → (write_event w first s).0 ≡ ok written
      → let s' = (write_event w first s).1 in
        write_event w second s' ≡ (
          (w.warehouse.write second s'.world).0,
          record {
            world = (w.warehouse.write second s'.world).1;
            ensured = s'.ensured;
            steps = wrote second ∷ s'.steps;
          },
        )
  write_event_twice first second s table written routed routed' succeeded =
      write_event_ensured second (write_event w first s).1 table routed' (
        on_success (write_event w first s) succeeded
          ((write_event-Ensures first table routed).run s tt))
    where
      on_success :
          (o : Result WriterError ℕ × WriterState W Envelope)
          → o.0 ≡ ok written
          → Ends (λ a s. contains s.ensured table ≡ true) (λ e s. Unit {0}) o
          → contains o.1.ensured table ≡ true
      on_success (ok n, s) e h = h
      on_success (err x, s) e h = absurd (cc)
