-- ===== src/Runtime/TableWriter/Ordered.antt =====
-- internal/runtime/dynamic_table_writer.go: no envelope is written before its tables were found.
use anaysitics_service.Base.{
  ℕ, true, false, contains, contains_iff, nat_eq, List, [], ◌∷◌, Result, ok, err, ◌≡◌, refl, subst,
  ◌⊎◌, inl, inr, All, Any, Bool-cases,
}
use anaysitics_service.Base.Action.{
  Satisfies, Satisfies-bind, Satisfies-if, Satisfies-weaken, Satisfies-with, Satisfies-state,
  settled, Ends,
}
use anaysitics_service.Base.Text.{Text, Text_eq}
use anaysitics_service.Runtime.TableWriter.{
  WriterError, TableWriter, Step, executed, found, wrote, WriterState, Writing, exec,
  require_click_house_table, exec_state, found_state, written_state, mark_ensured,
  ensure_property_table, ensure_new_table, unless_ensured, ensure_tables_for_envelope, delegate,
  write_event,
}

module _ {W Envelope : Type 0} (w : TableWriter W Envelope) where
  -- The property table of a table was found, if properties are indexed.
  abbrev pub HasPropertyTable : Text → List (Step Envelope) → Type 0
  HasPropertyTable table steps =
      (w.property_indexing ≡ false)
      ⊎ ((property_table : Text) × (w.warehouse.property_table_for table ≡ ok property_table)
          × Any (λ step. step ≡ found property_table) steps)

  -- The tables of a routed table were found in the catalog.
  abbrev pub IsBacked : List (Step Envelope) → Text → Type 0
  IsBacked steps table = Any (λ step. step ≡ found table) steps × HasPropertyTable table steps

  -- Each envelope was written after the tables that it is routed to were found.
  abbrev pub IsOrdered : List (Step Envelope) → Type 0
  IsOrdered [] = Unit {0}
  IsOrdered (executed statement ∷ rest) = IsOrdered rest
  IsOrdered (found table ∷ rest) = IsOrdered rest
  IsOrdered (wrote envelope ∷ rest) =
      ((table : Text) × (w.warehouse.route envelope ≡ ok table) × IsBacked rest table)
      × IsOrdered rest

  -- The invariant of the writer.
  abbrev pub IsSafe : WriterState W Envelope → Type 0
  IsSafe s = IsOrdered s.steps × All (IsBacked s.steps) s.ensured

  pub later :
      {table : Text} (step : Step Envelope) (steps : List (Step Envelope))
      → IsBacked steps table
      → IsBacked (step ∷ steps) table
  later step steps (here, inl off) = (inr here, inl off)
  later step steps (here, inr (p, e, m)) = (inr here, inr (p, e, inr m))

  All-later :
      (step : Step Envelope) (steps : List (Step Envelope)) (ensured : List Text)
      → All (IsBacked steps) ensured
      → All (IsBacked (step ∷ steps)) ensured
  All-later step steps [] a = tt
  All-later step steps (t ∷ ts) a = (later step steps a.0, All-later step steps ts a.1)

  All-contains :
      (P : Text → Type 0) (ts : List Text) (t : Text) → All P ts → contains ts t ≡ true → P t
  All-contains P ts t a h = go ts a ((contains_iff ts t).0 h)
    where
      go : (ts : List Text) → All P ts → Any (λ x. x ≡ t) ts → P t
      go [] a m = absurd m
      go (x ∷ ts) a (inl e) = subst P e a.0
      go (x ∷ ts) a (inr m) = go ts a.1 m

  -- A claim about the steps that more steps do not change.
  abbrev pub Lasts : (List (Step Envelope) → Type 0) → Type 0
  Lasts P = (step : Step Envelope) (steps : List (Step Envelope)) → P steps → P (step ∷ steps)

  abbrev pub Safely : (List (Step Envelope) → Type 0) → WriterState W Envelope → Type 0
  Safely P s = P s.steps × IsSafe s

  pub exec-Safely :
      (P : List (Step Envelope) → Type 0) (statement : Text)
      → Lasts P
      → Satisfies (Safely P) (exec w statement) (λ a s. Safely P s) (λ e s. IsSafe s)
  unfolding exec
  exec-Safely P statement keeps = record {
    run = λ s (p, safe). ends s (w.warehouse.exec statement s.world) p safe;
  }
    where
      ends :
          (s : WriterState W Envelope) (o : Result WriterError (Unit {0}) × W)
          → P s.steps
          → IsSafe s
          → Ends (λ a s. Safely P s) (λ e s. IsSafe s) (exec_state w statement s o)
      ends s (ok a, world) p (o, b) = (keeps _ _ p, (o, All-later _ _ _ b))
      ends s (err e, world) p (o, b) = (o, All-later _ _ _ b)

  -- A check that passes has found the table, and keeps what was found before.
  pub require-found :
      (P : List (Step Envelope) → Type 0) (table : Text)
      → Lasts P
      → Satisfies
          (Safely P)
          (require_click_house_table w table)
          (λ a s. (Any (λ step. step ≡ found table) s.steps × P s.steps) × IsSafe s)
          (λ e s. IsSafe s)
  unfolding require_click_house_table
  require-found P table keeps = record {
    run = λ s (p, safe). ends s (w.warehouse.count_tables table s.world) p safe;
  }
    where
      ends :
          (s : WriterState W Envelope) (o : Result WriterError ℕ × W)
          → P s.steps
          → IsSafe s
          → Ends
              (λ a s. (Any (λ step. step ≡ found table) s.steps × P s.steps) × IsSafe s)
              (λ e s. IsSafe s)
              (found_state w table s o)
      ends s (err e, world) p safe = safe
      ends s (ok count, world) p (o, b) = elim (Bool-cases (nat_eq count 0)) [
        | inl none_there ↦ rw none_there (o, b)
        | inr there ↦ rw there ((inl refl, keeps _ _ p), (o, All-later _ _ _ b))
      ]

  pub settled-ok :
      {A : Type 0} (P : List (Step Envelope) → Type 0) (r : Result WriterError A)
      → Satisfies (Safely P) (settled r) (λ a s. (r ≡ ok a) × Safely P s) (λ e s. IsSafe s)
  settled-ok P (ok a) = record { run = λ s p. (refl, p) }
  settled-ok P (err e) = record { run = λ s p. p.1 }

  abbrev WasFound : Text → List (Step Envelope) → Type 0
  WasFound table steps = Any (λ step. step ≡ found table) steps

  ensure_property_table-backs :
      (table : Text)
      → Satisfies
          (Safely (WasFound table))
          (ensure_property_table w table)
          (λ a s. Safely (λ steps. IsBacked steps table) s)
          (λ e s. IsSafe s)
  unfolding ensure_property_table
  ensure_property_table-backs table =
      Satisfies-if w.property_indexing
        (λ on. Satisfies-bind (settled-ok (WasFound table) _) (λ statement.
          Satisfies-with (λ from_table.
            Satisfies-bind (exec-Safely (WasFound table) statement (λ step steps m. inr m)) (λ done.
              Satisfies-bind (settled-ok (WasFound table) _) (λ property_table.
                Satisfies-with (λ named.
                  Satisfies-weaken
                    (require-found (WasFound table) property_table (λ step steps m. inr m))
                    (λ a s ((p, t), safe). ((t, inr (property_table, named, p)), safe))
                    (λ e s safe. safe)))))))
        (λ off. record { run = λ s (t, safe). ((t, inl off), safe) })

  ensure_new_table-backs :
      (table : Text)
      → Satisfies IsSafe
          (ensure_new_table w table)
          (λ a s. Safely (λ steps. IsBacked steps table) s)
          (λ e s. IsSafe s)
  unfolding ensure_new_table mark_ensured
  ensure_new_table-backs table = record { run = λ s safe. (new_table).run s (tt, safe) }
    where
      Nothing : List (Step Envelope) → Type 0
      Nothing steps = Unit {0}

      new_table :
          Satisfies
            (Safely Nothing)
            (ensure_new_table w table)
            (λ a s. Safely (λ steps. IsBacked steps table) s)
            (λ e s. IsSafe s)
      new_table = Satisfies-bind (settled-ok Nothing _) (λ statement. Satisfies-with (λ from_table.
          Satisfies-bind (exec-Safely Nothing statement (λ step steps m. tt)) (λ done.
            Satisfies-bind (require-found Nothing table (λ step steps m. tt)) (λ there.
              Satisfies-bind
                (record {
                  run = λ s ((t, n), safe). (ensure_property_table-backs table).run s (t, safe);
                })
                (λ backed. record { run = λ s (b, (o, a)). (b, (o, (b, a))) })))))

  unless_ensured-backs :
      (table : Text) (create : Writing W Envelope (Unit {0}))
      → Satisfies IsSafe create (λ a s. Safely (λ steps. IsBacked steps table) s) (λ e s. IsSafe s)
      → Satisfies IsSafe
          (unless_ensured w table create)
          (λ a s. Safely (λ steps. IsBacked steps table) s)
          (λ e s. IsSafe s)
  unfolding unless_ensured
  unless_ensured-backs table create creates = record {
    run = λ s safe. elim (Bool-cases (contains s.ensured table)) [
      | inl old ↦ rw old (All-contains (IsBacked s.steps) s.ensured table safe.1 old, safe)
      | inr new ↦ rw new (creates.run s safe)
    ];
  }

  -- The writer keeps its invariant, whether a write succeeds or fails: each envelope that was ever
  -- handed to the inner writer was so after its event table, and its property table if properties
  -- are indexed, were found in the catalog; and so were the tables of the ensured set.
  pub write_event-IsSafe :
      (envelope : Envelope) (s : WriterState W Envelope)
      → IsSafe s
      → IsSafe (write_event w envelope s).1
  unfolding write_event ensure_tables_for_envelope delegate
  write_event-IsSafe envelope s safe = Satisfies-state whole s safe
    where
      Routed : WriterState W Envelope → Type 0
      Routed s =
          (table : Text) × (w.warehouse.route envelope ≡ ok table)
          × Safely (λ steps. IsBacked steps table) s

      ensures :
          Satisfies IsSafe
            (ensure_tables_for_envelope w envelope)
            (λ a s. Routed s)
            (λ e s. IsSafe s)
      ensures = Satisfies-bind (routed (w.warehouse.route envelope)) (λ table.
          Satisfies-with (λ to_table.
            Satisfies-weaken
              (unless_ensured-backs table _
                (unless_ensured-backs table _ (ensure_new_table-backs table)))
              (λ a s b. (table, to_table, b)) (λ e s safe. safe)))
        where
          routed :
              (r : Result WriterError Text)
              → Satisfies IsSafe
                  (settled r)
                  (λ table s. (r ≡ ok table) × IsSafe s)
                  (λ e s. IsSafe s)
          routed (ok table) = record { run = λ s p. (refl, p) }
          routed (err e) = record { run = λ s p. p }

      ends :
          (s : WriterState W Envelope) (o : Result WriterError ℕ × W)
          → Routed s
          → Ends (λ a s. IsSafe s) (λ e s. IsSafe s) (written_state w envelope s o)
      ends s (ok a, world) (table, r, (b, (o, a'))) = (((table, r, b), o), All-later _ _ _ a')
      ends s (err e, world) (table, r, (b, (o, a'))) = (((table, r, b), o), All-later _ _ _ a')

      whole : Satisfies IsSafe (write_event w envelope) (λ a s. IsSafe s) (λ e s. IsSafe s)
      whole =
          Satisfies-bind ensures
            (λ done. record { run = λ s b. ends s (w.warehouse.write envelope s.world) b })
