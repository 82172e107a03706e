-- ===== src/Runtime/Clients/Balanced.antt =====
-- internal/runtime/runtime.go: what a step of the assembly leaves open.
use anaysitics_service.Base.{◌≡◌, refl, ap, List, [], ◌∷◌, ◌++◌, Option, Result, ok, err, arith}
use anaysitics_service.Base.Action.{Ends, Satisfies, settled}
use anaysitics_service.Runtime.Clients.{
  Client, ClientKind, StartError, Call, Libraries, Process, Assembling, performed, perform,
  connected, connect, closed, close_client, close_all, on_error, or_close, or_close_all,
}

-- The clients opened in their order, on top of those that were open before.
abbrev pub stacked : List Client → List Client → List Client
stacked [] base = base
stacked (c ∷ cs) base = stacked cs (c ∷ base)

-- A step leaves open exactly the clients that it returns; and if it fails, none.
abbrev pub IsBalanced : {W A : Type 0} → (A → List Client) → Assembling W A → Type 0
IsBalanced clients m =
    (base : List Client)
    → Satisfies (λ s. s.opened ≡ base) m (λ a s. s.opened ≡ stacked (clients a) base)
        (λ e s. s.opened ≡ base)

module _ {W : Type 0} (libs : Libraries W) where
  -- Closing the client that was opened last.
  pub close-top :
      (client : Client) (base : List Client) (s : Process W)
      → s.opened ≡ client ∷ base
      → (close_client libs client s).1.opened ≡ base
  unfolding close_client
  close-top client base s h = top (libs.close client s.world)
    where
      top : (o : Option StartError × W) → (closed libs client s o).1.opened ≡ base
      top (error, world) = rw h (ground arith)

  -- closeAll closes the clients in the reverse of the order in which they were opened.
  pub close_all-stacked :
      (closers base : List Client) (s : Process W)
      → s.opened ≡ stacked closers base
      → (close_all libs closers s).1.opened ≡ base
  unfolding close_all
  close_all-stacked [] base s h = h
  close_all-stacked (client ∷ rest) base s h =
      close-top client base _ (close_all-stacked rest (client ∷ base) s h)

  pub perform-IsBalanced : (call : Call) → IsBalanced (λ _. []) (perform libs call)
  unfolding perform
  perform-IsBalanced call base = record { run = λ s h. ends s h (libs.perform call s.world) }
    where
      ends :
          (s : Process W)
          → s.opened ≡ base
          → (o : Result StartError (Unit {0}) × W)
          → Ends (λ a s. s.opened ≡ base) (λ e s. s.opened ≡ base) (performed libs s o)
      ends s h (ok a, world) = h
      ends s h (err e, world) = h

  pub connect-IsBalanced : (kind : ClientKind) → IsBalanced (λ c. c ∷ []) (connect libs kind)
  unfolding connect
  connect-IsBalanced kind base = record { run = λ s h. ends s h (libs.connect kind s.world) }
    where
      ends :
          (s : Process W)
          → s.opened ≡ base
          → (o : Result StartError (Unit {0}) × W)
          → Ends (λ c s. s.opened ≡ c ∷ base) (λ e s. s.opened ≡ base) (connected libs kind s o)
      ends s h (ok a, world) = ap (λ held. (record { kind = kind; number = s.next }) ∷ held) h
      ends s h (err e, world) = h

  pub settled-IsBalanced :
      {A : Type 0} (r : Result StartError A) → IsBalanced {W = W} (λ _. []) (settled r)
  settled-IsBalanced (ok a) base = record { run = λ s h. h }
  settled-IsBalanced (err e) base = record { run = λ s h. h }

  -- A step that opens nothing, with its client open before, which it closes if it fails.
  pub or_close-IsBalanced :
      {A : Type 0} (client : Client) (m : Assembling W A)
      → IsBalanced (λ _. []) m
      → (base : List Client)
      → Satisfies
          (λ s. s.opened ≡ client ∷ base)
          (or_close libs client m)
          (λ a s. s.opened ≡ client ∷ base)
          (λ e s. s.opened ≡ base)
  unfolding or_close
  or_close-IsBalanced {A} client m h base = record {
    run = λ s held. ends (m s) ((h (client ∷ base)).run s held);
  }
    where
      ends :
          (o : Result StartError A × Process W)
          → Ends (λ a s. s.opened ≡ client ∷ base) (λ e s. s.opened ≡ client ∷ base) o
          → Ends
              (λ a s. s.opened ≡ client ∷ base)
              (λ e s. s.opened ≡ base)
              (on_error libs (λ s. (close_client libs client s).1) o)
      ends (ok a, s) held = held
      ends (err e, s) held = close-top client base s held

  -- A step of the assembly, with the closers so far.
  pub or_close_all-IsBalanced :
      {A : Type 0} (clients : A → List Client) (closers : List Client) (m : Assembling W A)
      → IsBalanced clients m
      → (base : List Client)
      → Satisfies
          (λ s. s.opened ≡ stacked closers base)
          (or_close_all libs closers m)
          (λ a s. s.opened ≡ stacked (clients a) (stacked closers base))
          (λ e s. s.opened ≡ base)
  unfolding or_close_all
  or_close_all-IsBalanced {A} clients closers m h base = record {
    run = λ s held. ends (m s) ((h (stacked closers base)).run s held);
  }
    where
      ends :
          (o : Result StartError A × Process W)
          → Ends
              (λ a s. s.opened ≡ stacked (clients a) (stacked closers base))
              (λ e s. s.opened ≡ stacked closers base)
              o
          → Ends
              (λ a s. s.opened ≡ stacked (clients a) (stacked closers base))
              (λ e s. s.opened ≡ base)
              (on_error libs (λ s. (close_all libs closers s).1) o)
      ends (ok a, s) held = held
      ends (err e, s) held = close_all-stacked closers base s held

pub stacked-append :
    (xs ys base : List Client) → stacked (xs ++ ys) base ≡ stacked ys (stacked xs base)
stacked-append [] ys base = refl
stacked-append (x ∷ xs) ys base = stacked-append xs ys (x ∷ base)
