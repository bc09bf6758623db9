-- ===== src/InOrder.antt =====
-- What the scanners' users are told, against the bytes that have been read.
use modbus_scanner.Base.{ℕ, ◌≡◌, ap, ◌∙◌, List, [], ◌∷◌, ◌++◌, append_assoc}
use modbus_scanner.Defs.{Pdu, Event, on_pdu, on_nonse}

-- The requests that the user is told of stand in the bytes, each told once, in their order, one
-- behind the other; between them, and behind the last, any bytes may stand. `IsFrame` says which
-- bytes a request is.
pub data InOrder (IsFrame : Pdu → List ℕ → Type 0) : List ℕ → List Event → Type 0 where
  nothing_told : (history : List ℕ) → InOrder IsFrame history []
  then_pdu :
      (before bytes after : List ℕ) (calls : List Event) (p : Pdu) (history : List ℕ)
      → InOrder IsFrame before calls
      → IsFrame p bytes
      → history ≡ before ++ (bytes ++ after)
      → InOrder IsFrame history (calls ++ on_pdu p ∷ [])
  then_nonse :
      (history : List ℕ) (calls : List Event)
      → InOrder IsFrame history calls
      → InOrder IsFrame history (calls ++ on_nonse ∷ [])

module _ {IsFrame : Pdu → List ℕ → Type 0} where
  -- More bytes are read.
  pub read_on :
      (before more history : List ℕ) (calls : List Event)
      → InOrder IsFrame before calls
      → history ≡ before ++ more
      → InOrder IsFrame history calls
  read_on before more history calls (nothing_told _) e = nothing_told history
  read_on before more history calls (then_pdu first bytes after cs p _ earlier frame whole) e =
      then_pdu first bytes (after ++ more) cs p history earlier frame (
        e
        ∙ ap (λ xs. xs ++ more) whole
        ∙ append_assoc first (bytes ++ after) more
        ∙ ap (λ xs. first ++ xs) (append_assoc bytes after more))
  read_on before more history calls (then_nonse _ cs earlier) e =
      then_nonse history cs (read_on before more history cs earlier e)
