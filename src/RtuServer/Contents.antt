-- ===== src/RtuServer/Contents.antt =====
-- The server of rtu_server_data_handler.cpp seen from outside: the two maps up to what is read in
-- them, as a quotient.
use mathlib.Core.Bool.{Bool-set}
use mathlib.Core.HLevel.{Π_prop, →_prop}
use mathlib.Core.Path.{ap₂, subst}
use mathlib.Core.Quot
use mathlib.Core.Quot.{Quot, Quot-set}
use native.Mathlib.Nat.{ℕ_set}
use modbus_scanner.Base.{ℕ, ◌≡◌, refl, sym, ap, ◌∙◌, Bool, false, List, [], ◌∷◌, Option, none, some}
use modbus_scanner.RtuServer.Alike.{
  SameRead, Alike, alike, BothAlike, Blind, Blind-pure, Blind-then, read_in-SameRead,
  get_coil-read_in, get_reg-read_in,
}
use modbus_scanner.RtuServer.AlikeReplies.{Blind-handle_read, Blind-handle_writing}
use modbus_scanner.RtuServer.Memory.{value}
use modbus_scanner.RtuServer.Monad.{Server, M, pure, ◌>>◌, get_coil, get_reg, find}
use modbus_scanner.RtuServer.Replies.{handle_read, handle_writing}
use modbus_scanner.Scanner.{Order}

-- A map up to what is read in it: the order of its entries, and whether it has an entry for the
-- default, is forgotten.
abbrev pub Contents : {V : Type 0} → V → Type 0
Contents default = Quot (SameRead default)

module _ {V : Type 0} (V-set : IsSet V) (default : V) where
  pub read : ℕ → Contents default → V
  read i = Quot.lift V-set (λ m. value default (find i m)) (λ m m' h. sym (h i))

  -- Contents in which the same is read are equal.
  pub read-injective : (x y : Contents default) → ((i : ℕ) → read i x ≡ read i y) → x ≡ y
  unfolding read
  read-injective =
      Quot.ind (λ x. Π_prop (λ y. →_prop (Quot-set x y)))
        (λ m. Quot.ind (λ y. →_prop (Quot-set (Quot.mk m) y)) (λ m' h. Quot.sound (λ i. sym (h i))))

-- What can be seen of a server: the contents of its maps, and all its other members.
pub record View : Type 0 where
  pub coils : Contents false
  pub regs : Contents {V = ℕ} 0
  pub rest : Server  -- with empty maps

abbrev pub view : Server → View
view s = record {
  coils = Quot.mk s.coils;
  regs = Quot.mk s.regs;
  rest = record s { coils = []; regs = [] };
}

-- What can be seen of an outcome.
abbrev pub seen : {A : Type 0} → Option (A × Server) → Option (A × View)
seen none = none
seen (some (a, s)) = some (a, view s)

pub Alike-view : (s t : Server) → Alike s t → view s ≡ view t
Alike-view s t (alike _ cs rs hc hr) =
    ap₂ (λ c r. record { coils = c; regs = r; rest = record s { coils = []; regs = [] } })
      (Quot.sound (λ i. hc i)) (Quot.sound (λ i. hr i))

BothAlike-seen : {A : Type 0} (o p : Option (A × Server)) → BothAlike o p → seen o ≡ seen p
BothAlike-seen none none h = refl
BothAlike-seen none (some q) h = absurd h
BothAlike-seen (some p) none h = absurd h
BothAlike-seen (some (a, s)) (some (b, t)) h = ap₂ (λ x v. some (x, v)) h.0 (Alike-view s t h.1)

-- Servers that look the same differ in the entries of their maps at most.
view-Alike : (s t : Server) → view s ≡ view t → Alike s t
unfolding read
view-Alike s t e =
    subst (Alike s) (ap (λ v. record (v.rest) { coils = t.coils; regs = t.regs }) e) (
      alike s t.coils t.regs (λ i. sym (ap (λ v. read Bool-set false i v.coils) e))
        (λ i. sym (ap (λ v. read ℕ_set 0 i v.regs) e)))

-- The end of an operation on the port: of a read, which has filled the input array, or of a write.
pub data Ended : Type 0 where
  read_ended : List ℕ → Bool → ℕ → Ended
  write_ended : Bool → Ended

abbrev pub filled_with : List ℕ → M (Unit {0})
filled_with bytes s =
    some (tt, record s { input_buffer = record (s.input_buffer) { bytes = bytes } })

Blind-filled_with : (bytes : List ℕ) → Blind (filled_with bytes)
Blind-filled_with bytes s t (alike _ cs rs hc hr) = (
  refl,
  alike (record s { input_buffer = record (s.input_buffer) { bytes = bytes } }) cs rs hc hr,
)

-- One end after the other, each handled as it comes.
unfoldable pub all_handled : Order → List Ended → M (Unit {0})
all_handled order [] = pure tt
all_handled order (read_ended bytes error size ∷ ends) =
    filled_with bytes >> (handle_read order error size >> all_handled order ends)
all_handled order (write_ended error ∷ ends) = handle_writing error >> all_handled order ends

Blind-all_handled : (order : Order) (ends : List Ended) → Blind (all_handled order ends)
unfolding all_handled
Blind-all_handled order [] = Blind-pure tt
Blind-all_handled order (read_ended bytes error size ∷ ends) =
    Blind-then (filled_with bytes) _ (Blind-filled_with bytes) (
      Blind-then (handle_read order error size) _ (Blind-handle_read order error size)
        (Blind-all_handled order ends))
Blind-all_handled order (write_ended error ∷ ends) =
    Blind-then (handle_writing error) _ (Blind-handle_writing order error)
      (Blind-all_handled order ends)

-- Reading a coil or a register gives what is seen, and changes nothing that is seen, though it may
-- put an entry into the map.
pub get_coil-seen :
    (i : ℕ) (s : Server) → seen (get_coil i s) ≡ some (read Bool-set false i (view s).coils, view s)
unfolding read
get_coil-seen i s =
    ap seen (get_coil-read_in i s)
    ∙ ap (λ c. some (value false (find i s.coils), record (view s) { coils = c }))
        (Quot.sound (λ j. sym (read_in-SameRead false i s.coils j)))

pub get_reg-seen :
    (i : ℕ) (s : Server) → seen (get_reg i s) ≡ some (read ℕ_set 0 i (view s).regs, view s)
unfolding read
get_reg-seen i s =
    ap seen (get_reg-read_in i s)
    ∙ ap (λ r. some (value 0 (find i s.regs), record (view s) { regs = r }))
        (Quot.sound (λ j. sym (read_in-SameRead 0 i s.regs j)))

-- Two servers that look the same, a little-endian or a big-endian machine, and any ends of reads
-- and writes, with errors or without: the handlers have the same outcomes, in which the servers
-- look the same again.
pub all_handled-view :
    (order : Order) (ends : List Ended) (s t : Server)
    → view s ≡ view t
    → seen (all_handled order ends s) ≡ seen (all_handled order ends t)
all_handled-view order ends s t e =
    BothAlike-seen (all_handled order ends s) (all_handled order ends t)
      (Blind-all_handled order ends s t (view-Alike s t e))
