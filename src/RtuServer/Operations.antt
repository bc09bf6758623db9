-- ===== src/RtuServer/Operations.antt =====
-- How many asynchronous operations rtu_server_data_handler.cpp starts.
use mathlib.Core.Path.{subst}
use modbus_scanner.Base.{
  ℕ, zero, suc, ◌+◌, ◌≡◌, refl, ap, ◌∙◌, Bool, true, false, List, [], ◌∷◌, Option, some, none,
  arith, if◌then◌else◌, length, length-append,
}
use modbus_scanner.Defs
use modbus_scanner.Defs.{Buffer, Event, on_pdu, on_nonse, set_actual_size, Pdu}
use modbus_scanner.RtuServer.Memory.{
  Same, coil_read, reg_read, get_coil_lem, get_reg_lem, get_coil-Same, get_reg-Same,
}
use modbus_scanner.RtuServer.Monad.{
  Server, M, Op, async_read_some, async_write, m_input_buffer, m_output_buffer, pure, ◌>>=◌, ◌>>◌,
  add, get_coil, set_coil, get_reg, set_reg, start, start_read, send_pdu, mirror_pdu,
}
use modbus_scanner.RtuServer.Replies.{at}

-- From `s` to `t`, `n` operations are started, and the scanner and its input are left alone.
pub record Starts (n : ℕ) (s t : Server) : Type 0 where
  pub many : length t.ops ≡ length s.ops + n
  pub scanner : t.modbus_scanner ≡ s.modbus_scanner
  pub input : t.input_buffer ≡ s.input_buffer

-- The same of an outcome, where there is one.
abbrev pub Started : {A : Type 0} → ℕ → Server → Option (A × Server) → Type 0
Started n s none = Unit
Started n s (some (a, t)) = Starts n s t

Starts-none : (s : Server) → Starts 0 s s
Starts-none s = record { many = omega arith; scanner = refl; input = refl }

-- A method that starts `n` operations from every state.
abbrev pub Always : {A : Type 0} → ℕ → M A → Type 0
Always n m = (s : Server) → Started n s (m s)

module _ {A : Type 0} (m n : ℕ) {s t : Server} (p : Starts m s t) where
  pub later : (o : Option (A × Server)) → Started n t o → Started (m + n) s o
  later none q = tt
  later (some (a, u)) q = record {
    many = omega (arith, p.many, q.many);
    scanner = q.scanner ∙ p.scanner;
    input = q.input ∙ p.input;
  }

module _ {A B : Type 0} (m n : ℕ) (k : A → M B) (next : (a : A) → Always n (k a)) (s : Server) where
  bind_case :
      (o : Option (A × Server))
      → Started m s o
      → Started (m + n) s (elim o [ none ↦ none | some (a, t) ↦ k a t ])
  bind_case none p = tt
  bind_case (some (a, t)) p = later m n p (k a t) (next a t)

pub bind :
    {A B : Type 0} (m n : ℕ) (p : M A) (k : A → M B)
    → Always m p
    → ((a : A) → Always n (k a))
    → Always (m + n) (p >>= k)
bind m n p k first next s = bind_case m n k next s (p s) (first s)

-- A method that starts nothing, in front.
pub quiet :
    {A B : Type 0} (n : ℕ) (p : M A) (k : A → M B)
    → Always 0 p
    → ((a : A) → Always n (k a))
    → Always n (p >>= k)
quiet n p k first next s =
    let e : 0 + n ≡ n = omega arith in
    subst (λ i. Started i s ((p >>= k) s)) e (bind 0 n p k first next s)

pub quietly :
    {B : Type 0} (n : ℕ) (p : M (Unit {0})) (k : M B) → Always 0 p → Always n k → Always n (p >> k)
quietly n p k first next = quiet n p (λ _. k) first (λ _. next)

pub Always-pure : {A : Type 0} (a : A) → Always 0 (pure a)
Always-pure a s = record { many = omega arith; scanner = refl; input = refl }

pub Always-add : (c : ℕ) → Always 0 (add c)
unfolding add
Always-add c s = by_room (Defs.add s.output_buffer c)
  where
    by_room :
        (o : Option Buffer)
        → Started 0 s (elim o [ none ↦ none | some b ↦ some (tt, record s { output_buffer = b }) ])
    by_room none = tt
    by_room (some b) = record { many = omega arith; scanner = refl; input = refl }

pub Always-at : (xs : List ℕ) (i : ℕ) → Always 0 (at xs i)
unfolding at
Always-at [] i s = tt
Always-at (x ∷ xs) zero s = record { many = omega arith; scanner = refl; input = refl }
Always-at (x ∷ xs) (suc i) s = Always-at xs i s

pub Always-get_coil : (i : ℕ) → Always 0 (get_coil i)
Always-get_coil i s =
    rw (get_coil_lem s i) (record {
      many = ap length same.ops ∙ omega arith;
      scanner = same.scanner;
      input = same.input;
    })
  where
    same : Same s (coil_read s i)
    same = get_coil-Same s i

pub Always-get_reg : (i : ℕ) → Always 0 (get_reg i)
Always-get_reg i s =
    rw (get_reg_lem s i) (record {
      many = ap length same.ops ∙ omega arith;
      scanner = same.scanner;
      input = same.input;
    })
  where
    same : Same s (reg_read s i)
    same = get_reg-Same s i

pub Always-set_coil : (i v : ℕ) → Always 0 (set_coil i v)
unfolding set_coil
Always-set_coil i v s = record { many = omega arith; scanner = refl; input = refl }

pub Always-set_reg : (i v : ℕ) → Always 0 (set_reg i v)
unfolding set_reg
Always-set_reg i v s = record { many = omega arith; scanner = refl; input = refl }

Always-start : (op : Op) → Always 1 (start op)
Always-start op s = record { many = length-append s.ops (op ∷ []); scanner = refl; input = refl }

pub Always-start_read : Always 1 start_read
unfolding start_read
Always-start_read = Always-start async_read_some

pub Always-send_pdu : Always 1 send_pdu
unfolding send_pdu
Always-send_pdu s = Always-start (async_write m_output_buffer s.output_buffer.actual_size) s

pub Always-mirror_pdu : Always 1 mirror_pdu
unfolding mirror_pdu
Always-mirror_pdu s = Always-start (async_write m_input_buffer s.input_buffer.actual_size) s

pub branch :
    {A : Type 0} (n : ℕ) (b : Bool) (p q : M A)
    → Always n p
    → Always n q
    → Always n (if b then p else q)
branch n true p q first second = first
branch n false p q first second = second
