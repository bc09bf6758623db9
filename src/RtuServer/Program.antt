-- ===== src/RtuServer/Program.antt =====
-- rtu_server/rtu_server.cpp: the program around the server.
use Prim.Native.String.{String}
use modbus_scanner.Base.{
  ℕ, ◌≡◌, refl, Bool, true, false, not, ◌⊎◌, inl, inr, List, [], ◌∷◌, if◌then◌else◌, length, All,
  arith,
}
use modbus_scanner.Defs.{Pdu, buf_size}
use modbus_scanner.Getopt.{Getopt, option_p}
use modbus_scanner.Rtu
use modbus_scanner.RtuServer.Device.{Device}
use modbus_scanner.RtuServer.Memory.{coil, reg}
use modbus_scanner.RtuServer.Monad.{find, async_read_some}
use modbus_scanner.RtuServer.Session.{Arrival, Arrives, Refines, server-Refines}
use modbus_scanner.RtuServer.Starting
use modbus_scanner.RtuServer.Starting.{System, Handler, Works, Fails, start, start_lem}
use modbus_scanner.TcpServer.{Out, text, endl}

-- What `main` has done before it returns 0 or, where `runs` is true, before `io_service.run`.
pub record Program : Type 0 where
  pub handler : Handler
  pub out : List Out
  pub runs : Bool

unfoldable pub chosen_port_name : Getopt → String
chosen_port_name g = if option_p g then g.optarg else "/dev/pts/5"

-- `system` is what the operating system answers for a port of that name. The arrays of the
-- buffers and `m_pdu` hold what the memory holds.
unfoldable pub main : (String → System) → Getopt → Pdu → List ℕ → List ℕ → Program
unfolding chosen_port_name
main system g pdu input output =
    let data_handler : Handler = record {
      server = Starting.new 17 pdu input output;
      descriptor = [];
      waits = 0;
    } in
    let started = start (system (chosen_port_name g)) data_handler in
    if not started.0
    then record { handler = started.1; out = text "start failed \n" ∷ []; runs = false }
    else record { handler = started.1; out = text "start success" ∷ endl ∷ []; runs = true }

-- Coils that are not set, and registers that are 0.
abbrev pub empty_device : Device
empty_device = record { coils = λ i. false; regs = λ i. 0 }

-- `main` runs, with one read of the port and one wait of the timer started, and its server serves.
pub record Serves (m : Program) (arrivals : List Arrival) : Type 0 where
  pub runs : m.runs ≡ true
  pub says : m.out ≡ text "start success" ∷ endl ∷ []
  pub reads : m.handler.server.ops ≡ async_read_some ∷ []
  pub waits : m.handler.waits ≡ 1
  pub answers : Refines 17 arrivals m.handler.server empty_device

-- `main` returns, and nothing has been started.
pub record GivesUp (m : Program) : Type 0 where
  pub returns : m.runs ≡ false
  pub says : m.out ≡ text "start failed \n" ∷ []
  pub reads : m.handler.server.ops ≡ []
  pub waits : m.handler.waits ≡ 0

abbrev pub MainOutcome : System → Program → List Arrival → Type 0
MainOutcome system m arrivals = (Works system × Serves m arrivals) ⊎ (Fails system × GivesUp m)

-- The program, with an output array of 1024 bytes, on a little-endian machine. Where the system's
-- four calls succeed for the port that the arguments choose, it says so and runs, with one read and
-- one wait started, and from then on its server answers any arrivals for the address 17 as a device
-- does whose coils are not set and whose registers are 0. Where one fails, it says so and returns
-- with nothing started.
pub main-serves :
    (system : String → System) (g : Getopt) (pdu : Pdu) (input output : List ℕ)
    (arrivals : List Arrival)
    → length output ≡ buf_size
    → All (Arrives 17) arrivals
    → MainOutcome (system (chosen_port_name g)) (main system g pdu input output) arrivals
unfolding main chosen_port_name Starting.new Rtu.new coil reg find
main-serves system g pdu input output arrivals whole h =
    let data_handler : Handler = record {
      server = Starting.new 17 pdu input output;
      descriptor = [];
      waits = 0;
    } in
    elim (start_lem (system (chosen_port_name g)) data_handler) [
      | inl (works, e) ↦ rw e (
          inl (
            works,
            record {
              runs = refl;
              says = refl;
              reads = refl;
              waits = refl;
              answers = server-Refines 17 arrivals _ empty_device h (record {
                holds = record { coils = λ i. refl; regs = λ i. refl; words = λ i. omega arith };
                ready = inr (refl, refl);
                scans = refl;
                answers = refl;
                whole = whole;
              });
            },
          ))
      | inr (fails, e) ↦
          rw e (inr (fails, record { returns = refl; says = refl; reads = refl; waits = refl }))
    ]
