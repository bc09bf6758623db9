-- ===== src/RtuServer/Starting.antt =====
-- rtu_server_data_handler.cpp: the constructor, the serial port, the start and the timer.
use modbus_scanner.Base.{
  ℕ, ◌+◌, ◌≡◌, refl, Bool, true, false, not, bit_and, bit_or, bit_xor, ◌⊎◌, inl, inr, List, [], ◌∷◌,
  ◌++◌, if◌then◌else◌,
}
use modbus_scanner.Defs.{Pdu}
use modbus_scanner.Rtu
use modbus_scanner.RtuServer.Monad.{Server, Op}
use modbus_scanner.RtuServer.Monad

-- The constructor. The arrays of the buffers and `m_pdu` hold what the memory holds.
unfoldable pub new : ℕ → Pdu → List ℕ → List ℕ → Server
unfolding Rtu.new
new dev_address pdu input output = record {
  coils = [];
  regs = [];
  modbus_scanner = Rtu.new dev_address pdu;
  input_buffer = record { bytes = input; actual_size = 0 };
  output_buffer = record { bytes = output; actual_size = 0 };
  dev_address = dev_address;
  ops = [];
}

-- The attributes of a terminal that are set.
pub record Termios : Type 0 where
  pub c_lflag : ℕ
  pub c_cflag : ℕ
  pub c_ispeed : ℕ
  pub c_ospeed : ℕ

-- The platform's masks, and its two functions on the attributes.
pub record Platform : Type 0 where
  pub icanon : ℕ
  pub echo : ℕ
  pub echoe : ℕ
  pub isig : ℕ
  pub hupcl : ℕ
  pub clocal : ℕ
  pub cread : ℕ
  pub csize : ℕ
  pub cs8 : ℕ
  pub parenb : ℕ
  pub parodd : ℕ
  pub cfsetispeed : Termios → ℕ → Termios
  pub cfsetospeed : Termios → ℕ → Termios

-- What the operating system answers: whether the call succeeds, for `isatty` whether it is a
-- terminal, and the attributes that `tcgetattr` gives.
pub record System : Type 0 where
  pub platform : Platform
  pub open_call : Bool
  pub isatty : Bool
  pub tcgetattr : Bool
  pub attributes : Termios
  pub tcsetattr : Bool

-- What is done to the descriptor once it is open.
pub data Descriptor : Type 0 where
  close tcdrain assign : Descriptor
  attributes_set : Termios → Descriptor

-- The handler with its port and its timer: how many waits of `m_sec_timer` have been started.
pub record Handler : Type 0 where
  pub server : Server
  pub descriptor : List Descriptor
  pub waits : ℕ

-- `flags &= ~mask` on 32 bits.
abbrev cleared : ℕ → ℕ → ℕ
cleared flags mask = bit_and flags (bit_xor mask 0xffffffff)

unfoldable pub port_attributes : Platform → Termios → Termios
port_attributes m opt =
    let local = bit_or (bit_or (bit_or m.icanon m.echo) m.echoe) m.isig in
    let raw = record opt { c_lflag = cleared opt.c_lflag local } in
    let fast = m.cfsetospeed (m.cfsetispeed raw 19200) 19200 in
    let open_line = bit_or (cleared fast.c_cflag m.hupcl) (bit_or m.clocal m.cread) in
    let eight = bit_or (cleared open_line m.csize) m.cs8 in
    record fast { c_cflag = cleared (cleared eight m.parenb) m.parodd }

unfoldable pub set_port_config : System → Handler → Bool × Handler
unfolding port_attributes
set_port_config system h =
    if not system.tcgetattr then (false, h) else if not system.tcsetattr then (false, h) else (
      true,
      record h {
        descriptor =
            h.descriptor ++ attributes_set (port_attributes system.platform system.attributes) ∷ [];
      },
    )

abbrev closed : Handler → Handler
closed h = record h { descriptor = h.descriptor ++ close ∷ [] }

unfoldable pub open_port : System → Handler → Bool × Handler
unfolding set_port_config
open_port system h =
    let configured = set_port_config system h in
    if not system.open_call
    then (false, h)
    else if not system.isatty
    then (false, closed h)
    else if not configured.0
    then (false, closed configured.1)
    else (
      true,
      record (configured.1) { descriptor = configured.1.descriptor ++ tcdrain ∷ assign ∷ [] },
    )

unfoldable pub schedule_timer : Handler → Handler
schedule_timer h = record h { waits = h.waits + 1 }

unfoldable pub handle_timer : Bool → Handler → Handler
unfolding schedule_timer
handle_timer error h = if error then h else schedule_timer h

-- `start_read`, which does not fail.
abbrev reading : Handler → Handler
reading h = record h {
  server = record (h.server) { ops = h.server.ops ++ Monad.async_read_some ∷ [] };
}

unfoldable pub start : System → Handler → Bool × Handler
unfolding open_port schedule_timer
start system h =
    let opened = open_port system h in
    if not opened.0 then (false, opened.1) else (true, reading (schedule_timer opened.1))

-- The four calls succeed.
abbrev pub Works : System → Type 0
Works system =
    (system.open_call ≡ true)
    × (system.isatty ≡ true)
    × (system.tcgetattr ≡ true)
    × (system.tcsetattr ≡ true)

-- One of the four calls fails.
abbrev pub Fails : System → Type 0
Fails system =
    (system.open_call ≡ false)
    ⊎ (system.isatty ≡ false)
    ⊎ (system.tcgetattr ≡ false)
    ⊎ (system.tcsetattr ≡ false)

abbrev pub StartOutcome : System → Handler → Type 0
StartOutcome system h =
    (Works system
      × (start system h ≡ (
        true,
        record {
          server = record (h.server) { ops = h.server.ops ++ Monad.async_read_some ∷ [] };
          descriptor =
              (h.descriptor
                ++ attributes_set (port_attributes system.platform system.attributes) ∷ [])
              ++ tcdrain ∷ assign ∷ [];
          waits = h.waits + 1;
        },
      )))
    ⊎ (Fails system
        × (start system h ≡ (
          false,
          record h {
            descriptor = if system.open_call then h.descriptor ++ close ∷ [] else h.descriptor;
          },
        )))

-- Either all four calls of the operating system succeed, and `start` returns true, its attributes
-- are set, the descriptor is the serial port's, and one wait of the timer and one read of the port
-- have been started; or one fails, and `start` returns false, nothing has been started, and the descriptor is closed, once,
-- if it was opened.
pub start_lem : (system : System) (h : Handler) → StartOutcome system h
unfolding start open_port set_port_config schedule_timer
start_lem system h =
    by_case system.platform system.open_call system.isatty system.tcgetattr system.attributes
      system.tcsetattr h
  where
    by_case :
        (m : Platform) (a b c : Bool) (o : Termios) (e : Bool) (h : Handler)
        → StartOutcome
            (record {
              platform = m;
              open_call = a;
              isatty = b;
              tcgetattr = c;
              attributes = o;
              tcsetattr = e;
            })
            h
    by_case m false b c o e h = inr (inl refl, refl)
    by_case m true false c o e h = inr (inr (inl refl), refl)
    by_case m true true false o e h = inr (inr (inr (inl refl)), refl)
    by_case m true true true o false h = inr (inr (inr (inr refl)), refl)
    by_case m true true true o true h = inl ((refl, refl, refl, refl), refl)
