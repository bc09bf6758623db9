-- ===== src/Tests/Session.antt =====
-- The RTU server against the abstract device, and its start, at concrete inputs.
use modbus_scanner.Base.{refl, inl, inr, none, true, false, [], ◌∷◌, arith, replicate}
use modbus_scanner.Request.{short, write}
use modbus_scanner.Rtu
use modbus_scanner.RtuServer.Memory.{coil, reg}
use modbus_scanner.RtuServer.Monad.{Server, find}
use modbus_scanner.RtuServer.Session.{Arrival, Arrives, Represents, Refines, server-Refines}
use modbus_scanner.RtuServer.Program
use modbus_scanner.RtuServer.Program.{empty_device}
use modbus_scanner.RtuServer.Starting
use modbus_scanner.RtuServer.Starting.{System, Handler, StartOutcome, start_lem}
use modbus_scanner.Tests.{blank}

abbrev started : Server
started = Starting.new 17 blank (replicate 1024 0) (replicate 1024 0)

-- Register 7 is set to 3, ten coils are written, and registers 7 and 8 are read, the last behind a
-- byte that is not for the server.
abbrev first : Arrival
first = record { noise = []; request = short 6 7 3; rest = replicate 1016 0 }

abbrev second : Arrival
second = record {
  noise = [];
  request = write 15 0x13 10 (0xcd ∷ 0x01 ∷ []);
  rest = replicate 1013 0;
}

abbrev third : Arrival
third = record { noise = 0x55 ∷ []; request = short 3 7 2; rest = replicate 1015 0 }

first-Arrives : Arrives 17 first
first-Arrives = record {
  other = tt;
  fits = (omega arith, omega arith, omega arith, omega arith);
  served = tt;
  whole = refl;
}

second-Arrives : Arrives 17 second
second-Arrives = record {
  other = tt;
  fits = (inl refl, omega arith, omega arith, omega arith);
  served = ((omega arith, (omega arith, tt)), tt);
  whole = refl;
}

third-Arrives : Arrives 17 third
third-Arrives = record {
  other = (omega arith, tt);
  fits = (omega arith, omega arith, omega arith, omega arith);
  served = omega arith;
  whole = refl;
}

started-Represents : Represents 17 started empty_device
unfolding Starting.new Rtu.new coil reg find
started-Represents = record {
  holds = record { coils = λ i. refl; regs = λ i. refl; words = λ i. omega arith };
  ready = inr (refl, refl);
  scans = refl;
  answers = refl;
  whole = refl;
}

server-Refines_example : Refines 17 (first ∷ second ∷ third ∷ []) started empty_device
server-Refines_example =
    server-Refines 17 (first ∷ second ∷ third ∷ []) started empty_device
      (first-Arrives, (second-Arrives, (third-Arrives, tt))) started-Represents

-- A port that is not a terminal.
abbrev file : System
file = record {
  platform = record {
    icanon = 2;
    echo = 8;
    echoe = 16;
    isig = 1;
    hupcl = 1024;
    clocal = 2048;
    cread = 128;
    csize = 48;
    cs8 = 48;
    parenb = 256;
    parodd = 512;
    cfsetispeed = λ opt speed. record opt { c_ispeed = speed };
    cfsetospeed = λ opt speed. record opt { c_ospeed = speed };
  };
  open_call = true;
  isatty = false;
  tcgetattr = true;
  attributes = record { c_lflag = 0; c_cflag = 0; c_ispeed = 0; c_ospeed = 0 };
  tcsetattr = true;
}

start_lem_example : StartOutcome file (record { server = started; descriptor = []; waits = 0 })
start_lem_example = start_lem file (record { server = started; descriptor = []; waits = 0 })

-- A terminal, on which all calls succeed, and the program without arguments on it.
abbrev terminal : System
terminal = record file { isatty = true }

main-serves_example :
    let m =
      Program.main
        (λ name. terminal)
        (record { o = none; optarg = "" })
        blank
        (replicate 1024 0)
        (replicate 1024 0) in
    Program.MainOutcome terminal m (first ∷ second ∷ third ∷ [])
main-serves_example =
    Program.main-serves (λ name. terminal) (record { o = none; optarg = "" }) blank
      (replicate 1024 0) (replicate 1024 0) (first ∷ second ∷ third ∷ []) refl
      (first-Arrives, (second-Arrives, (third-Arrives, tt)))
