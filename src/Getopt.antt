-- ===== src/Getopt.antt =====
-- How the two sample programs, rtu_server.cpp and tcp_server.cpp, read their arguments.
use Prim.Native.String.{String}
use modbus_scanner.Base.{ℕ, Bool, false, Option, none, some, ◌==◌}

-- What `getopt(argc, argv, "p:")` gives: the character of the option, `none` for -1, and `optarg`.
pub record Getopt : Type 0 where
  pub o : Option ℕ
  pub optarg : String

-- `'p' == o`
unfoldable pub option_p : Getopt → Bool
option_p g = elim g.o [ none ↦ false | some c ↦ 112 == c ]
