-- ===== src/Tests/Coils.antt =====
-- The RTU server's coils at concrete inputs.
use modbus_scanner.Base.{
  ℕ, ◌≡◌, refl, Bool, true, false, List, [], ◌∷◌, ◌++◌, some, arith, length, replicate,
}
use modbus_scanner.RtuServer.Bits.{unpack}
use modbus_scanner.RtuServer.CoilReads.{F1Outcome, reply_f1_lem}
use modbus_scanner.RtuServer.CoilWrites.{CoilsWritten, reply_f15_fits}
use modbus_scanner.RtuServer.CoilsBack.{coils_read_back}
use modbus_scanner.RtuServer.Monad.{Server}
use modbus_scanner.RtuServer.Replies.{u8, reply_f1, reply_f15}
use modbus_scanner.RtuServer.Sending.{Sent}
use modbus_scanner.Scanner.{little_endian, get_hi_lo}
use modbus_scanner.Tests.Server.{server}

reply_f1_lem_example : F1Outcome 1 0 10 server
reply_f1_lem_example = reply_f1_lem 1 0 10 server refl

-- Ten coils from the bits of 0xcd and 0x01, as in mb_functions.txt.
abbrev ten : List Bool
ten = true ∷ false ∷ true ∷ true ∷ false ∷ false ∷ true ∷ true ∷ true ∷ false ∷ []

reply_f15_fits_example :
    (t : Server) × (reply_f15 little_endian 15 0x13 10 2 (0xcd ∷ 0x01 ∷ []) server ≡ some (tt, t))
    × CoilsWritten server t ten 0x13 (17 ∷ 15 ∷ 0 ∷ 0x13 ∷ 0 ∷ 10 ∷ [])
unfolding get_hi_lo
reply_f15_fits_example =
    reply_f15_fits little_endian 15 0x13 10 (0xcd ∷ 0x01 ∷ []) server refl
      (omega arith, (omega arith, tt)) (omega arith)

coils_read_back_example :
    (t u : Server) × (bytes : List ℕ) × (reply_f15 little_endian 15 65530 10 2
        (0xcd ∷ 0x01 ∷ [])
        server
      ≡ some (tt, t))
    × (reply_f1 1 65530 10 t ≡ some (tt, u))
    × Sent t u (t.dev_address ∷ 1 ∷ u8 (length bytes) ∷ bytes)
    × (unpack bytes ≡ ten ++ replicate 6 false)
coils_read_back_example =
    coils_read_back little_endian 15 1 65530 10 (0xcd ∷ 0x01 ∷ []) server refl (omega arith)
      (omega arith, (omega arith, tt)) (omega arith) (omega arith)
