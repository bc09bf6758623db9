-- ===== src/RtuServer/CoilsBack.antt =====
-- Coils that rtu_server_data_handler.cpp was told to write are the coils it replies with.
use modbus_scanner.Base.{
  ℕ, zero, suc, ◌*◌, ◌≤◌, ◌<◌, ◌≡◌, refl, sym, ap, ◌∙◌, false, List, [], ◌∷◌, ◌++◌, some, arith,
  length, length-append, take, replicate, IsBytes,
}
use modbus_scanner.Defs.{buf_size}
use modbus_scanner.RtuServer.Bits.{bits_of, unpack, padding}
use modbus_scanner.RtuServer.Cells.{stored, window, window-ext, window-stored}
use modbus_scanner.RtuServer.CoilReads.{reply_f1_fits}
use modbus_scanner.RtuServer.CoilWrites.{reply_f15_fits}
use modbus_scanner.RtuServer.Memory.{coil}
use modbus_scanner.RtuServer.Monad.{Server}
use modbus_scanner.RtuServer.Replies.{u8, reply_f1, reply_f15}
use modbus_scanner.RtuServer.Sending.{Sent}
use modbus_scanner.Scanner.{Order}

length-take : {A : Type 0} (n : ℕ) (xs : List A) → n ≤ length xs → length (take n xs) ≡ n
length-take zero xs h = refl
length-take (suc n) [] h = absurd (omega arith)
length-take (suc n) (x ∷ xs) h = ap (λ m. suc m) (length-take n xs (omega arith))

length-bits_of : (k v : ℕ) → length (bits_of k v) ≡ k
length-bits_of zero v = refl
length-bits_of (suc k) v = ap (λ m. suc m) (length-bits_of k _)

length-unpack : (bytes : List ℕ) → length (unpack bytes) ≡ 8 * length bytes
length-unpack [] = refl
length-unpack (v ∷ vs) =
    omega (arith, length-append (bits_of 8 v) (unpack vs), length-bits_of 8 v, length-unpack vs)

-- A write of coils by function 15, with a bit of its payload for each, and then a read of the same
-- coils by function 1: the bits of the reply, the lowest of a byte first, are the bits that were
-- written, and then zeros up to a whole byte.
pub coils_read_back :
    (order : Order) (fc fc' address quantity : ℕ) (payload : List ℕ) (s : Server)
    → length s.output_buffer.bytes ≡ buf_size
    → address < 65536
    → IsBytes payload
    → length payload < 256
    → quantity ≤ 8 * length payload
    → (t u : Server) × (bytes : List ℕ) × (reply_f15 order fc address quantity
          (length payload)
          payload
          s
        ≡ some (tt, t))
      × (reply_f1 fc' address quantity t ≡ some (tt, u))
      × Sent t u (t.dev_address ∷ fc' ∷ u8 (length bytes) ∷ bytes)
      × (unpack bytes ≡ take quantity (unpack payload) ++ replicate (padding quantity) false)
coils_read_back order fc fc' a q payload s whole small bytes few enough =
    let vs = take q (unpack payload) in
    let n : length vs ≡ q = length-take q (unpack payload) (omega (arith, length-unpack payload)) in
    let (t, wrote, w) = reply_f15_fits order fc a q payload s whole bytes few in
    let (u, out, read, sent, good, bits) = reply_f1_fits fc' a q t w.whole (omega arith) in
    let back : window (stored vs a (coil s)) q a ≡ vs =
      ap (λ m. window (stored vs a (coil s)) m a) (sym n)
      ∙ window-stored vs a (coil s) small (omega (arith, n)) in
    (
      t,
      u,
      out,
      wrote,
      read,
      sent,
      bits
          ∙ ap (λ bs. bs ++ replicate (padding q) false)
              (window-ext (stored vs a (coil s)) (coil t) q a w.coils ∙ back),
    )
