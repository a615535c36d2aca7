-- ===== src/UserCtrl.antt =====
-- samples/05_user-ctrl/main.cpp: access to the I2C controller of a board through its BAR. Delays have no effect here;
-- what the registers give is an argument.
pub mod Protocol
pub mod Session
use v4l2_tuto.Prelude.{
  ℕ, zero, suc, ◌+◌, ◌*◌, ◌%◌, ◌==◌, ltb, bit_and, bit_or, Bool, true, false, not, Option, none,
  some, List, [], ◌∷◌, length, if◌then◌else◌,
}
use v4l2_tuto.Qvio.Pci.{Bar}

-- The tests on the status register 0x104: the transmit FIFO has room, or is empty; the receive FIFO has a byte, or
-- is empty.
abbrev pub tx_room : ℕ → Bool
tx_room r = bit_and r 0x10 == 0

abbrev pub tx_empty : ℕ → Bool
tx_empty r = bit_and r 0x80 == 0x80

abbrev pub rx_ready : ℕ → Bool
rx_ready r = bit_and r 0x40 == 0

abbrev pub rx_empty : ℕ → Bool
rx_empty r = bit_and r 0x40 == 0x40

-- The word for a byte with `rest` behind it: the last one stops the transfer, unless a read follows.
abbrev pub tx_word : (rest : List ℕ) → (rx_len byte : ℕ) → ℕ
tx_word [] rx_len byte = if ltb 0 rx_len then bit_or 0 byte else bit_or 0x200 byte
tx_word (x ∷ xs) rx_len byte = byte

-- The `for` loop that fills the buffer with `(uint8_t)(j)` after a timeout.
abbrev pub filler : (j left : ℕ) → List ℕ
filler j zero = []
filler j (suc n) = j % 256 ∷ filler (j + 1) n

-- The result of an access, what the buffer holds then, and the device.
pub record Access (M : Type 0) : Type 0 where
  pub is_success : Bool
  pub rx : List ℕ
  pub device : M

module _ {M : Type 0} (bar : Bar M) where
  -- A loop that reads the status at most `tries` times, until the test holds: the last value read.
  pub poll : (ℕ → Bool) → (tries last : ℕ) → M → ℕ × M
  poll test zero last m = (last, m)
  poll test (suc n) last m =
      let (r, m') = bar.ioread32 0x3104 m in
      let rest = poll test n r m' in if test r then (r, m') else rest

  -- The loop over the bytes to send; each is sent even if there is no room after 100 tries.
  pub send : List ℕ → (rx_len : ℕ) → M → M
  send [] rx_len m = m
  send (x ∷ xs) rx_len m =
      send xs rx_len (bar.iowrite32 (tx_word xs rx_len x) 0x3108 (poll tx_room 100 0 m).1)

  -- The first half, with the test for an empty transmit FIFO.
  pub transmit : (addr : ℕ) → List ℕ → (rx_len : ℕ) → M → Bool × M
  transmit addr [] rx_len m = (false, m)
  transmit addr (x ∷ xs) rx_len m =
      let m1 = bar.iowrite32 2 0x3100 m in
      let m2 = bar.iowrite32 1 0x3100 m1 in
      let m3 = bar.iowrite32 (bit_or 0x100 addr) 0x3108 m2 in
      let m4 = send (x ∷ xs) rx_len m3 in let (r, m5) = poll tx_empty 10 0 m4 in (tx_empty r, m5)

  -- The loop over the bytes to read; `none` is a timeout.
  pub fetch : (left : ℕ) → M → Option (List ℕ) × M
  fetch zero m = (some [], m)
  fetch (suc n) m =
      let (r, m1) = poll rx_ready 100 0 m in
      let (w, m2) = bar.ioread32 0x310C m1 in
      let (bytes, m3) = fetch n m2 in
      if not (rx_ready r)
      then (none, m1)
      else (elim bytes [ none ↦ none | some bs ↦ some (bit_and w 0xFF ∷ bs) ], m3)

  -- The writes that start a read.
  pub start_read : (addr rx_len : ℕ) → M → M
  start_read addr rx_len m =
      let m1 = bar.iowrite32 0xF 0x3120 m in
      let m2 = bar.iowrite32 2 0x3100 m1 in
      let m3 = bar.iowrite32 0 0x3100 m2 in
      let m4 = bar.iowrite32 (bit_or 0x101 addr) 0x3108 m3 in
      let m5 = bar.iowrite32 (bit_or 0x200 rx_len) 0x3108 m4 in bar.iowrite32 1 0x3100 m5

  -- The second half. The result is that of the test for an empty receive FIFO, also after a timeout.
  pub receive : (addr rx_len : ℕ) → M → Access M
  receive addr rx_len m =
      let (bytes, m1) = fetch rx_len (start_read addr rx_len m) in
      let (r, m2) = poll rx_empty 2 0 m1 in
      record {
        is_success = rx_empty r;
        rx = elim bytes [ none ↦ filler 0 rx_len | some bs ↦ bs ];
        device = m2;
      }

  -- `UserCtrl::AccessI2cRegisterS`.
  unfoldable pub access_i2c : (addr : ℕ) → (tx : List ℕ) → (rx_len : ℕ) → M → Access M
  access_i2c addr tx zero m =
      let (ok, m') = transmit addr tx 0 m in record { is_success = ok; rx = []; device = m' }
  access_i2c addr tx (suc n) m = receive addr (suc n) (transmit addr tx (suc n) m).1

  -- `UserCtrl::AccessSlaveDeviceRegisterS`.
  unfoldable pub access_slave : (dev : ℕ) → (tx : List ℕ) → (rx_len : ℕ) → M → Access M
  unfolding access_i2c
  access_slave dev tx rx_len m = access_i2c (dev * 2 % 256) tx rx_len m

  -- What the proxy is sent: the address with the direction, the length to read, and the bytes.
  abbrev pub proxy_tx : (dev : ℕ) → List ℕ → (rx_len : ℕ) → List ℕ
  proxy_tx dev tx rx_len =
      if ltb 0 rx_len then bit_or (dev * 2) 1 % 256 ∷ rx_len % 256 ∷ tx else dev * 2 % 256 ∷ tx

  -- The first access of `AccessMcuRegisterS`; `none` is a write past the 32 bytes of its buffer.
  mcu_transmit : (dev : ℕ) → List ℕ → (rx_len : ℕ) → M → Option (Access M)
  unfolding access_i2c
  mcu_transmit dev [] rx_len m = some (record { is_success = false; rx = []; device = m })
  mcu_transmit dev (x ∷ xs) rx_len m =
      if ltb 32 (length (proxy_tx dev (x ∷ xs) rx_len))
      then none
      else some (access_i2c 0x66 (proxy_tx dev (x ∷ xs) rx_len) 0 m)

  -- `UserCtrl::AccessMcuRegisterS`.
  unfoldable pub access_mcu : (dev : ℕ) → (tx : List ℕ) → (rx_len : ℕ) → M → Option (Access M)
  unfolding mcu_transmit access_i2c
  access_mcu dev tx rx_len m = elim (mcu_transmit dev tx rx_len m) [
    | none ↦ none
    | some a ↦
        if rx_len == 0
        then some a
        else if ltb 32 rx_len
        then none
        else some (access_i2c 0x66 [] rx_len a.device)
  ]
