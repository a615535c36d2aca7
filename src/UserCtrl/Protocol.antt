-- ===== src/UserCtrl/Protocol.antt =====
-- On `UserCtrl::AccessI2cRegisterS` of samples/05_user-ctrl/main.cpp: the words that it writes, and a slave that
-- does not answer.
use v4l2_tuto.Prelude.{
  ℕ, zero, suc, ◌≡◌, ◌∙◌, ap, refl, bit_and, bit_or, Bool, Bool-cases, inl, inr, true, false, none,
  some, List, [], ◌∷◌, ◌++◌, append-nil, append-snoc, sym,
}
use v4l2_tuto.Qvio.Pci.{Bar}
use v4l2_tuto.UserCtrl.{
  tx_room, tx_empty, rx_ready, rx_empty, tx_word, filler, poll, send, transmit, fetch, start_read,
  receive, access_i2c,
}

-- A device that keeps the writes it sees, as offsets with words.
abbrev pub logged : {M : Type 0} → Bar M → Bar (M × List (ℕ × ℕ))
logged bar = record {
  ioread32 = λ a s. let (w, m) = bar.ioread32 a s.0 in (w, (m, s.1));
  iowrite32 = λ w a s. (bar.iowrite32 w a s.0, s.1 ++ (a, w) ∷ []);
}

-- The words of the bytes to send.
abbrev pub bytes_frame : List ℕ → (rx_len : ℕ) → List (ℕ × ℕ)
bytes_frame [] rx_len = []
bytes_frame (x ∷ xs) rx_len = (0x3108, tx_word xs rx_len x) ∷ bytes_frame xs rx_len

-- What an access writes, in order.
abbrev pub tx_frame : (addr : ℕ) → List ℕ → (rx_len : ℕ) → List (ℕ × ℕ)
tx_frame addr [] rx_len = []
tx_frame addr (x ∷ xs) rx_len =
    (0x3100, 2) ∷ (0x3100, 1) ∷ (0x3108, bit_or 0x100 addr) ∷ bytes_frame (x ∷ xs) rx_len

abbrev pub rx_frame : (addr rx_len : ℕ) → List (ℕ × ℕ)
rx_frame addr zero = []
rx_frame addr (suc n) =
    (0x3120, 0xF)
    ∷ (0x3100, 2)
    ∷ (0x3100, 0)
    ∷ (0x3108, bit_or 0x101 addr)
    ∷ (0x3108, bit_or 0x200 (suc n))
    ∷ (0x3100, 1)
    ∷ []

module _ {M : Type 0} (bar : Bar M) where
  poll-log :
      (test : ℕ → Bool) (tries last : ℕ) (m : M) (log : List (ℕ × ℕ))
      → (poll (logged bar) test tries last (m, log)).1.1 ≡ log
  unfolding poll
  poll-log test zero last m log = refl
  poll-log test (suc n) last m log = elim (Bool-cases (test (bar.ioread32 0x3104 m).0)) [
    | inl e ↦ rw e
    | inr e ↦ rw e (poll-log test n (bar.ioread32 0x3104 m).0 (bar.ioread32 0x3104 m).1 log)
  ]

  send-log :
      (xs : List ℕ) (rx_len : ℕ) (s : M × List (ℕ × ℕ))
      → (send (logged bar) xs rx_len s).1 ≡ s.1 ++ bytes_frame xs rx_len
  unfolding send
  send-log [] rx_len s = sym (append-nil s.1)
  send-log (x ∷ xs) rx_len s =
      let (m', log) = (poll (logged bar) tx_room 100 0 s).1 in
      send-log xs rx_len
        (bar.iowrite32 (tx_word xs rx_len x) 0x3108 m', log ++ (0x3108, tx_word xs rx_len x) ∷ [])
      ∙ append-snoc log (0x3108, tx_word xs rx_len x) (bytes_frame xs rx_len)
      ∙ ap (λ l. l ++ bytes_frame (x ∷ xs) rx_len) (poll-log tx_room 100 0 s.0 s.1)

  transmit-log :
      (addr : ℕ) (tx : List ℕ) (rx_len : ℕ) (s : M × List (ℕ × ℕ))
      → (transmit (logged bar) addr tx rx_len s).1.1 ≡ s.1 ++ tx_frame addr tx rx_len
  unfolding transmit
  transmit-log addr [] rx_len s = sym (append-nil s.1)
  transmit-log addr (x ∷ xs) rx_len s =
      let l = s.1 in
      let ys = bytes_frame (x ∷ xs) rx_len in
      poll-log tx_empty 10 0 _ _
      ∙ send-log (x ∷ xs) rx_len _
      ∙ append-snoc _ (0x3108, bit_or 0x100 addr) ys
      ∙ append-snoc _ (0x3100, 1) _
      ∙ append-snoc l (0x3100, 2) _

  fetch-log : (n : ℕ) (s : M × List (ℕ × ℕ)) → (fetch (logged bar) n s).1.1 ≡ s.1
  unfolding fetch
  fetch-log zero s = refl
  fetch-log (suc n) s =
      let polled = poll (logged bar) rx_ready 100 0 s in
      elim (Bool-cases (rx_ready polled.0)) [
        | inl e ↦ rw e (fetch-log n _ ∙ poll-log rx_ready 100 0 s.0 s.1)
        | inr e ↦ rw e (poll-log rx_ready 100 0 s.0 s.1)
      ]

  start_read-log :
      (addr n : ℕ) (s : M × List (ℕ × ℕ))
      → (start_read (logged bar) addr (suc n) s).1 ≡ s.1 ++ rx_frame addr (suc n)
  unfolding start_read
  start_read-log addr n s =
      append-snoc _ (0x3108, bit_or 0x200 (suc n)) _
      ∙ append-snoc _ (0x3108, bit_or 0x101 addr) _
      ∙ append-snoc _ (0x3100, 0) _
      ∙ append-snoc _ (0x3100, 2) _
      ∙ append-snoc s.1 (0x3120, 0xF) _

  receive-log :
      (addr n : ℕ) (s : M × List (ℕ × ℕ))
      → (receive (logged bar) addr (suc n) s).device.1 ≡ s.1 ++ rx_frame addr (suc n)
  unfolding receive
  receive-log addr n s =
      poll-log rx_empty 2 0 _ _
      ∙ fetch-log (suc n) (start_read (logged bar) addr (suc n) s)
      ∙ start_read-log addr n s

  -- An access to the I2C controller writes the same words to the same registers on every device, whatever the
  -- device answers and when: the frame of the bytes to send, if there are any, and then that of the bytes to
  -- read, if there are any.
  pub access_i2c_frames :
      (addr : ℕ) (tx : List ℕ) (rx_len : ℕ) (m : M)
      → (access_i2c (logged bar) addr tx rx_len (m, [])).device.1
        ≡ tx_frame addr tx rx_len ++ rx_frame addr rx_len
  unfolding access_i2c
  access_i2c_frames addr tx zero m = transmit-log addr tx 0 (m, []) ∙ sym (append-nil _)
  access_i2c_frames addr tx (suc n) m =
      receive-log addr n _
      ∙ ap (λ l. l ++ rx_frame addr (suc n)) (transmit-log addr tx (suc n) (m, []))

-- A device whose receive FIFO is always empty.
pub record IsSilent {M : Type 0} (bar : Bar M) : Type 0 where
  pub status : (m : M) → bit_and (bar.ioread32 0x3104 m).0 0x40 ≡ 0x40

module _ {M : Type 0} (bar : Bar M) (silent : IsSilent bar) where
  status_not_ready : (m : M) → rx_ready (bar.ioread32 0x3104 m).0 ≡ false
  status_not_ready m = rw (silent.status m)

  poll_not_ready :
      (tries last : ℕ) (m : M) → rx_ready (poll bar rx_ready (suc tries) last m).0 ≡ false
  unfolding poll
  poll_not_ready zero last m = rw (status_not_ready m) (status_not_ready m)
  poll_not_ready (suc n) last m =
      rw (status_not_ready m) (poll_not_ready n (bar.ioread32 0x3104 m).0 (bar.ioread32 0x3104 m).1)

  fetch_timeout : (n : ℕ) (m : M) → (fetch bar (suc n) m).0 ≡ none
  unfolding fetch
  fetch_timeout n m = rw (poll_not_ready 99 0 m)

  status_empty : (m : M) → rx_empty (bar.ioread32 0x3104 m).0 ≡ true
  status_empty m = rw (silent.status m)

  poll_empty : (m : M) → rx_empty (poll bar rx_empty 2 0 m).0 ≡ true
  unfolding poll
  poll_empty m = rw (status_empty m) (status_empty m)

  receive-silent :
      (addr n : ℕ) (m : M)
      → ((receive bar addr (suc n) m).is_success ≡ true)
        × ((receive bar addr (suc n) m).rx ≡ filler 0 (suc n))
  unfolding receive
  receive-silent addr n m = (
    poll_empty _,
    ap (λ o. elim o [ none ↦ filler 0 (suc n) | some bs ↦ bs ])
        (fetch_timeout n (start_read bar addr (suc n) m)),
  )

  -- Reading from a device whose receive FIFO never gets a byte succeeds, and fills the buffer with the numbers
  -- from 0 on, each modulo 256.
  pub access_i2c_silent :
      (addr n : ℕ) (tx : List ℕ) (m : M)
      → ((access_i2c bar addr tx (suc n) m).is_success ≡ true)
        × ((access_i2c bar addr tx (suc n) m).rx ≡ filler 0 (suc n))
  unfolding access_i2c
  access_i2c_silent addr n tx m = receive-silent addr n _
