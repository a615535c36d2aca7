-- ===== src/UserCtrl/Session/Commands.antt =====
-- On the commands of samples/05_user-ctrl/main.cpp that change a register.
use v4l2_tuto.Prelude.{
  ℕ, ◌-◌, ◌<◌, ◌≡◌, ◌≢◌, ◌⊎◌, inl, inr, ap, ◌∙◌, ◌==◌, if◌then◌else◌, arith, bit_or, bit,
  bit-le_one, bit-bit_or, bit-bit_xor, differ-flip, bit-single_0, bit-single_4, bit-single_20,
  bit-three,
}
use native.Mathlib.Decide.{ℕ_discrete}
use Prim.Native.Nat.{bit_xor}
use v4l2_tuto.Qvio.Pci.{Bar}
use v4l2_tuto.Qvio.Pci.Access.{IsMemory}
use v4l2_tuto.UserCtrl.Session.{
  App, change_register, flip_4, flip_20, switch, user_ctrl5, user_ctrl6, user_ctrl7,
}

-- A mask whose bit `k` is that of a single bit `n`.
flipped :
    (w mask n k : ℕ)
    → bit k mask ≡ (if k == n then 1 else 0)
    → bit k (bit_xor w mask) ≡ (if k == n then 1 - bit k w else bit k w)
flipped w mask n k e =
    bit-bit_xor k w mask
    ∙ differ-flip (bit k w) (bit k mask) (bit-le_one k w) (bit-le_one k mask)
    ∙ ground (arith, e)

raised :
    (w k : ℕ)
    → k < 32
    → bit k (bit_or w 0x4110)
      ≡ (if k == 4 then 1 else if k == 8 then 1 else if k == 14 then 1 else bit k w)
raised w k h = bit-bit_or k w 0x4110 ∙ ground (arith, bit-three k h, bit-le_one k w)

same_or : (a b : ℕ) → (a ≡ b) ⊎ (a ≢ b)
same_or a b = elim (ℕ_discrete a b) [ yes e ↦ inl e | no ne ↦ inr ne ]

module _ {M : Type 0} (bar : Bar M) (h : IsMemory bar) where
  -- The register after a command, and the others.
  change_register-read :
      (offset : ℕ) (f : ℕ → ℕ) (a : App M)
      → (bar.ioread32 offset (change_register bar offset f a).device).0
        ≡ f (bar.ioread32 offset a.device).0
  unfolding change_register
  change_register-read offset f a = h.read_same offset _ _

  change_register-other :
      (offset b : ℕ) (f : ℕ → ℕ) (a : App M)
      → b ≢ offset
      → (bar.ioread32 b (change_register bar offset f a).device).0 ≡ (bar.ioread32 b a.device).0
  unfolding change_register
  change_register-other offset b f a ne =
      h.read_other b offset _ _ ne ∙ ap (λ m. (bar.ioread32 b m).0) (h.read_silent offset a.device)

  -- On registers that keep what is written, the commands 5 and 6 flip bit 4 and bit 20 of the register 0xEC, and the
  -- command 7 flips bit 0 of the register 0xD0 and sets its bits 4, 8 and 14. All other bits below
  -- bit 32 of that register, and all other registers, stay.
  pub commands-bits :
      (a : App M) (k b : ℕ)
      → k < 32
      → let r = λ (o : ℕ) (c : App M). (bar.ioread32 o c.device).0 in
        (bit k (r 0xEC (user_ctrl5 bar a))
          ≡ (if k == 4 then 1 - bit k (r 0xEC a) else bit k (r 0xEC a)))
        × (bit k (r 0xEC (user_ctrl6 bar a))
            ≡ (if k == 20 then 1 - bit k (r 0xEC a) else bit k (r 0xEC a)))
        × (bit k (r 0xD0 (user_ctrl7 bar a)) ≡ (
            if k == 0
            then 1 - bit k (r 0xD0 a)
            else if k == 4
            then 1
            else if k == 8
            then 1
            else if k == 14
            then 1
            else bit k (r 0xD0 a)))
        × ((b ≡ 0xEC) ⊎ ((r b (user_ctrl5 bar a) ≡ r b a) × (r b (user_ctrl6 bar a) ≡ r b a)))
        × ((b ≡ 0xD0) ⊎ (r b (user_ctrl7 bar a) ≡ r b a))
  unfolding user_ctrl5 user_ctrl6 user_ctrl7
  commands-bits a k b lt = (
    ap (bit k) (change_register-read 0xEC flip_4 a) ∙ flipped _ 0x10 4 k (bit-single_4 k lt),
    ap (bit k) (change_register-read 0xEC flip_20 a) ∙ flipped _ 0x100000 20 k (bit-single_20 k lt),
    ap (bit k) (change_register-read 0xD0 switch a)
        ∙ flipped _ 1 0 k (bit-single_0 k lt)
        ∙ ground (arith, raised (bar.ioread32 0xD0 a.device).0 k lt),
    elim (same_or b 0xEC) [
      | inl e ↦ inl e
      | inr ne ↦
          inr (change_register-other 0xEC b flip_4 a ne, change_register-other 0xEC b flip_20 a ne)
    ],
    elim (same_or b 0xD0) [
      | inl e ↦ inl e
      | inr ne ↦ inr (change_register-other 0xD0 b switch a ne)
    ],
  )
