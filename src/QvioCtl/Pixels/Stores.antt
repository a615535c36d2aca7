-- ===== src/QvioCtl/Pixels/Stores.antt =====
-- On the stores of a launch of the kernels in samples/common/ZzCUDA.cu, made in any order.
use v4l2_tuto.Prelude.{
  ℕ, zero, suc, ◌+◌, ◌*◌, ◌≡◌, ◌≢◌, ◌≤◌, ◌<◌, ◌∙◌, refl, sym, ap, subst, Bool, true, ◌&&◌, ◌||◌,
  ◌==◌, ltb, List, [], ◌∷◌, ◌++◌, update, arith, Bool-cases, inl, inr, ◌⊎◌,
}
use native.Mathlib.Nat.{suc-mul, mul-le-mul_right}
use v4l2_tuto.QvioCtl.Pixels.{
  cells, thread, launch, Cell, cell, run_stores, threads_in_row, threads_in, in_blocks, same_cell,
  stored,
}

same_cell_eq : (c d : Cell) → same_cell c d ≡ true → c ≡ d
same_cell_eq c d h = ground (arith, h)

update_same : (m : ℕ → ℕ) (i v : ℕ) → update m i v i ≡ v
update_same m i v = ground arith

update_other : (m : ℕ → ℕ) (i v j : ℕ) → i ≢ j → update m i v j ≡ m j
update_other m i v j h = ground (arith, h)

abbrev all_valid : (Cell → Bool) → List Cell → Bool
all_valid valid [] = true
all_valid valid (c ∷ cs) = valid c && all_valid valid cs

module _ (valid : Cell → Bool) (to from : Cell → ℕ)
    (apart : (c d : Cell) → valid c ≡ true → valid d ≡ true → to c ≡ to d → c ≡ d)
    (clear : (c d : Cell) → valid c ≡ true → valid d ≡ true → to c ≢ from d) where
  -- A byte that is read is never stored.
  run_stores-from :
      (cs : List Cell) (m : ℕ → ℕ) (d : Cell)
      → all_valid valid cs ≡ true
      → valid d ≡ true
      → run_stores to from cs m (from d) ≡ m (from d)
  unfolding run_stores
  run_stores-from [] m d h v = refl
  run_stores-from (c ∷ cs) m d h v =
      run_stores-from cs _ d (ground (arith, h)) v
      ∙ update_other m (to c) (m (from c)) (from d) (clear c d (ground (arith, h)) v)

  just_stored : (m : ℕ → ℕ) (c d : Cell) → c ≡ d → update m (to c) (m (from c)) (to d) ≡ m (from d)
  just_stored m c d e =
      subst (λ b. update m (to c) (m (from c)) (to b) ≡ m (from b)) e
        (update_same m (to c) (m (from c)))

  right_after :
      (m : ℕ → ℕ) (c d : Cell)
      → valid c ≡ true
      → valid d ≡ true
      → m (to d) ≡ m (from d)
      → update m (to c) (m (from c)) (to d) ≡ m (from d)
  right_after m c d u v e = elim (Bool-cases (to c == to d)) [
    | inl s ↦ just_stored m c d (apart c d u v (ground (arith, s)))
    | inr s ↦ update_other m (to c) (m (from c)) (to d) (λ f. ground (arith, s, f)) ∙ e
  ]

  -- A byte that is right stays right.
  run_stores-kept :
      (cs : List Cell) (m : ℕ → ℕ) (d : Cell)
      → all_valid valid cs ≡ true
      → valid d ≡ true
      → m (to d) ≡ m (from d)
      → run_stores to from cs m (to d) ≡ m (from d)
  unfolding run_stores
  run_stores-kept [] m d h v e = e
  run_stores-kept (c ∷ cs) m d h v e =
      let there = clear c d (ground (arith, h)) v in
      let same = update_other m (to c) (m (from c)) (from d) there in
      run_stores-kept cs (update m (to c) (m (from c))) d (ground (arith, h)) v
        (right_after m c d (ground (arith, h)) v e ∙ sym same)
      ∙ same

  -- A byte that is stored is right in the end.
  run_stores-right :
      (cs : List Cell) (m : ℕ → ℕ) (d : Cell)
      → all_valid valid cs ≡ true
      → valid d ≡ true
      → stored d cs ≡ true
      → run_stores to from cs m (to d) ≡ m (from d)
  unfolding run_stores
  run_stores-right [] m d h v s = absurd (ground (arith, s))
  run_stores-right (c ∷ cs) m d h v s =
      let there = clear c d (ground (arith, h)) v in
      let same = update_other m (to c) (m (from c)) (from d) there in
      elim (Bool-cases (same_cell d c)) [
        | inl e ↦
            run_stores-kept cs (update m (to c) (m (from c))) d (ground (arith, h)) v
              (just_stored m c d (sym (same_cell_eq d c e)) ∙ sym same)
            ∙ same
        | inr e ↦
            run_stores-right cs (update m (to c) (m (from c))) d (ground (arith, h)) v
              (ground (arith, s, e))
            ∙ same
      ]

pub same_row : (s y y' r r' : ℕ) → r < s → r' < s → y * s + r ≡ y' * s + r' → (y ≡ y') × (r ≡ r')
same_row s zero zero r r' h h' e = (refl, omega (arith, e))
same_row s zero (suc y') r r' h h' e = absurd (omega (arith, e, h, suc-mul y' s))
same_row s (suc y) zero r r' h h' e = absurd (omega (arith, e, h', suc-mul y s))
same_row s (suc y) (suc y') r r' h h' e =
    let (p, q) = same_row s y y' r r' h h' (omega (arith, e, suc-mul y s, suc-mul y' s)) in
    (ap suc p, q)

pub in_rows : (s y h r : ℕ) → y < h → r < s → y * s + r < h * s
in_rows s y h r lt le = omega (arith, mul-le-mul_right s (lt), suc-mul y s, le)

-- One area lies before the other.
abbrev pub Apart : (a m b n : ℕ) → Type 0
Apart a m b n = (a + m ≤ b) ⊎ (b + n ≤ a)

-- One of the `n` bytes of a thread within the image.
abbrev pub in_image : (n width height : ℕ) → Cell → Bool
in_image n width height c = ltb c.plane n && (ltb c.x width && ltb c.y height)

stored-append : (c : Cell) (xs ys : List Cell) → stored c (xs ++ ys) ≡ (stored c xs || stored c ys)
stored-append c [] ys = refl
stored-append c (d ∷ xs) ys = ground (arith, stored-append c xs ys)

stored-cells :
    (c : Cell) (n x y : ℕ) → stored c (cells n x y) ≡ (ltb c.plane n && ((c.x == x) && (c.y == y)))
unfolding cells
stored-cells c zero x y = ground arith
stored-cells c (suc n) x y =
    ground (arith, stored-append c (cells n x y) (cell n x y ∷ []), stored-cells c n x y)

module _ (c : Cell) (p w h : ℕ) where
  stored-thread :
      (x y : ℕ) → stored c (thread p w h x y) ≡ (in_image p w h c && ((c.x == x) && (c.y == y)))
  unfolding thread
  stored-thread x y = ground (arith, stored-cells c p x y)

  stored-row :
      (n y : ℕ)
      → stored c (threads_in_row (thread p w h) n y)
        ≡ (in_image p w h c && (ltb c.x n && (c.y == y)))
  unfolding threads_in_row
  stored-row zero y = ground arith
  stored-row (suc n) y = ground (
    arith,
    stored-append c (threads_in_row (thread p w h) n y) (thread p w h n y),
    stored-row n y,
    stored-thread n y,
  )

  stored-threads :
      (columns rows : ℕ)
      → stored c (threads_in (thread p w h) columns rows)
        ≡ (in_image p w h c && (ltb c.x columns && ltb c.y rows))
  unfolding threads_in
  stored-threads columns zero = ground arith
  stored-threads columns (suc n) = ground (
    arith,
    stored-append c (threads_in (thread p w h) columns n) (threads_in_row (thread p w h) columns n),
    stored-threads columns n,
    stored-row columns n,
  )

  -- The blocks reach over the image.
  stored-launch : stored c (launch p w h) ≡ in_image p w h c
  unfolding launch
  stored-launch = ground (arith, stored-threads (in_blocks w) (in_blocks h))

same_cell_self : (c : Cell) → same_cell c c ≡ true
same_cell_self c = ground arith

all_valid_of :
    (valid : Cell → Bool) (cs : List Cell)
    → ((c : Cell) → stored c cs ≡ true → valid c ≡ true)
    → all_valid valid cs ≡ true
all_valid_of valid [] h = refl
all_valid_of valid (c ∷ cs) h = ground (
  arith,
  h c (ground (arith, same_cell_self c)),
  all_valid_of valid cs (λ d s. h d (ground (arith, s))),
)

-- A launch in any order, each byte stored once or more often.
pub launch_right :
    (n w h : ℕ) (to from : Cell → ℕ) (cs : List Cell) (m : ℕ → ℕ) (c : Cell)
    → ((c d : Cell) → in_image n w h c ≡ true → in_image n w h d ≡ true → to c ≡ to d → c ≡ d)
    → ((c d : Cell) → in_image n w h c ≡ true → in_image n w h d ≡ true → to c ≢ from d)
    → ((d : Cell) → stored d cs ≡ stored d (launch n w h))
    → in_image n w h c ≡ true
    → run_stores to from cs m (to c) ≡ m (from c)
launch_right n w h to from cs m c apart clear same v =
    run_stores-right (in_image n w h) to from apart clear cs m c
      (all_valid_of (in_image n w h) cs (λ d s. sym (stored-launch d n w h) ∙ sym (same d) ∙ s)) v
      (same c ∙ stored-launch c n w h ∙ v)
