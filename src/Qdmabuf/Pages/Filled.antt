-- ===== src/Qdmabuf/Pages/Filled.antt =====
-- On `exp_dma_sg_alloc_compacted` of modules/qdmabuf/dmabuf_exp_dma_sg.c: how its loops end.
use v4l2_tuto.Prelude.{
  subst, ==-false_of_lt, ==_iff, ap, ltb-false_of_le, ℕ, zero, suc, ◌+◌, ◌-◌, ◌*◌, ◌^◌, ◌%◌, ◌≤◌,
  ◌<◌, ◌≡◌, ◌⊎◌, inl, inr, refl, false, ◌==◌, ltb, leb, ◌||◌, Option, none, some, List, [], ◌++◌,
  if◌then◌else◌, reverse, length, length-append, arith, Bool-cases, Option-cases,
}
use native.Mathlib.Nat.{
  zero-add, mul-le-mul_right, le_of_lt, le_refl, pow-le-pow_right, le_of_mul-le-mul_left,
  one-le-pow, mul-le-mul_left,
}
use v4l2_tuto.Qdmabuf.Pages.{
  Paging, Allocator, block, Found, found, exhausted, find_block, Outcome, filled, failed, bad_order,
  overflow, out_of_fuel, first_order, fill_loop, alloc_compacted,
}

length-block : (first count : ℕ) → length (block first count) ≡ count
unfolding block
length-block first zero = refl
length-block first (suc count) = omega (arith, length-block (first + 1) count)

-- A block is never larger than the order that the search began with.
abbrev AtMost : ℕ → Found → Type 0
AtMost n (found calls order first) = order ≤ n
AtMost n (exhausted calls) = Unit {0}

AtMost-suc : (n : ℕ) (r : Found) → AtMost n r → AtMost (suc n) r
AtMost-suc n (found calls order first) h = omega arith
AtMost-suc n (exhausted calls) h = tt

find_block-AtMost : (alloc : Allocator) (calls n : ℕ) → AtMost n (find_block alloc calls n)
unfolding find_block
find_block-AtMost alloc calls zero = elim (Option-cases (alloc calls 0)) [
  | inl e ↦ rw (e, find_block) tt
  | inr (x, e) ↦ rw (e, find_block) (le_refl 0)
]
find_block-AtMost alloc calls (suc n) = elim (Option-cases (alloc calls (suc n))) [
  | inl e ↦ rw (e, find_block) (AtMost-suc n _ (find_block-AtMost alloc (calls + 1) n))
  | inr (x, e) ↦ rw (e, find_block) (le_refl (suc n))
]

-- How the loop may end for a buffer of `n` pages.
abbrev pub Ends : ℕ → Outcome → Type 0
Ends n (filled pages) = length pages ≡ n
Ends n (failed pages freed) = (freed ≡ reverse pages) × (length pages < n)
Ends n bad_order = ⊥
Ends n overflow = ⊥
Ends n out_of_fuel = ⊥

Found-cases :
    (r : Found)
    → ((calls : ℕ) × (r ≡ exhausted calls))
      ⊎ ((calls : ℕ) × (order : ℕ) × (first : ℕ) × (r ≡ found calls order first))
Found-cases (exhausted calls) = inl (calls, refl)
Found-cases (found calls order first) = inr (calls, order, first, refl)

-- A block of at most `k` pages, fewer than 2^31 with those before it, keeps to the source's types.
in_int :
    (order before k : ℕ)
    → 2 ^ order ≤ k
    → before + k < 2 ^ 31
    → (leb 31 order || leb (2 ^ 32) (before + 2 ^ order)) ≡ false
in_int order before k fits few = elim (Bool-cases (leb 31 order)) [
  | inl e ↦ absurd (
      omega (
        arith,
        few,
        fits,
        pow-le-pow_right {n = 2} (omega arith) {i = 31} {j = order} (ground (arith, e)),
      ))
  | inr e ↦ ground (arith, e, few, fits)
]

module _ (p : Paging) where
  open p use {page_size, page_size_pos, get_order, get_order-ge, get_order_least}

  -- The first block that is asked for fits into what is left, if that is a positive number of pages.
  abbrev Fits : ℕ → Option ℕ → Type 0
  Fits size none = ⊥
  Fits size (some order) = page_size * 2 ^ order ≤ size

  Fits-case :
      (size g : ℕ)
      → page_size ≤ size
      → ((n : ℕ) → n < g → page_size * 2 ^ n < size)
      → Fits size (
          if ltb size (page_size * 2 ^ g)
          then elim g [ zero ↦ none | suc order ↦ some order ]
          else some g)
  Fits-case size zero one least =
      rw (ltb-false_of_le size (page_size * 2 ^ 0) (omega arith)) (omega arith)
  Fits-case size (suc g) one least = elim (Bool-cases (ltb size (page_size * 2 ^ suc g))) [
    | inl e ↦ rw e (le_of_lt (least g (le_refl (suc g))))
    | inr e ↦ rw e (ground arith)
  ]

  first_order-Fits : (size k : ℕ) → size ≡ page_size * suc k → Fits size (first_order p size)
  unfolding first_order
  first_order-Fits size k e =
      let one : page_size ≤ size = omega arith in
      Fits-case size (get_order size) one (λ n h. get_order_least size n (omega arith) h)

  -- After a block of an order that fits, the pages left are a whole number again.
  left_over :
      (size k order start : ℕ)
      → size ≡ page_size * suc k
      → size < 2 ^ 64
      → page_size * 2 ^ start ≤ size
      → order ≤ start
      → (2 ^ order ≤ suc k)
        × (1 ≤ 2 ^ order)
        × ((size + 2 ^ 64 - page_size * 2 ^ order) % 2 ^ 64 ≡ page_size * (suc k - 2 ^ order))
  left_over size k order start e small fits le =
      let below : page_size * 2 ^ order ≤ page_size * 2 ^ start =
        mul-le-mul_left page_size (pow-le-pow_right (omega arith) le) in
      let few : 2 ^ order ≤ suc k =
        le_of_mul-le-mul_left (omega (arith, below, fits, e)) page_size_pos in
      let split : suc k ≡ 2 ^ order + (suc k - 2 ^ order) = omega (arith, few) in
      (
        few,
        one-le-pow order 2 (omega arith),
        omega (arith, below, fits, e, small, ap (λ (t : ℕ). page_size * t) split),
      )

  nonzero_size : {size : ℕ} (k : ℕ) → size ≡ page_size * suc k → (size == 0) ≡ false
  nonzero_size {size} k e = ==-false_of_lt size (omega arith)

  fill_loop-Ends :
      (fuel : ℕ) (alloc : Allocator) (size calls : ℕ) (pages : List ℕ) (k : ℕ)
      → size ≡ page_size * k
      → size < 2 ^ 64
      → k < fuel
      → length pages + k < 2 ^ 31
      → Ends (length pages + k) (fill_loop p fuel alloc size calls pages)
  unfolding fill_loop
  fill_loop-Ends zero alloc size calls pages k e small h few = absurd (omega arith)
  fill_loop-Ends (suc fuel) alloc size calls pages zero e small h few =
      rw ((==_iff size 0).1 (omega arith), fill_loop) (omega arith)
  fill_loop-Ends (suc fuel) alloc size calls pages (suc k) e small h few =
      let nonzero : (size == 0) ≡ false = nonzero_size k e in
      elim (Option-cases (first_order p size)) [
        | inl e0 ↦ absurd (rw e0 at (first_order-Fits size k e))
        | inr (start, e0) ↦
            let fits : page_size * 2 ^ start ≤ size = rw e0 at (first_order-Fits size k e) in
            elim (Found-cases (find_block alloc calls start)) [
              | inl (calls', e1) ↦
                  rw (nonzero, fill_loop)
                    (rw (e0, fill_loop) (rw (e1, fill_loop) (refl, omega arith)))
              | inr (calls', order, first, e1) ↦
                  let left =
                    left_over size k order start e small fits
                      (rw e1 at (find_block-AtMost alloc calls start)) in
                  let size' : ℕ = (size + 2 ^ 64 - page_size * 2 ^ order) % 2 ^ 64 in
                  let pages' : List ℕ = pages ++ block first (2 ^ order) in
                  let eq : length pages' + (suc k - 2 ^ order) ≡ length pages + suc k = omega (
                    arith,
                    length-append pages (block first (2 ^ order)),
                    length-block first (2 ^ order),
                    left.0,
                  ) in
                  rw (nonzero, fill_loop)
                    (rw (e0, fill_loop)
                      (rw (e1, fill_loop, in_int order (length pages) (suc k) left.0 few)
                        (subst (λ n. Ends n (fill_loop p fuel alloc size' calls' pages')) eq
                          (fill_loop-Ends fuel alloc size' calls' pages' (suc k - 2 ^ order) left.2
                            (omega arith) (omega (arith, left.0, left.1))
                            (omega (arith, eq, few))))))
            ]
      ]
      -- Allocating a buffer of a whole number of pages, fewer than 2^31, whose size `unsigned long` can hold, always

  pub alloc_compacted-Ends :
      (alloc : Allocator) (k : ℕ)
      → page_size * k < 2 ^ 64
      → k < 2 ^ 31
      → Ends k (alloc_compacted p alloc (page_size * k))
  unfolding alloc_compacted
  alloc_compacted-Ends alloc k small few =
      subst (λ n. Ends n (fill_loop p (page_size * k + 1) alloc (page_size * k) 0 [])) (zero-add k)
        (fill_loop-Ends (page_size * k + 1) alloc (page_size * k) 0 [] k refl small
          (omega (arith, mul-le-mul_right k page_size_pos)) (omega (arith, few)))
