-- ===== src/Qdmabuf/Pages.antt =====
-- `exp_dma_sg_alloc_compacted` of modules/qdmabuf/dmabuf_exp_dma_sg.c: a buffer is filled with blocks of
-- pages, the largest that fit and that the allocator has. What the kernel provides (the size of a page,
-- `get_order`, `alloc_pages`) is an argument.
pub mod Filled
use v4l2_tuto.Prelude.{
  ℕ, zero, suc, ◌+◌, ◌-◌, ◌*◌, ◌^◌, ◌≤◌, ◌<◌, ◌≡◌, Bool, true, false, ◌==◌, ltb, leb, ◌||◌, length,
  Option, none, some, List, [], ◌∷◌, ◌++◌, ◌%◌, reverse, if◌then◌else◌,
}
use v4l2_tuto.Kernel.{Errno, enomem, Ret, neg, success}

-- `get_order(size)`: the least order whose block holds `size` bytes, for a size above 0.
pub record Paging : Type 0 where
  pub page_size : ℕ
  pub page_size_pos : 0 < page_size
  pub get_order : ℕ → ℕ
  pub get_order-ge : (size : ℕ) → 0 < size → size ≤ page_size * 2 ^ get_order size
  pub get_order_least : (size n : ℕ) → 0 < size → n < get_order size → page_size * 2 ^ n < size

-- A page is known by its frame number. What `alloc_pages` returns for an order may depend on the number
-- of calls before it.
abbrev pub Allocator : Type 0
Allocator = ℕ → ℕ → Option ℕ

-- The `count` pages of a block that starts at `first`, as the inner `for` stores them.
pub block : ℕ → ℕ → List ℕ
block first zero = []
block first (suc count) = first ∷ block (first + 1) count

-- What the loop `while (!pages)` ends with: the calls so far, and a block of some order or none.
pub data Found : Type 0 where
  found : (calls order first : ℕ) → Found
  exhausted : (calls : ℕ) → Found

-- The loop `while (!pages)`: it retries with the next smaller order, down to 0.
pub find_block : Allocator → ℕ → ℕ → Found
find_block alloc calls zero = elim (alloc calls 0) [
  | none ↦ exhausted (calls + 1)
  | some first ↦ found (calls + 1) 0 first
]
find_block alloc calls (suc order) = elim (alloc calls (suc order)) [
  | none ↦ find_block alloc (calls + 1) order
  | some first ↦ found (calls + 1) (suc order) first
]

-- How a call ends: with the pages in place; with the pages that it had got freed again in the order given; with
-- an order below 0 asked for; with `1 << order` beyond an `int` or `last_page` beyond an `unsigned int`;
-- or with the model's fuel at an end.
pub data Outcome : Type 0 where
  filled : (pages : List ℕ) → Outcome
  failed : (pages freed : List ℕ) → Outcome
  bad_order : Outcome
  overflow : Outcome
  out_of_fuel : Outcome

module _ (p : Paging) where
  open p use {page_size, get_order}

  -- The order that a round begins with: `get_order`, less one if that block is larger than what is left;
  -- `none` is 0 less one.
  unfoldable pub first_order : ℕ → Option ℕ
  first_order size =
      if ltb size (page_size * 2 ^ get_order size)
      then elim (get_order size) [ zero ↦ none | suc order ↦ some order ]
      else some (get_order size)

  -- The loop `while (size > 0)`; `size` is an `unsigned long`.
  pub fill_loop : ℕ → Allocator → (size calls : ℕ) → (pages : List ℕ) → Outcome
  fill_loop zero alloc size calls pages = out_of_fuel
  fill_loop (suc fuel) alloc size calls pages = elim (size == 0) [
    | true ↦ filled pages
    | false ↦ elim (first_order size) [
      | none ↦ bad_order
      | some start ↦ elim (find_block alloc calls start) [
        | exhausted calls' ↦ failed pages (reverse pages)
        | found calls' order first ↦
            let rest =
              fill_loop fuel alloc ((size + 2 ^ 64 - page_size * 2 ^ order) % 2 ^ 64) calls'
                (pages ++ block first (2 ^ order)) in
            if leb 31 order || leb (2 ^ 32) (length pages + 2 ^ order) then overflow else rest
      ]
    ]
  ]

  -- `exp_dma_sg_alloc_compacted` for a buffer of `size` bytes, with one round for each byte at most.
  unfoldable pub alloc_compacted : Allocator → (size : ℕ) → Outcome
  unfolding fill_loop first_order
  alloc_compacted alloc size = fill_loop (size + 1) alloc size 0 []
