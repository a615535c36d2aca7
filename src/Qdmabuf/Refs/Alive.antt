-- ===== src/Qdmabuf/Refs/Alive.antt =====
-- On the reference count of the buffers of modules/qdmabuf: the life of a buffer.
use v4l2_tuto.Prelude.{
  ℕ, zero, suc, ◌+◌, ◌-◌, ◌<◌, ◌≡◌, refl, ap, ◌∙◌, Bool-cases, inl, inr, Bool, true, false, Option,
  none, some, if◌then◌else◌, arith,
}
use v4l2_tuto.Kernel.{Ret, is_set}
use v4l2_tuto.Qdmabuf.Ledger.{Ledger, nothing, take, memory, buffer}
use v4l2_tuto.Qdmabuf.Export.Outcomes.{sg_held, contig_held}
use v4l2_tuto.Qdmabuf.Refs.{
  Exporter, dma_sg, dma_contig, vmalloc, Shared, buffer_put, vm_open, vm_close, dma_buf_release,
  mmap,
}

-- What a finished buffer holds.
abbrev pub full : Exporter → Ledger
full dma_sg = sg_held
full dma_contig = contig_held
full vmalloc = take memory (take buffer nothing)

-- The buffer, or `none` after a fault; whether the dma-buf is still there; the mappings.
pub record World : Type 0 where
  pub shared : Option Shared
  pub exported : Bool
  pub mappings : ℕ

pub and_then : Option Shared → (Shared → Option Shared) → Option Shared
and_then none f = none
and_then (some s) f = f s

unfoldable pub fresh : Exporter → World
fresh k = record {
  shared = some (record { refcount = 1; held = full k });
  exported = true;
  mappings = 0;
}

unfoldable pub maps : Ret → World → World
unfolding and_then mmap
maps mapped w = record w {
  shared = and_then w.shared (λ s. (mmap mapped s).0);
  mappings = if is_set mapped then w.mappings else w.mappings + 1;
}

unfoldable pub opens : World → World
unfolding and_then vm_open
opens w = record w { shared = and_then w.shared vm_open; mappings = w.mappings + 1 }

unfoldable pub closes : Exporter → World → World
unfolding and_then vm_close
closes k w = record w { shared = and_then w.shared (vm_close k); mappings = w.mappings - 1 }

unfoldable pub releases : Exporter → World → World
unfolding and_then dma_buf_release
releases k w = record w { shared = and_then w.shared (dma_buf_release k); exported = false }

-- The histories of a buffer: a dma-buf that is there can be mapped and released, a mapping can be copied
-- and closed.
pub data Reach (k : Exporter) : World → Type 0 where
  starts : Reach k (fresh k)
  after_mmap : (w : World) (mapped : Ret) → Reach k w → w.exported ≡ true → Reach k (maps mapped w)
  after_open : (w : World) → Reach k w → 0 < w.mappings → Reach k (opens w)
  after_close : (w : World) → Reach k w → 0 < w.mappings → Reach k (closes k w)
  after_release : (w : World) → Reach k w → w.exported ≡ true → Reach k (releases k w)

abbrev pub users : World → ℕ
users w = (if w.exported then 1 else 0) + w.mappings

-- A buffer with `n` references.
abbrev pub with_users : Exporter → ℕ → Shared
with_users k n = record { refcount = n; held = elim n [ zero ↦ nothing | suc m ↦ full k ] }

abbrev pub Alive : Exporter → World → Type 0
Alive k w = w.shared ≡ some (with_users k (users w))

same_users :
    (k : Exporter) (m n : ℕ)
    → m ≡ n
    → Path (Option Shared) (some (with_users k m)) (some (with_users k n))
same_users k m n e = ap (λ i. some (with_users k i)) e

vm_open-with_users :
    (k : Exporter) (n : ℕ) → 0 < n → vm_open (with_users k n) ≡ some (with_users k (n + 1))
unfolding vm_open
vm_open-with_users k zero h = absurd (omega arith)
vm_open-with_users k (suc n) h = same_users k (suc (suc n)) (suc n + 1) (omega arith)

last_put-full : (k : Exporter) → buffer_put k (with_users k 1) ≡ some (with_users k 0)
unfolding buffer_put
last_put-full dma_sg = refl
last_put-full dma_contig = refl
last_put-full vmalloc = refl

buffer_put-with_users :
    (k : Exporter) (n : ℕ) → 0 < n → buffer_put k (with_users k n) ≡ some (with_users k (n - 1))
unfolding buffer_put
buffer_put-with_users k zero h = absurd (omega arith)
buffer_put-with_users k (suc zero) h = last_put-full k
buffer_put-with_users k (suc (suc n)) h = same_users k (suc n) (suc (suc n) - 1) (omega arith)

-- What an operation does to the number of users, it does to the buffer.
and_then-Alive :
    (k : Exporter) (w w' : World) (f : Shared → Option Shared)
    → Alive k w
    → f (with_users k (users w)) ≡ some (with_users k (users w'))
    → w'.shared ≡ and_then w.shared f
    → Alive k w'
unfolding and_then
and_then-Alive k w w' f alive step e = e ∙ ap (λ o. and_then o f) alive ∙ step

maps-Alive :
    (k : Exporter) (w : World) (mapped : Ret)
    → Alive k w
    → w.exported ≡ true
    → Alive k (maps mapped w)
unfolding maps mmap
maps-Alive k w mapped alive e =
    and_then-Alive k w (maps mapped w) (λ s. (mmap mapped s).0) alive
      (elim (Bool-cases (is_set mapped)) [
        | inl bad ↦ rw bad refl
        | inr ok ↦
            rw ok (vm_open-with_users k (users w) (ground arith) ∙ same_users k _ _ (omega arith))
      ])
      refl

opens-Alive : (k : Exporter) (w : World) → Alive k w → 0 < w.mappings → Alive k (opens w)
unfolding opens
opens-Alive k w alive h =
    and_then-Alive k w (opens w) vm_open alive
      (vm_open-with_users k (users w) (omega arith) ∙ same_users k _ _ (omega arith)) refl

closes-Alive : (k : Exporter) (w : World) → Alive k w → 0 < w.mappings → Alive k (closes k w)
unfolding closes vm_close
closes-Alive k w alive h =
    and_then-Alive k w (closes k w) (vm_close k) alive
      (buffer_put-with_users k (users w) (omega arith) ∙ same_users k _ _ (omega arith)) refl

releases-Alive : (k : Exporter) (w : World) → Alive k w → w.exported ≡ true → Alive k (releases k w)
unfolding releases dma_buf_release
releases-Alive k w alive e =
    and_then-Alive k w (releases k w) (dma_buf_release k) alive
      (buffer_put-with_users k (users w) (ground arith) ∙ same_users k _ _ (ground arith)) refl

-- After any history, nothing was used after its end or freed twice, the reference count is the number of
-- users (the dma-buf and the mappings), and the buffer holds all its resources while there is a user and
-- none afterwards.
pub Reach-Alive : (k : Exporter) (w : World) → Reach k w → Alive k w
unfolding fresh
Reach-Alive k w starts = refl
Reach-Alive k w (after_mmap v mapped r e) = maps-Alive k v mapped (Reach-Alive k v r) e
Reach-Alive k w (after_open v r h) = opens-Alive k v (Reach-Alive k v r) h
Reach-Alive k w (after_close v r h) = closes-Alive k v (Reach-Alive k v r) h
Reach-Alive k w (after_release v r e) = releases-Alive k v (Reach-Alive k v r) e
