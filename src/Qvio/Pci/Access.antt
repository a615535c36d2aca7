-- ===== src/Qvio/Pci/Access.antt =====
-- On the file operations of the BAR in modules/qvio/pci_device.c.
use v4l2_tuto.Prelude.{
  ℕ, zero, suc, ◌+◌, ◌*◌, ◌-◌, ◌%◌, ◌/◌, ◌^◌, ◌<◌, ◌≤◌, ◌≡◌, ◌≢◌, ◌⊎◌, true, Option, none, some,
  arith, List, [], ◌∷◌, length, refl, bit_and_three,
}
use v4l2_tuto.Kernel.{Ret, neg, value, einval, success}
use v4l2_tuto.Qvio.Pci.{Bar, file_read, file_write, Area, file_mmap}

-- An area that the kernel can ask for, of a BAR of `length` bytes.
pub record IsArea (length : ℕ) (a : Area) : Type 0 where
  pub start : a.bar_start + length ≤ 2 ^ 64
  pub last : a.bar_end + 1 ≡ a.bar_start + length
  pub short : length < 2 ^ 64
  pub ends : a.vm_end < 2 ^ 64
  pub order : a.vm_start ≤ a.vm_end
  pub pages : a.vm_pgoff < 2 ^ 52

-- What `__file_mmap` accepts of an area that the kernel can ask for, where the remapping succeeds: an area
-- within the BAR, of which it maps all the pages from the offset on; and one that starts beyond the end of
-- the BAR and reaches no further than 2^64 bytes past that end, for there the subtraction wraps around. Any
-- other area is refused with `-EINVAL`.
pub file_mmap-bounds :
    (length : ℕ) (a : Area)
    → IsArea length a
    → ((((a.vm_pgoff * 4096 + (a.vm_end - a.vm_start) ≤ length))
          ⊎ ((length < a.vm_pgoff * 4096)
              × (a.vm_end - a.vm_start + a.vm_pgoff * 4096 ≤ 2 ^ 64 + length)))
        × (file_mmap success a ≡ (
          some (record {
            pfn = (a.bar_start + a.vm_pgoff * 4096) % 2 ^ 64 / 4096;
            size = a.vm_end - a.vm_start;
          }),
          success,
        )))
      ⊎ ((length < a.vm_pgoff * 4096 + (a.vm_end - a.vm_start))
          × ((a.vm_pgoff * 4096 ≤ length)
              ⊎ (2 ^ 64 + length < a.vm_end - a.vm_start + a.vm_pgoff * 4096))
          × (file_mmap success a ≡ (none, neg einval)))
unfolding file_mmap
file_mmap-bounds length a h = ground arith

-- A device memory that keeps what is written, as memory does: a read changes nothing, gives what was written
-- last at its offset, and is not touched by writes at other offsets.
pub record IsMemory {M : Type 0} (bar : Bar M) : Type 0 where
  pub read_silent : (a : ℕ) (m : M) → (bar.ioread32 a m).1 ≡ m
  pub read_same : (a w : ℕ) (m : M) → (bar.ioread32 a (bar.iowrite32 w a m)).0 ≡ w
  pub read_other :
      (a b w : ℕ) (m : M) → a ≢ b → (bar.ioread32 a (bar.iowrite32 w b m)).0 ≡ (bar.ioread32 a m).0

module _ {M : Type 0} (bar : Bar M) where
  -- A program that writes words one after the other, and one that reads them: the results, with the words.
  abbrev pub write_all : List ℕ → (count pos : ℕ) → M → M
  unfolding file_write
  write_all [] count pos m = m
  write_all (w ∷ ws) count pos m =
      let t = file_write bar w count pos m in write_all ws count t.pos t.device

  abbrev pub read_all : (words count pos : ℕ) → M → List (Ret × Option ℕ)
  unfolding file_read
  read_all zero count pos m = []
  read_all (suc n) count pos m =
      let t = file_read bar true count pos m in (t.result, t.user) ∷ read_all n count t.pos t.device

  abbrev pub all_read : List ℕ → List (Ret × Option ℕ)
  all_read [] = []
  all_read (w ∷ ws) = (value 4, some w) ∷ all_read ws

  module _ (mem : IsMemory bar) where
    file_write-aligned :
        (w count pos : ℕ) (m : M)
        → pos % 4 ≡ 0
        → file_write bar w count pos m
          ≡ record { result = value 4; pos = pos + 4; device = bar.iowrite32 w pos m; user = none }
    unfolding file_write
    file_write-aligned w count pos m h = ground (arith, bit_and_three pos)

    file_read-aligned :
        (count pos : ℕ) (m : M)
        → pos % 4 ≡ 0
        → file_read bar true count pos m ≡ record {
          result = value 4;
          pos = pos + 4;
          device = m;
          user = some (bar.ioread32 pos m).0;
        }
    unfolding file_read
    file_read-aligned count pos m h = ground (arith, bit_and_three pos, mem.read_silent pos m)

    read-write_all :
        (ws : List ℕ) (a count pos : ℕ) (m : M)
        → a < pos
        → pos % 4 ≡ 0
        → (bar.ioread32 a (write_all ws count pos m)).0 ≡ (bar.ioread32 a m).0
    unfolding write_all
    read-write_all [] a count pos m h al = refl
    read-write_all (w ∷ ws) a count pos m h al = rw (
      file_write-aligned w count pos m al,
      read-write_all ws a count (pos + 4) (bar.iowrite32 w pos m) (omega arith) (omega arith),
      mem.read_other a pos w m (omega arith),
    )

    -- A program that writes a list of words to the BAR, one after the other from an aligned position, and then
    -- reads as many words from there, gets those words back, each with the result 4, if the registers keep
    -- what is written. The two counts it passes play no part.
    pub read_all-write_all :
        (ws : List ℕ) (count count' pos : ℕ) (m : M)
        → pos % 4 ≡ 0
        → read_all (length ws) count' pos (write_all ws count pos m) ≡ all_read ws
    unfolding write_all read_all
    read_all-write_all [] count count' pos m al = refl
    read_all-write_all (w ∷ ws) count count' pos m al = rw (
      file_write-aligned w count pos m al,
      file_read-aligned count' pos (write_all ws count (pos + 4) (bar.iowrite32 w pos m)) al,
      read-write_all ws pos count (pos + 4) (bar.iowrite32 w pos m) (omega arith) (omega arith),
      mem.read_same pos w m,
      read_all-write_all ws count count' (pos + 4) (bar.iowrite32 w pos m) (omega arith),
    )
