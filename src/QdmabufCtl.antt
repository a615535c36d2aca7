-- ===== src/QdmabufCtl.antt =====
-- samples/02_qdmabuf-ctl/main.cpp: a program that allocates four buffers from the vmalloc exporter of qdmabuf, asks
-- the driver to print them, and maps and unmaps them. The parts for the other exporters are switched
-- off, that for NvBufSurface stands behind a build option, and both are left out. What the
-- calls return is an argument.
pub mod Mappings
use v4l2_tuto.Prelude.{
  ℕ, zero, suc, ◌+◌, Bool, true, false, ◌==◌, Option, none, some, List, [], ◌∷◌, ◌++◌,
  if◌then◌else◌, update,
}
use v4l2_tuto.DeferredTasks.{flush}

-- The arrays `fd_dma_buf_vmalloc` and `dma_buf_mmap_addr`, `none` where nothing was stored, and what was done: the
-- descriptors that were given and closed, what was asked for, mapped and unmapped.
pub record Session : Type 0 where
  pub fds : ℕ → Option ℕ
  pub addresses : ℕ → Option ℕ
  pub given : List ℕ
  pub asked : List (Option ℕ)
  pub mapped : List ℕ
  pub unmapped : List (Option ℕ)
  pub closed : List ℕ

-- The program's state with its `oFreeStack`.
pub record Program : Type 0 where
  pub session : Session
  pub free_stack : List (Session → Session)

-- What the calls for each of the buffers return: the descriptor of an allocation, whether the information is given,
-- and the address of a mapping.
pub record Calls : Type 0 where
  pub opened : Option ℕ
  pub alloc : ℕ → Option ℕ
  pub info : ℕ → Bool
  pub mmap : ℕ → Option ℕ

abbrev pub close : ℕ → Session → Session
close fd s = record s { closed = s.closed ++ fd ∷ [] }

-- A descriptor with the closure that closes it; the closure reads the array when it runs.
abbrev pub close_entry : ℕ → Session → Session
close_entry i s = elim (s.fds i) [ none ↦ s | some fd ↦ close fd s ]

abbrev pub give : ℕ → ℕ → Program → Program
give i fd p = record {
  session = record (p.session) {
    fds = update p.session.fds i (some fd);
    given = p.session.given ++ fd ∷ [];
  };
  free_stack = close_entry i ∷ p.free_stack;
}

-- The loop over `QDMABUF_IOCTL_ALLOC` from `i` on; a failure, which is negative, ends the program.
unfoldable pub alloc_loop : Calls → (n i : ℕ) → Program → Program × Bool
alloc_loop c zero i p = (p, true)
alloc_loop c (suc n) i p = elim (c.alloc i) [
  | none ↦ (p, false)
  | some fd ↦ alloc_loop c n (suc i) (give i fd p)
]

-- The loop over `QDMABUF_IOCTL_INFO`; a failure ends it.
unfoldable pub info_loop : Calls → (n i : ℕ) → Session → Session
info_loop c zero i s = s
info_loop c (suc n) i s =
    let s' : Session = record s { asked = s.asked ++ s.fds i ∷ [] } in
    let rest = info_loop c n (suc i) s' in if c.info i then rest else s'

-- The loop over `mmap`; a failure, which is a positive `errno`, ends it and nothing else.
unfoldable pub map_loop : Calls → (n i : ℕ) → Session → Session
map_loop c zero i s = s
map_loop c (suc n) i s = elim (c.mmap i) [
  | none ↦ s
  | some a ↦
      map_loop c n (suc i)
        (record s { addresses = update s.addresses i (some a); mapped = s.mapped ++ a ∷ [] })
]

-- The loop over `munmap`.
unfoldable pub unmap_loop : (n i : ℕ) → Session → Session
unmap_loop zero i s = s
unmap_loop (suc n) i s =
    unmap_loop n (suc i) (record s { unmapped = s.unmapped ++ s.addresses i ∷ [] })

finish_alloc : Calls → Program × Bool → Session
unfolding flush info_loop map_loop unmap_loop
finish_alloc c (p, false) = flush p.free_stack p.session
finish_alloc c (p, true) =
    flush p.free_stack (unmap_loop 4 0 (map_loop c 4 0 (info_loop c 4 0 p.session)))

abbrev pub empty : Session
empty = record {
  fds = λ i. none;
  addresses = λ i. none;
  given = [];
  asked = [];
  mapped = [];
  unmapped = [];
  closed = [];
}

-- `App::Run`.
unfoldable pub run : Calls → Session
unfolding alloc_loop finish_alloc
run c = elim c.opened [
  | none ↦ empty
  | some fd ↦ finish_alloc c (
      alloc_loop c 4 0
        (record { session = record empty { given = fd ∷ [] }; free_stack = close fd ∷ [] }))
]
