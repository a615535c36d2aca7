-- ===== src/V4lCtl/Kept.antt =====
-- On the calls of samples/01_v4l-ctl/main.cpp: each keeps the stack of closures in step with what was taken.
use v4l2_tuto.Prelude.{
  ℕ, zero, suc, ◌≡◌, refl, sym, ap, subst, ◌∙◌, Option, none, some, List, [], ◌∷◌, ◌++◌, reverse,
  append-snoc, arith, Option-cases, Bool-cases, inl, inr,
}
use mathlib.Core.List.{reverse-append}
use v4l2_tuto.DeferredTasks.{flush}
use v4l2_tuto.V4lCtl.{
  World, App, Resource, device, dma_buf, mapped, Mapping, Request, querybuf, expbuf, qbuf, request,
  free, take, close_device, BufferCalls, buffers, open_device, open_vid_rx, query_bufs, add_mapping,
  map_bufs, with_mbuffers, vid_mmap, add_dma_buf, exp_bufs, with_dma_bufs, vid_exp_bufs, q_bufs,
}

-- A stack of closures gives back exactly `xs`, the first first, while `nVidFd` is `fd`.
unfoldable pub Unwinds : List (World → World) → Option ℕ → List Resource → Type 0
Unwinds fs fd xs =
    (w : World)
    → w.vid_fd ≡ fd
    → ((flush fs w).freed ≡ w.freed ++ xs) × ((flush fs w).taken ≡ w.taken)

-- The program has taken `xs`, the first last, has given nothing back, and its stack gives back that.
pub record Holds (xs : List Resource) (a : App) : Type 0 where
  pub unwinds : Unwinds a.free_stack a.world.vid_fd xs
  pub taken : a.world.taken ≡ reverse xs
  pub freed : a.world.freed ≡ []

abbrev pub IsHeld : App → Type 0
IsHeld a = (xs : List Resource) × Holds xs a

reverse-cons : (xs : List Resource) (r : Resource) → reverse (r ∷ xs) ≡ reverse xs ++ r ∷ []
reverse-cons xs r = reverse-append (r ∷ []) xs

take-Holds :
    (xs : List Resource) (r : Resource) (a : App) → Holds xs a → Holds (r ∷ xs) (take r (free r) a)
unfolding Unwinds flush
take-Holds xs r a h = record {
  unwinds = λ w e. let (f, t) = h.unwinds (free r w) e in (f ∙ append-snoc w.freed r xs, t);
  taken = ap (λ l. l ++ r ∷ []) h.taken ∙ sym (reverse-cons xs r);
  freed = h.freed;
}

close_opened :
    (w : World) (fd : ℕ)
    → w.vid_fd ≡ some fd
    → close_device w ≡ record w { freed = w.freed ++ device fd ∷ []; vid_fd = none }
close_opened w fd e = ground (arith, e)

close-Unwinds :
    (fs : List (World → World)) (fd : ℕ) (xs : List Resource)
    → Unwinds fs none xs
    → Unwinds (close_device ∷ fs) (some fd) (device fd ∷ xs)
unfolding Unwinds flush
close-Unwinds fs fd xs u w e =
    let (f, t) = u (record w { freed = w.freed ++ device fd ∷ []; vid_fd = none }) refl in
    subst (λ v. ((flush fs v).freed ≡ w.freed ++ device fd ∷ xs) × ((flush fs v).taken ≡ w.taken))
      (sym (close_opened w fd e)) (f ∙ append-snoc w.freed (device fd) xs, t)

open_device-IsHeld :
    (opened : Option ℕ) (a : App) → a.world.vid_fd ≡ none → IsHeld a → IsHeld (open_device opened a)
unfolding open_device
open_device-IsHeld none a e h = h
open_device-IsHeld (some fd) a e (xs, h) = (
  device fd ∷ xs,
  record {
    unwinds = close-Unwinds a.free_stack fd xs (subst (λ v. Unwinds a.free_stack v xs) e h.unwinds);
    taken = ap (λ l. l ++ device fd ∷ []) h.taken ∙ sym (reverse-cons xs (device fd));
    freed = h.freed;
  },
)

pub open_vid_rx-IsHeld : (opened : Option ℕ) (a : App) → IsHeld a → IsHeld (open_vid_rx opened a)
unfolding open_vid_rx
open_vid_rx-IsHeld opened a h =
    (elim a.world.vid_fd
        as (λ v.
          a.world.vid_fd ≡ v → IsHeld (elim v [ none ↦ open_device opened a | some fd ↦ a ])) [
            | none ↦ λ e. open_device-IsHeld opened a e h
            | some fd ↦ λ e. h
          ])
      refl

pub request-IsHeld : (r : Request) (a : App) → IsHeld a → IsHeld (request r a)
request-IsHeld r a (xs, h) = (xs, record { unwinds = h.unwinds; taken = h.taken; freed = h.freed })

pub query_bufs-IsHeld :
    (c : ℕ → BufferCalls) (n i : ℕ) (a : App) → IsHeld a → IsHeld (query_bufs c n i a)
unfolding query_bufs
query_bufs-IsHeld c zero i a h = h
query_bufs-IsHeld c (suc n) i a h = elim (Bool-cases (c i).queried) [
  | inl e ↦ rw (e, query_bufs) (query_bufs-IsHeld c n (suc i) _ (request-IsHeld (querybuf i) a h))
  | inr e ↦ rw (e, query_bufs) (request-IsHeld (querybuf i) a h)
]

map_bufs-IsHeld : (c : ℕ → BufferCalls) (n i : ℕ) (a : App) → IsHeld a → IsHeld (map_bufs c n i a)
unfolding map_bufs
map_bufs-IsHeld c zero i a h = h
map_bufs-IsHeld c (suc n) i a h =
    let (xs, k) = request-IsHeld (querybuf i) a h in
    elim (Bool-cases (c i).queried) [
      | inr e ↦ rw (e, map_bufs) (xs, k)
      | inl e ↦ elim (Option-cases (c i).address) [
        | inl f ↦ rw (e, f, map_bufs) (xs, k)
        | inr (p, f) ↦
            let m : Mapping = record { vir_addr = p; length = (c i).length } in
            let k' = take-Holds xs (mapped m) _ k in
            rw (e, f, map_bufs)
              (map_bufs-IsHeld c n (suc i) (add_mapping m (request (querybuf i) a)) (
                mapped m ∷ xs,
                record { unwinds = k'.unwinds; taken = k'.taken; freed = k'.freed },
              ))
      ]
    ]

with_mbuffers-IsHeld :
    (c : ℕ → BufferCalls) (ms : List Mapping) (a : App) → IsHeld a → IsHeld (with_mbuffers ms c a)
unfolding with_mbuffers
with_mbuffers-IsHeld c [] a h = map_bufs-IsHeld c buffers 0 a h
with_mbuffers-IsHeld c (m ∷ ms) a h = h

exp_bufs-IsHeld : (c : ℕ → BufferCalls) (n i : ℕ) (a : App) → IsHeld a → IsHeld (exp_bufs c n i a)
unfolding exp_bufs
exp_bufs-IsHeld c zero i a h = h
exp_bufs-IsHeld c (suc n) i a h =
    let b : App = request (expbuf i) (request (querybuf i) a) in
    let (xs, k) =
      request-IsHeld (expbuf i) (request (querybuf i) a) (request-IsHeld (querybuf i) a h) in
    elim (Bool-cases (c i).queried) [
      | inr e ↦ rw (e, exp_bufs) (request-IsHeld (querybuf i) a h)
      | inl e ↦ elim (Option-cases (c i).exported) [
        | inl f ↦ rw (e, f, exp_bufs) (xs, k)
        | inr (fd, f) ↦
            let k' = take-Holds xs (dma_buf fd) b k in
            rw (e, f, exp_bufs)
              (exp_bufs-IsHeld c n (suc i) (add_dma_buf fd b) (
                dma_buf fd ∷ xs,
                record { unwinds = k'.unwinds; taken = k'.taken; freed = k'.freed },
              ))
      ]
    ]

with_dma_bufs-IsHeld :
    (c : ℕ → BufferCalls) (ds : List ℕ) (a : App) → IsHeld a → IsHeld (with_dma_bufs ds c a)
unfolding with_dma_bufs
with_dma_bufs-IsHeld c [] a h = exp_bufs-IsHeld c buffers 0 a h
with_dma_bufs-IsHeld c (d ∷ ds) a h = h

pub q_bufs-IsHeld : (c : ℕ → BufferCalls) (n i : ℕ) (a : App) → IsHeld a → IsHeld (q_bufs c n i a)
unfolding q_bufs
q_bufs-IsHeld c zero i a h = h
q_bufs-IsHeld c (suc n) i a h =
    let b : App = request (qbuf i) (request (querybuf i) a) in
    let k = request-IsHeld (qbuf i) (request (querybuf i) a) (request-IsHeld (querybuf i) a h) in
    elim (Bool-cases (c i).queried) [
      | inr e ↦ rw (e, q_bufs) (request-IsHeld (querybuf i) a h)
      | inl e ↦ elim (Bool-cases (c i).queued) [
        | inl f ↦ rw (e, f, q_bufs) (q_bufs-IsHeld c n (suc i) b k)
        | inr f ↦ rw (e, f, q_bufs) k
      ]
    ]

pub vid_mmap-IsHeld : (c : ℕ → BufferCalls) (a : App) → IsHeld a → IsHeld (vid_mmap c a)
unfolding vid_mmap
vid_mmap-IsHeld c a h = with_mbuffers-IsHeld c a.world.mbuffers a h

pub vid_exp_bufs-IsHeld : (c : ℕ → BufferCalls) (a : App) → IsHeld a → IsHeld (vid_exp_bufs c a)
unfolding vid_exp_bufs
vid_exp_bufs-IsHeld c a h = with_dma_bufs-IsHeld c a.world.dma_bufs a h
