-- ===== src/QvioCtl/Source/Stages.antt =====
-- On the steps of `VidSrc_Main` in samples/03_qvio-ctl/main.cpp before its loop: what each takes is on the stack.
use v4l2_tuto.Prelude.{
  ℕ, zero, suc, ◌+◌, ◌≡◌, ◌<◌, ◌≤◌, refl, ap, sym, ◌∙◌, Bool, true, false, none, some, List, [],
  ◌∷◌, ◌++◌, length, arith, Option-cases, Bool-cases, inl, inr, append_assoc, reverse,
}
use mathlib.Core.List.{reverse-cons}
use v4l2_tuto.QvioCtl.{Plane, zero_buffer, mapped_buffer, resize, set_elem, is_mapped}
use v4l2_tuto.QvioCtl.Table.{length-set_elem}
use v4l2_tuto.QvioCtl.Source.{
  World, Source, Resource, surface, egl_image, cu_resource, src_plane, scaled_plane, scaled1_plane,
  buffer, streaming, unmap_buffer, BufferCalls, SetupCalls, Stage, goes, breaks, returns, and_then,
  acquire, require, Mapped, next, done, quits, map_one, map_buffer, map_buffers, request_buffers,
  take_rest,
}
use v4l2_tuto.QvioCtl.Source.Unwind.{Unwinds, take-Unwinds, clear-Unwinds, unmap-Unwinds}

-- The thread has taken `xs`, the first last, given nothing back, and its stack gives back just that.
pub record Holds (w : World) (k : ℕ) (xs : List Resource) (s : Source) : Type 0 where
  pub unwinds : Unwinds k s.free_stack s.world.src_mbuffers xs
  pub taken : s.world.taken ≡ w.taken ++ reverse xs
  pub freed : s.world.freed ≡ w.freed
  pub broken : s.world.broken ≡ w.broken

snoc_taken :
    (ts xs : List Resource) (r : Resource) → (ts ++ reverse xs) ++ r ∷ [] ≡ ts ++ reverse (r ∷ xs)
snoc_taken ts xs r =
    append_assoc ts (reverse xs) (r ∷ []) ∙ ap (λ l. ts ++ l) (sym (reverse-cons r xs))

-- A stage whose thread goes on or leaves by the flush holds what it took; one that returns at once has taken
-- it and given nothing back.
unfoldable pub Fits : World → Stage → Type 0
Fits w (goes s) = (k : ℕ) × (xs : List Resource) × Holds w k xs s
Fits w (breaks s) = (k : ℕ) × (xs : List Resource) × Holds w k xs s
Fits w (returns s) =
    (xs : List Resource) × (s.world.taken ≡ w.taken ++ reverse xs)
    × (s.world.freed ≡ w.freed)
    × (s.world.broken ≡ w.broken)

acquire-Fits :
    (w : World) (ok : Bool) (r : Resource) (k : ℕ) (xs : List Resource) (s : Source)
    → Holds w k xs s
    → Fits w (acquire ok r s)
unfolding Fits
acquire-Fits w true r k xs s h = (
  k,
  r ∷ xs,
  record {
    unwinds = take-Unwinds k s.free_stack s.world.src_mbuffers xs r h.unwinds;
    taken = rw h.taken (snoc_taken w.taken xs r);
    freed = h.freed;
    broken = h.broken;
  },
)
acquire-Fits w false r k xs s h = (k, xs, h)

pub require-Fits :
    (w : World) (ok : Bool) (k : ℕ) (xs : List Resource) (s : Source)
    → Holds w k xs s
    → Fits w (require ok s)
unfolding Fits
require-Fits w true k xs s h = (k, xs, h)
require-Fits w false k xs s h = (k, xs, h)

pub then-Fits :
    (w : World) (t : Stage) (f : Source → Stage)
    → Fits w t
    → ((k : ℕ) (xs : List Resource) (s : Source) → Holds w k xs s → Fits w (f s))
    → Fits w (and_then t f)
unfolding Fits
then-Fits w (goes s) f (k, xs, h) g = g k xs s h
then-Fits w (breaks s) f h g = h
then-Fits w (returns s) f h g = h

pub take_rest-Fits :
    (w : World) (c : SetupCalls) (k : ℕ) (xs : List Resource) (s : Source)
    → Holds w k xs s
    → Fits w (take_rest c s)
unfolding take_rest
take_rest-Fits w c k xs s h =
    then-Fits w _ _ (acquire-Fits w c.surface surface k xs s h) λ k xs s h.
      then-Fits w _ _ (acquire-Fits w c.egl_image egl_image k xs s h) λ k xs s h.
        then-Fits w _ _ (acquire-Fits w c.cu_resource cu_resource k xs s h) λ k xs s h.
          then-Fits w _ _ (require-Fits w c.egl_frame k xs s h) λ k xs s h.
            then-Fits w _ _ (acquire-Fits w c.src_plane src_plane k xs s h) λ k xs s h.
              then-Fits w _ _ (acquire-Fits w c.scaled_plane scaled_plane k xs s h) λ k xs s h.
                then-Fits w _ _ (acquire-Fits w c.scaled1_plane scaled1_plane k xs s h)
                  λ k xs s h. acquire-Fits w c.stream_on streaming k xs s h

-- `mmap` gives an address, and fails for no length.
abbrev pub sound_buffer : BufferCalls → Bool
sound_buffer c = elim c.address [
  | none ↦ true
  | some addr ↦ is_mapped (record { vir_addr = addr; length = c.length })
]

-- After a turn of the `for` at entry `k` of a table of `n`.
OneFits : World → (k n : ℕ) → Mapped → Type 0
OneFits w k n (next s) =
    (xs : List Resource) × Holds w (suc k) xs s × (length s.world.src_mbuffers ≡ n)
OneFits w k n (done s) = (i : ℕ) × (xs : List Resource) × Holds w i xs s
OneFits w k n (quits s) = Fits w (returns s)

map_one-OneFits :
    (w : World) (c : BufferCalls) (k : ℕ) (xs : List Resource) (s : Source)
    → sound_buffer c ≡ true
    → k < length s.world.src_mbuffers
    → Holds w k xs s
    → OneFits w k (length s.world.src_mbuffers) (map_one c k s)
unfolding OneFits map_one Fits
map_one-OneFits w c k xs s m lt h = elim (Option-cases c.address) [
  | inl e ↦ rw e (xs, h.taken, h.freed, h.broken)
  | inr (addr, e) ↦
      let p : Plane = record { vir_addr = addr; length = c.length } in
      let held : Holds w (suc k) (buffer p ∷ xs) (record {
        world = record (s.world) {
          taken = s.world.taken ++ buffer p ∷ [];
          src_mbuffers = set_elem s.world.src_mbuffers k (mapped_buffer c.index p);
        };
        free_stack = unmap_buffer k ∷ s.free_stack;
      }) =
        record {
          unwinds =
              unmap-Unwinds k s.free_stack s.world.src_mbuffers xs c.index p lt
                (ground (arith, m, e)) h.unwinds;
          taken = rw h.taken (snoc_taken w.taken xs (buffer p));
          freed = h.freed;
          broken = h.broken;
        } in
      elim (Bool-cases c.queued) [
        | inl q ↦
            rw (e, q)
              (
                buffer p ∷ xs,
                held,
                length-set_elem s.world.src_mbuffers k (mapped_buffer c.index p),
              )
        | inr q ↦ rw (e, q) (suc k, buffer p ∷ xs, held)
      ]
]

done_fits :
    (w : World) (k n : ℕ) (xs : List Resource) (s : Source)
    → Holds w k xs s
    → OneFits w k n (done s)
unfolding OneFits
done_fits w k n xs s h = (k, xs, h)

map_buffer-OneFits :
    (w : World) (c : BufferCalls) (k : ℕ) (xs : List Resource) (s : Source)
    → sound_buffer c ≡ true
    → k < length s.world.src_mbuffers
    → Holds w k xs s
    → OneFits w k (length s.world.src_mbuffers) (map_buffer c k s)
unfolding map_buffer
map_buffer-OneFits w c k xs s m lt h = elim (Bool-cases c.queried) [
  | inl e ↦ rw e (map_one-OneFits w c k xs s m lt h)
  | inr e ↦ rw e (done_fits w k _ xs s h)
]

buffers_left :
    (w : World) (c : ℕ → BufferCalls) (n k l : ℕ) (m : Mapped)
    → ((s : Source) (xs : List Resource)
        → Holds w (suc k) xs s
        → length s.world.src_mbuffers ≡ l
        → Fits w (map_buffers c n (suc k) s))
    → OneFits w k l m
    → Fits w (elim m [ next t ↦ map_buffers c n (suc k) t | done t ↦ goes t | quits t ↦ returns t ])
unfolding OneFits Fits
buffers_left w c n k l (next t) g (xs, h, e) = g t xs h e
buffers_left w c n k l (done t) g h = h
buffers_left w c n k l (quits t) g h = h

map_buffers-Fits :
    (w : World) (c : ℕ → BufferCalls) (n k : ℕ) (xs : List Resource) (s : Source)
    → ((i : ℕ) → sound_buffer (c i) ≡ true)
    → n + k ≤ length s.world.src_mbuffers
    → Holds w k xs s
    → Fits w (map_buffers c n k s)
unfolding map_buffers Fits
map_buffers-Fits w c zero k xs s m le h = (k, xs, h)
map_buffers-Fits w c (suc n) k xs s m le h =
    buffers_left w c n k (length s.world.src_mbuffers) (map_buffer (c k) k s)
      (λ t ys h' e. map_buffers-Fits w c n (suc k) ys t m (omega (arith, le, e)) h')
      (map_buffer-OneFits w (c k) k xs s (m k) (omega (arith, le)) h)

length-resize {ℓ} : {A : Type ℓ} (n : ℕ) (x : A) (xs : List A) → length (resize n x xs) ≡ n
length-resize zero x xs = refl
length-resize (suc n) x [] = ap suc (length-resize n x [])
length-resize (suc n) x (y ∷ ys) = ap suc (length-resize n x ys)

pub request_buffers-Fits :
    (w : World) (c : SetupCalls) (xs : List Resource) (s : Source)
    → ((i : ℕ) → sound_buffer (c.buffer i) ≡ true)
    → Holds w 0 xs s
    → Fits w (request_buffers c s)
unfolding request_buffers
request_buffers-Fits w c xs s m h = elim (Option-cases c.reqbufs) [
  | inl e ↦ rw e (require-Fits w false 0 xs s h)
  | inr (n, e) ↦ rw e (
      map_buffers-Fits w c.buffer n 0 xs _ m
        (omega (arith, length-resize n zero_buffer s.world.src_mbuffers))
        (record {
          unwinds = clear-Unwinds s.free_stack s.world.src_mbuffers _ xs h.unwinds;
          taken = h.taken;
          freed = h.freed;
          broken = h.broken;
        }))
]
