-- ===== src/QvioCtl/Source/Release.antt =====
-- On `VidSrc_Main` of samples/03_qvio-ctl/main.cpp: what it takes and what it gives back.
use v4l2_tuto.Prelude.{
  ℕ, zero, suc, ◌≡◌, refl, ap, sym, ◌∙◌, Bool, true, false, ◌&&◌, none, some, List, [], ◌∷◌, ◌++◌,
  if◌then◌else◌, arith, Option-cases, Bool-cases, inl, inr, append-nil, reverse,
}
use v4l2_tuto.DeferredTasks.{flush}
use v4l2_tuto.QvioCtl.Source.{
  World, Source, Resource, device, free, take, BufferCalls, SetupCalls, Stage, goes, breaks,
  returns, and_then, Mapped, next, done, quits, map_one, map_buffer, map_buffers, request_buffers,
  take_rest, set_up, finish, vid_src_main,
}
use v4l2_tuto.QvioCtl.Source.Unwind.{Unwinds, take-Unwinds}
use v4l2_tuto.QvioCtl.Source.Stages.{
  Holds, Fits, require-Fits, then-Fits, take_rest-Fits, request_buffers-Fits, sound_buffer,
}

-- A buffer's `mmap` fails, with all before it queried, mapped and queued.
abbrev pub mmap_fails : (ℕ → BufferCalls) → (n i : ℕ) → Bool
mmap_fails c zero i = false
mmap_fails c (suc n) i =
    (c i).queried
    && elim (c i).address [ none ↦ true | some addr ↦ (c i).queued && mmap_fails c n (suc i) ]

abbrev pub leaks : SetupCalls → Bool
leaks c =
    c.opened && (c.s_fmt && elim c.reqbufs [ none ↦ false | some n ↦ mmap_fails c.buffer n 0 ])

abbrev is_returned : Stage → Bool
is_returned (goes s) = false
is_returned (breaks s) = false
is_returned (returns s) = true

-- How a turn of the `for` ends, `b` standing for the turns behind it.
abbrev returned_or : Bool → Mapped → Bool
returned_or b (next s) = b
returned_or b (done s) = false
returned_or b (quits s) = true

returned_or-map_buffer :
    (b : Bool) (c : BufferCalls) (i : ℕ) (s : Source)
    → returned_or b (map_buffer c i s)
      ≡ (c.queried && elim c.address [ none ↦ true | some addr ↦ c.queued && b ])
unfolding map_buffer map_one
returned_or-map_buffer b c i s = ground arith

returned_left :
    (c : ℕ → BufferCalls) (n i : ℕ) (b : Bool) (m : Mapped)
    → ((s : Source) → is_returned (map_buffers c n (suc i) s) ≡ b)
    → is_returned
        (elim m [ next t ↦ map_buffers c n (suc i) t | done t ↦ goes t | quits t ↦ returns t ])
      ≡ returned_or b m
returned_left c n i b (next s) h = h s
returned_left c n i b (done s) h = refl
returned_left c n i b (quits s) h = refl

is_returned-map_buffers :
    (c : ℕ → BufferCalls) (n i : ℕ) (s : Source)
    → is_returned (map_buffers c n i s) ≡ mmap_fails c n i
unfolding map_buffers
is_returned-map_buffers c zero i s = refl
is_returned-map_buffers c (suc n) i s =
    returned_left c n i (mmap_fails c n (suc i)) (map_buffer (c i) i s)
      (is_returned-map_buffers c n (suc i))
    ∙ returned_or-map_buffer (mmap_fails c n (suc i)) (c i) i s

is_returned-take_rest : (c : SetupCalls) (s : Source) → is_returned (take_rest c s) ≡ false
unfolding take_rest
is_returned-take_rest c s = ground arith

is_returned-then :
    (t : Stage) (f : Source → Stage)
    → ((s : Source) → is_returned (f s) ≡ false)
    → is_returned (and_then t f) ≡ is_returned t
is_returned-then (goes s) f h = h s
is_returned-then (breaks s) f h = refl
is_returned-then (returns s) f h = refl

is_returned-set_up : (c : SetupCalls) (s : Source) → is_returned (set_up c s) ≡ leaks c
unfolding set_up request_buffers
is_returned-set_up c s = elim (Bool-cases c.opened) [
  | inr o ↦ rw o refl
  | inl o ↦ elim (Bool-cases c.s_fmt) [
    | inr f ↦ rw (o, f) refl
    | inl f ↦ elim (Option-cases c.reqbufs) [
      | inl r ↦ rw (o, f, r) refl
      | inr (n, r) ↦
          rw (o, f, r)
            (is_returned-then (map_buffers c.buffer n 0 _) (take_rest c) (is_returned-take_rest c)
              ∙ is_returned-map_buffers c.buffer n 0 _)
    ]
  ]
]

begin_Holds : (w : World) → Holds w 0 [] (record { world = w; free_stack = [] })
unfolding Unwinds flush
begin_Holds w = record {
  unwinds = λ v h. (sym (append-nil v.freed), refl, refl);
  taken = sym (append-nil w.taken);
  freed = refl;
  broken = refl;
}

set_up-Fits :
    (w : World) (c : SetupCalls)
    → ((i : ℕ) → sound_buffer (c.buffer i) ≡ true)
    → Fits w (set_up c (record { world = w; free_stack = [] }))
unfolding set_up
set_up-Fits w c m =
    let s0 : Source = record { world = w; free_stack = [] } in
    let h0 : Holds w 0 [] s0 = begin_Holds w in
    elim (Bool-cases c.opened) [
      | inr o ↦ rw o (require-Fits w false 0 [] s0 h0)
      | inl o ↦
          let h1 : Holds w 0 (device ∷ []) (take device (free device) s0) = record {
            unwinds = take-Unwinds 0 [] w.src_mbuffers [] device h0.unwinds;
            taken = refl;
            freed = refl;
            broken = refl;
          } in
          elim (Bool-cases c.s_fmt) [
            | inr f ↦ rw (o, f) (require-Fits w false 0 _ _ h1)
            | inl f ↦
                rw (o, f)
                  (then-Fits w (request_buffers c (take device (free device) s0)) (take_rest c)
                    (request_buffers-Fits w c _ _ m h1) (λ k xs s h. take_rest-Fits w c k xs s h))
          ]
    ]

flushed :
    (w : World) (k : ℕ) (xs : List Resource) (s : Source)
    → Holds w k xs s
    → let o = flush s.free_stack s.world in
      (ys : List Resource) × (o.taken ≡ w.taken ++ reverse ys)
      × (o.broken ≡ w.broken)
      × (o.freed ≡ w.freed ++ ys)
unfolding Unwinds
flushed w k xs s h =
    let (f, b, t) = h.unwinds s.world (λ j lt. refl) in
    (xs, t ∙ h.taken, b ∙ h.broken, f ∙ ap (λ l. l ++ xs) h.freed)

finish-Fits :
    (w : World) (t : Stage)
    → Fits w t
    → (xs : List Resource) × ((finish t).taken ≡ w.taken ++ reverse xs)
      × ((finish t).broken ≡ w.broken)
      × ((finish t).freed ≡ (if is_returned t then w.freed else w.freed ++ xs))
unfolding finish Fits Unwinds
finish-Fits w (goes s) (k, xs, h) = flushed w k xs s h
finish-Fits w (breaks s) (k, xs, h) = flushed w k xs s h
finish-Fits w (returns s) (xs, t, f, b) = (xs, t, b, f)

-- The camera's thread runs, with any outcome of its calls, but that `mmap` gives an address for a length
-- that is not 0. There is a list of what it took, the first last. If an `mmap` fails, with all buffers
-- before it mapped and queued, it gives nothing back. Otherwise, however far it came, it gives back exactly
-- what it took, in the opposite order. No closure reads outside the table of buffers.
pub vid_src_main-Released :
    (c : SetupCalls) (w : World)
    → ((i : ℕ) → sound_buffer (c.buffer i) ≡ true)
    → let w' = vid_src_main c w in
      (xs : List Resource) × (w'.taken ≡ w.taken ++ reverse xs)
      × (w'.broken ≡ w.broken)
      × (w'.freed ≡ (if leaks c then w.freed else w.freed ++ xs))
unfolding vid_src_main
vid_src_main-Released c w m =
    let s0 : Source = record { world = w; free_stack = [] } in
    let (xs, t, b, f) = finish-Fits w (set_up c s0) (set_up-Fits w c m) in
    (xs, t, b, rw (sym (is_returned-set_up c s0)) f)
