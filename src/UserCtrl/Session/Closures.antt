-- ===== src/UserCtrl/Session/Closures.antt =====
-- On the closures of `UserCtrl::Open` in samples/05_user-ctrl/main.cpp.
use v4l2_tuto.Prelude.{
  length-append, List-cases, ℕ, zero, suc, ◌≡◌, ◌⊎◌, inl, inr, refl, sym, ap, subst, ◌∙◌, Bool,
  true, false, Option, none, some, List, [], ◌∷◌, ◌++◌, length, if◌then◌else◌, append-nil,
  append-snoc, arith,
}
use v4l2_tuto.UserCtrl.Session.{Node, Ctrl, close_node, unmap_node, map_node, open_ctrl, close_ctrl}
use v4l2_tuto.DeferredTasks.{flush}

-- `n` times the same.
abbrev pub copies {ℓ} : {A : Type ℓ} → ℕ → A → List A
copies zero x = []
copies (suc n) x = x ∷ copies n x

-- The closures of `UserCtrl::Open`: `true` closes, `false` unmaps.
abbrev pub closures : List Bool → List (Node → Node)
closures [] = []
closures (true ∷ bs) = close_node ∷ closures bs
closures (false ∷ bs) = unmap_node ∷ closures bs

abbrev pub unmaps : List Bool → ℕ
unmaps [] = 0
unmaps (true ∷ bs) = unmaps bs
unmaps (false ∷ bs) = suc (unmaps bs)

-- Whether one of them closes.
abbrev pub has_close : List Bool → Bool
has_close [] = false
has_close (true ∷ bs) = true
has_close (false ∷ bs) = has_close bs

-- The entry is the last of the list.
abbrev pub IsLast : Option ℕ → List ℕ → Type 0
IsLast none xs = Unit
IsLast (some x) xs = (ys : List ℕ) × (xs ≡ ys ++ x ∷ [])

-- `nFd` and `pMmap` are what came last, and the stacks are those of the calls made.
pub record IsHeld (c : Ctrl) (closers : List (Ctrl → Ctrl)) : Type 0 where
  pub stack : List Bool
  pub kinds : c.free_stack ≡ closures stack
  pub count : unmaps stack ≡ length c.node.mapped
  pub fd : IsLast c.node.fd c.node.opened
  pub map : IsLast c.node.map c.node.mapped
  pub closed : c.node.closed ≡ []
  pub unmapped : c.node.unmapped ≡ []
  pub closes : (n : ℕ) × (closers ≡ copies n close_ctrl)
  pub number : closes.0 ≡ length c.node.mapped
  pub closing : (has_close stack ≡ true) ⊎ (c.node.mapped ≡ [])

-- The outcome of a run of such closures.
abbrev pub optional : Option ℕ → List ℕ
optional none = []
optional (some x) = x ∷ []

abbrev pub times : ℕ → Option ℕ → List ℕ
times n none = []
times n (some p) = copies n p

abbrev Undoes : List Bool → Node → Type 0
Undoes bs n =
    let e = flush (closures bs) n in
    ((e.closed ≡ n.closed) ⊎ (e.closed ≡ n.closed ++ optional n.fd))
    × (e.unmapped ≡ n.unmapped ++ times (unmaps bs) n.map)
    × (e.opened ≡ n.opened)
    × (e.mapped ≡ n.mapped)

fields-Undoes :
    (bs : List Bool) (fd map : Option ℕ) (opened closed mapped unmapped : List ℕ)
    → Undoes bs (record {
      fd = fd;
      map = map;
      opened = opened;
      closed = closed;
      mapped = mapped;
      unmapped = unmapped;
    })
unfolding flush
fields-Undoes [] fd none o c m u = (inl refl, sym (append-nil u), refl, refl)
fields-Undoes [] fd (some p) o c m u = (inl refl, sym (append-nil u), refl, refl)
fields-Undoes (true ∷ bs) none p o c m u = fields-Undoes bs none p o c m u
fields-Undoes (true ∷ bs) (some x) p o c m u =
    let (cl, un, op, ma) = fields-Undoes bs none p o (c ++ x ∷ []) m u in
    (elim cl [ inl e ↦ inr e | inr e ↦ inr (e ∙ append-nil (c ++ x ∷ [])) ], un, op, ma)
fields-Undoes (false ∷ bs) fd none o c m u = fields-Undoes bs fd none o c m u
fields-Undoes (false ∷ bs) fd (some p) o c m u =
    let (cl, un, op, ma) = fields-Undoes bs fd (some p) o c m (u ++ p ∷ []) in
    (cl, un ∙ append-snoc u p (copies (unmaps bs) p), op, ma)

flush-Undoes : (bs : List Bool) (n : Node) → Undoes bs n
flush-Undoes bs n = fields-Undoes bs n.fd n.map n.opened n.closed n.mapped n.unmapped

-- Closing what is closed does nothing.
copies-closed :
    (k : ℕ) (n : Node)
    → flush (copies k close_ctrl) (record { node = n; free_stack = [] })
      ≡ record { node = n; free_stack = [] }
unfolding flush close_ctrl
copies-closed zero n = refl
copies-closed (suc k) n = copies-closed k n

-- What closes does close.
closed_once :
    (bs : List Bool) (fd map : Option ℕ) (o c m u : List ℕ)
    → has_close bs ≡ true
    → (flush
        (closures bs)
        (record { fd = fd; map = map; opened = o; closed = c; mapped = m; unmapped = u })).closed
      ≡ c ++ optional fd
unfolding flush
closed_once [] fd p o c m u h = absurd (ground (arith, h))
closed_once (true ∷ bs) none p o c m u h = elim (fields-Undoes bs none p o c m u).0 [
  | inl e ↦ e ∙ sym (append-nil c)
  | inr e ↦ e
]
closed_once (true ∷ bs) (some x) p o c m u h =
    elim (fields-Undoes bs none p o (c ++ x ∷ []) m u).0 [
      | inl e ↦ e
      | inr e ↦ e ∙ append-nil (c ++ x ∷ [])
    ]
closed_once (false ∷ bs) fd none o c m u h = closed_once bs fd none o c m u h
closed_once (false ∷ bs) fd (some p) o c m u h = closed_once bs fd (some p) o c m (u ++ p ∷ []) h

-- What is closed in the end, where the calls have left `n`: what `nFd` holds, if anything was mapped.
abbrev pub closes_last : Node → List ℕ
closes_last n = elim n.mapped [ [] ↦ [] | p ∷ ps ↦ optional n.fd ]

abbrev pub Undone : Node → Node → Type 0
Undone n e =
    (e.closed ≡ closes_last n)
    × (e.unmapped ≡ times (length n.mapped) n.map)
    × (e.opened ≡ n.opened)
    × (e.mapped ≡ n.mapped)

no_times : (p : Option ℕ) → times 0 p ≡ []
no_times none = refl
no_times (some p) = refl

stack-Undone :
    (bs : List Bool) (n : Node) (q : ℕ) (qs : List ℕ)
    → n.mapped ≡ q ∷ qs
    → has_close bs ≡ true
    → unmaps bs ≡ length n.mapped
    → n.closed ≡ []
    → n.unmapped ≡ []
    → Undone n (flush (closures bs) n)
stack-Undone bs n q qs some_mapped h count c u =
    let (cl, un, op, ma) = flush-Undoes bs n in
    (
      closed_once bs n.fd n.map n.opened n.closed n.mapped n.unmapped h
          ∙ ap (λ l. l ++ optional n.fd) c
          ∙ rw some_mapped refl,
      un ∙ ap (λ l. l ++ times (unmaps bs) n.map) u ∙ ap (λ k. times k n.map) count,
      op,
      ma,
    )

closers-Undone :
    (k : ℕ) (c : Ctrl)
    → k ≡ length c.node.mapped
    → c.node.closed ≡ []
    → c.node.unmapped ≡ []
    → ((q : ℕ) (qs : List ℕ) → c.node.mapped ≡ q ∷ qs → Undone c.node (flush c.free_stack c.node))
    → Undone c.node (flush (copies k close_ctrl) c).node
unfolding flush close_ctrl
closers-Undone zero c e cl un h = elim (List-cases c.node.mapped) [
  | inl n ↦ (cl ∙ rw n refl, un ∙ sym (rw n (no_times c.node.map)), refl, refl)
  | inr (q, qs, n) ↦ absurd (omega (arith, e, ap length n))
]
closers-Undone (suc k) c e cl un h = elim (List-cases c.node.mapped) [
  | inl n ↦ absurd (omega (arith, e, ap length n))
  | inr (q, qs, n) ↦
      subst (λ (d : Ctrl). Undone c.node d.node) (sym (copies-closed k (flush c.free_stack c.node)))
        (h q qs n)
]

pub held-Undone :
    (c : Ctrl) (closers : List (Ctrl → Ctrl))
    → IsHeld c closers
    → Undone c.node (flush closers c).node
held-Undone c closers h =
    subst (λ l. Undone c.node (flush l c).node) (sym h.closes.1)
      (closers-Undone h.closes.0 c h.number h.closed h.unmapped (λ q qs n.
        subst (λ l. Undone c.node (flush l c.node)) (sym h.kinds)
          (stack-Undone h.stack c.node q qs n (must_close q qs n h.closing) h.count h.closed
            h.unmapped)))
  where
    must_close :
        (q : ℕ) (qs : List ℕ)
        → c.node.mapped ≡ q ∷ qs
        → (has_close h.stack ≡ true) ⊎ (c.node.mapped ≡ [])
        → has_close h.stack ≡ true
    must_close q qs n (inl e) = e
    must_close q qs n (inr e) = absurd (omega (arith, ap length n, ap length e))

length-snoc : (xs : List ℕ) (x : ℕ) → length (xs ++ x ∷ []) ≡ suc (length xs)
length-snoc xs x = omega (arith, length-append {0} xs (x ∷ []))

pub open_ctrl-IsHeld :
    (opened address : Option ℕ) (c : Ctrl) (closers : List (Ctrl → Ctrl))
    → IsHeld c closers
    → let (ok, c') = open_ctrl opened address c in
      IsHeld c' (if ok then close_ctrl ∷ closers else closers)
unfolding open_ctrl map_node
open_ctrl-IsHeld none address c closers h = record {
  stack = h.stack;
  kinds = h.kinds;
  count = h.count;
  fd = tt;
  map = h.map;
  closed = h.closed;
  unmapped = h.unmapped;
  closes = h.closes;
  number = h.number;
  closing = h.closing;
}
open_ctrl-IsHeld (some f) none c closers h = record {
  stack = true ∷ h.stack;
  kinds = ap (λ l. close_node ∷ l) h.kinds;
  count = h.count;
  fd = (c.node.opened, refl);
  map = tt;
  closed = h.closed;
  unmapped = h.unmapped;
  closes = h.closes;
  number = h.number;
  closing = inl refl;
}
open_ctrl-IsHeld (some f) (some p) c closers h = record {
  stack = false ∷ true ∷ h.stack;
  kinds = ap (λ l. unmap_node ∷ close_node ∷ l) h.kinds;
  count = ap suc h.count ∙ sym (length-snoc c.node.mapped p);
  fd = (c.node.opened, refl);
  map = (c.node.mapped, refl);
  closed = h.closed;
  unmapped = h.unmapped;
  closes = (suc h.closes.0, ap (λ l. close_ctrl ∷ l) h.closes.1);
  number = ap suc h.number ∙ sym (length-snoc c.node.mapped p);
  closing = inl refl;
}
