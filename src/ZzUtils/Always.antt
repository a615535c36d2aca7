-- ===== src/ZzUtils/Always.antt =====
-- On `TestLoop` of samples/common/ZzUtils.cpp: what each call of `idle` keeps, the loop keeps.
use v4l2_tuto.Prelude.{ℕ, Option, none, some, List, [], ◌∷◌, ◌==◌, either}
use v4l2_tuto.ZzUtils.{
  Tick, failed, timed_out, pressed, Outcome, goes, waits, undefined, and_then, test_loop,
}

-- Where a part of a program ends or waits, the predicate holds.
abbrev pub Always {ℓ κ} : {S : Type ℓ} → (S → Type κ) → Outcome S → Type κ
Always P (goes s) = P s
Always P (waits s) = P s
Always P undefined = Unit

and_then-Always {ℓ κ} :
    {S : Type ℓ} (P : S → Type κ) (f : S → Outcome S) (o : Outcome S)
    → ((s : S) → P s → Always P (f s))
    → Always P o
    → Always P (and_then f o)
unfolding and_then
and_then-Always P f (goes s) g h = g s h
and_then-Always P f (waits s) g h = h
and_then-Always P f undefined g h = tt

module _ {ℓ κ} {S E : Type ℓ} (P : S → Type κ) where
  pub test_loop-Always :
      (idle : Option ℕ → E → S → Outcome S)
      → ((key : Option ℕ) (e : E) (s : S) → P s → Always P (idle key e s))
      → (ts : List (Tick × E)) (s : S) → P s
      → Always P (test_loop idle ts s)
  unfolding test_loop
  test_loop-Always idle keeps [] s h = h
  test_loop-Always idle keeps ((failed, e) ∷ ts) s h = h
  test_loop-Always idle keeps ((timed_out, e) ∷ ts) s h =
      and_then-Always P (test_loop idle ts) (idle none e s) (test_loop-Always idle keeps ts)
        (keeps none e s h)
  test_loop-Always idle keeps ((pressed none, e) ∷ ts) s h =
      and_then-Always P (test_loop idle ts) (idle none e s) (test_loop-Always idle keeps ts)
        (keeps none e s h)
  test_loop-Always idle keeps ((pressed (some ch), e) ∷ ts) s h = either (Always P) (ch == b'q') h (
      and_then-Always P (test_loop idle ts) (idle (some ch) e s) (test_loop-Always idle keeps ts)
        (keeps (some ch) e s h))
