-- ===== src/ZzUtils/Accounted.antt =====
-- On `ZzStatBitRate` of samples/common/ZzUtils.cpp and on `TestLoop`.
use v4l2_tuto.Prelude.{ℕ, ◌+◌, ◌≡◌, ◌∙◌, ap, subst, ◌<◌, List, [], ◌∷◌, ◌++◌, arith}
use Prim.Native.Nat.{max}
use v4l2_tuto.ZzUtils.{BitRate, Report, lines, log}

abbrev pub printed_bits : List Report → ℕ
printed_bits [] = 0
printed_bits (p ∷ ps) = p.bits + printed_bits ps

abbrev pub printed_ticks : List Report → ℕ
printed_ticks [] = 0
printed_ticks (p ∷ ps) = p.ticks + printed_ticks ps

abbrev pub printed_time : List Report → ℕ
printed_time [] = 0
printed_time (p ∷ ps) = p.duration + printed_time ps

-- Each line is about more than `d` microseconds.
abbrev pub AllLonger : ℕ → List Report → Type 0
AllLonger d [] = Unit
AllLonger d (p ∷ ps) = (d < p.duration) × AllLonger d ps

-- What was printed and what is still counted, after calls from `s` on with `n` frames of `bits` bits in all.
pub record IsAccounted (s : BitRate) (n b m : ℕ) (rs : List Report) (t : BitRate) : Type 0 where
  pub bits : printed_bits rs + t.acc_bits ≡ s.acc_bits + b
  pub ticks : printed_ticks rs + t.acc_ticks ≡ s.acc_ticks + n
  pub time : s.last_ts + printed_time rs ≡ t.last_ts
  pub most : t.max_bits ≡ m
  pub longer : AllLonger s.stats_duration rs
  pub same : t.stats_duration ≡ s.stats_duration

log-IsAccounted :
    (bits ts : ℕ) (s : BitRate)
    → let (r, t) = log bits ts s in IsAccounted s 1 bits (max s.max_bits bits) (lines r) t
unfolding log
log-IsAccounted bits ts s = ground arith

printed_bits-append :
    (ps qs : List Report) → printed_bits (ps ++ qs) ≡ printed_bits ps + printed_bits qs
printed_bits-append [] qs = omega arith
printed_bits-append (p ∷ ps) qs = omega (arith, printed_bits-append ps qs)

printed_ticks-append :
    (ps qs : List Report) → printed_ticks (ps ++ qs) ≡ printed_ticks ps + printed_ticks qs
printed_ticks-append [] qs = omega arith
printed_ticks-append (p ∷ ps) qs = omega (arith, printed_ticks-append ps qs)

printed_time-append :
    (ps qs : List Report) → printed_time (ps ++ qs) ≡ printed_time ps + printed_time qs
printed_time-append [] qs = omega arith
printed_time-append (p ∷ ps) qs = omega (arith, printed_time-append ps qs)

AllLonger-append :
    (d : ℕ) (ps qs : List Report) → AllLonger d ps → AllLonger d qs → AllLonger d (ps ++ qs)
AllLonger-append d [] qs h k = k
AllLonger-append d (p ∷ ps) qs (l, h) k = (l, AllLonger-append d ps qs h k)

-- One more call of `Log`, at the end.
pub then-IsAccounted :
    (s t : BitRate) (n b m : ℕ) (rs : List Report) (bits ts : ℕ)
    → IsAccounted s n b m rs t
    → let (r, u) = log bits ts t in IsAccounted s (n + 1) (b + bits) (max m bits) (rs ++ lines r) u
then-IsAccounted s t n b m rs bits ts h =
    let (r, u) = log bits ts t in
    let k = log-IsAccounted bits ts t in
    record {
      bits = omega (arith, printed_bits-append rs (lines r), h.bits, k.bits);
      ticks = omega (arith, printed_ticks-append rs (lines r), h.ticks, k.ticks);
      time = omega (arith, printed_time-append rs (lines r), h.time, k.time);
      most = k.most ∙ ap (λ x. max x bits) h.most;
      longer =
          AllLonger-append s.stats_duration rs (lines r) h.longer
            (subst (λ d. AllLonger d (lines r)) h.same k.longer);
      same = k.same ∙ h.same;
    }
