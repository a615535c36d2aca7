-- ===== src/ZzUtils.antt =====
-- samples/common/ZzUtils.cpp: the bit rate statistics, and the loop in which the programs of samples wait for keys. The
-- stack of closures is in DeferredTasks.antt. Times are microseconds of a clock that does not go
-- back before the last report; the sums stay below 2^63. What is printed is a value.
pub mod Accounted
pub mod Always
use v4l2_tuto.Prelude.{
  ℕ, ◌+◌, ◌-◌, ◌*◌, Bool, true, false, ltb, ◌==◌, Option, none, some, List, [], ◌∷◌, ◌++◌,
  if◌then◌else◌,
}

-- The unit that a rate is printed in.
pub data Units : Type 0 where
  kibps mibps gibps : Units

-- A line that `ZzStatBitRate::Log` prints; the rates are the sums over `duration`, in seconds.
pub record Report : Type 0 where
  pub ticks : ℕ
  pub bits : ℕ
  pub duration : ℕ
  pub units : Units
  pub max_bits : ℕ

-- What a call of `Log` prints.
abbrev pub lines : Option Report → List Report
lines none = []
lines (some p) = p ∷ []

-- `struct ZzStatBitRate`.
pub record BitRate : Type 0 where
  pub stats_duration : ℕ
  pub cur_ts : ℕ
  pub last_ts : ℕ
  pub acc_ticks : ℕ
  pub acc_bits : ℕ
  pub max_bits : ℕ

-- The constructor of `ZzStatBitRate`, followed by `Reset`.
abbrev pub reset : BitRate
reset = record {
  stats_duration = 1000000;
  cur_ts = 0;
  last_ts = 0;
  acc_ticks = 0;
  acc_bits = 0;
  max_bits = 0;
}

units_of : ℕ → Units
units_of bits =
    if ltb bits (1024 * 1024) then kibps else if ltb bits (1024 * 1024 * 1024) then mibps else gibps

-- What `Log` adds before it looks at the time.
count : ℕ → BitRate → BitRate
count bits s = record s {
  acc_bits = s.acc_bits + bits;
  max_bits = if ltb s.max_bits bits then bits else s.max_bits;
  acc_ticks = s.acc_ticks + 1;
}

report : ℕ → BitRate → Report
unfolding units_of
report ts s = record {
  ticks = s.acc_ticks;
  bits = s.acc_bits;
  duration = ts - s.last_ts;
  units = units_of s.acc_bits;
  max_bits = s.max_bits;
}

-- `ZzStatBitRate::Log`.
unfoldable pub log : (bits ts : ℕ) → BitRate → Option Report × BitRate
unfolding count report
log bits ts s =
    let t = count bits s in
    if ltb t.stats_duration (ts - t.last_ts)
    then (some (report ts t), record t { last_ts = ts; cur_ts = 0; acc_ticks = 0; acc_bits = 0 })
    else (none, t)

-- What `select` on the terminal comes to: an error, no key in time, or a character, `none` at the end of the input.
pub data Tick : Type 0 where
  failed timed_out : Tick
  pressed : Option ℕ → Tick

-- How a part of a program ends: it goes on, still waits for something, or has done what is undefined.
pub data Outcome {ℓ} (S : Type ℓ) : Type ℓ where
  goes waits : S → Outcome S
  undefined : Outcome S

-- What follows a call of `idle`.
unfoldable pub and_then {ℓ} : {S : Type ℓ} → (S → Outcome S) → Outcome S → Outcome S
and_then f (goes s) = f s
and_then f (waits s) = waits s
and_then f undefined = undefined

-- `TestLoop`, with the state that `idle` works on. Both `idle`s return 0, so no result of theirs ends the loop.
-- `none` stands for -1. Its timeouts only set when `idle(-1)` is called.
unfoldable pub test_loop {ℓ} :
    {S E : Type ℓ} → (idle : Option ℕ → E → S → Outcome S) → List (Tick × E) → S → Outcome S
unfolding and_then
test_loop idle [] s = waits s
test_loop idle ((failed, e) ∷ ts) s = goes s
test_loop idle ((timed_out, e) ∷ ts) s = and_then (test_loop idle ts) (idle none e s)
test_loop idle ((pressed none, e) ∷ ts) s = and_then (test_loop idle ts) (idle none e s)
test_loop idle ((pressed (some ch), e) ∷ ts) s =
    let rest = and_then (test_loop idle ts) (idle (some ch) e s) in
    if ch == b'q' then goes s else rest
