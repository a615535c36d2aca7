-- ===== src/Qvio/Streaming/Register.antt =====
-- The board's control register while streaming starts and stops.
use v4l2_tuto.Prelude.{
  ℕ, ◌<◌, ◌≡◌, refl, ◌&&◌, Bool, true, not, arith, List, [], ◌∷◌, ◌++◌, if◌then◌else◌, ◌==◌, bit,
  bit_and, bit_or, bit-bit_and, bit-bit_or, bit-mask_0, bit-mask_4, bit-single_0, bit-single_4,
  bit-le_one,
}
use Prim.Native.Nat.{max}
use v4l2_tuto.Kernel.{is_set}
use v4l2_tuto.Qvio.Queue.{Buffer}
use v4l2_tuto.Qvio.Streaming.{
  Stream, is_first_board, is_second_board, format_bits, SubmitCalls, submit_all, configure,
  finish_start, start_streaming, stop_streaming,
}

-- The word that the second board gets when streaming starts.
second_board_word :
    (k r m : ℕ)
    → k < 32
    → bit k (bit_or (bit_and (bit_or r m) 0xffff_ffef) 16)
      ≡ (if k == 4 then 1 else max (bit k r) (bit k m))
second_board_word k r m h = ground (
  arith,
  bit-bit_or k (bit_and (bit_or r m) 0xffff_ffef) 16,
  bit-bit_and k (bit_or r m) 0xffff_ffef,
  bit-bit_or k r m,
  bit-mask_4 k h,
  bit-single_4 k h,
  bit-le_one k r,
  bit-le_one k m,
)

second_board_off :
    (k r m : ℕ)
    → k < 32
    → bit k (bit_and (bit_or r m) 0xffff_ffef) ≡ (if k == 4 then 0 else max (bit k r) (bit k m))
second_board_off k r m h = ground (
  arith,
  bit-bit_and k (bit_or r m) 0xffff_ffef,
  bit-bit_or k r m,
  bit-mask_4 k h,
  bit-le_one k r,
  bit-le_one k m,
)

first_board_word : (k r : ℕ) → k < 32 → bit k (bit_or r 1) ≡ (if k == 0 then 1 else bit k r)
first_board_word k r h = ground (arith, bit-bit_or k r 1, bit-single_0 k h, bit-le_one k r)

clear_0 : (k r : ℕ) → k < 32 → bit k (bit_and r 0xffff_fffe) ≡ (if k == 0 then 0 else bit k r)
clear_0 k r h = ground (arith, bit-bit_and k r 0xffff_fffe, bit-mask_0 k h, bit-le_one k r)

clear_4 : (k r : ℕ) → k < 32 → bit k (bit_and r 0xffff_ffef) ≡ (if k == 4 then 0 else bit k r)
clear_4 k r h = ground (arith, bit-bit_and k r 0xffff_ffef, bit-mask_4 k h, bit-le_one k r)

submit_all-register :
    (calls : SubmitCalls) (s : Stream) (bs : List Buffer)
    → ((submit_all calls s bs).0.register ≡ s.register)
      × ((submit_all calls s bs).0.device_id ≡ s.device_id)
unfolding submit_all
submit_all-register calls s [] = (refl, refl)
submit_all-register calls s (b ∷ bs) =
    ground (arith, submit_all-register calls (record s { in_flight = s.in_flight ++ b ∷ [] }) bs)

module _ (calls : SubmitCalls) (s : Stream) where
  -- On the second board, a start sets the bits of the format in the register, whether it succeeds or not,
  -- and no bit besides but the streaming bit 4, which is 1 after a start that succeeds and 0 after one that
  -- fails.
  pub start_streaming-second_board :
      is_second_board s.device_id ≡ true
      → (k : ℕ) → k < 32
      → let r = start_streaming calls s in
        bit k r.0.register ≡ (
          if k == 4
          then if is_set r.1 then 0 else 1
          else max (bit k s.register) (bit k (format_bits s.queue.current_format.pixelformat)))
  unfolding start_streaming configure finish_start
  start_streaming-second_board board k h = ground (
    arith,
    submit_all-register calls (configure (record s { queue = record (s.queue) { sequence = 0 } }))
        s.queue.buffers,
    second_board_word k s.register (format_bits s.queue.current_format.pixelformat) h,
    second_board_off k s.register (format_bits s.queue.current_format.pixelformat) h,
  )

  -- On the first boards, a start sets the streaming bit 0 if it succeeds, and changes no other bit: the
  -- format that is set does not reach the register.
  pub start_streaming-first_board :
      is_first_board s.device_id ≡ true
      → (k : ℕ) → k < 32
      → let r = start_streaming calls s in
        bit k r.0.register ≡ (if k == 0 && not (is_set r.1) then 1 else bit k s.register)
  unfolding start_streaming configure finish_start
  start_streaming-first_board board k h = ground (
    arith,
    submit_all-register calls (configure (record s { queue = record (s.queue) { sequence = 0 } }))
        s.queue.buffers,
    first_board_word k s.register h,
  )

-- Stopping clears the streaming bit of the board and keeps every other bit.
pub stop_streaming-register :
    (interrupted : Bool) (s : Stream) (k : ℕ)
    → k < 32
    → bit k (stop_streaming interrupted s).register ≡ (
        if is_first_board s.device_id && k == 0
        then 0
        else if is_second_board s.device_id && k == 4
        then 0
        else bit k s.register)
unfolding stop_streaming
stop_streaming-register interrupted s k h =
    ground (arith, clear_0 k s.register h, clear_4 k s.register h)
