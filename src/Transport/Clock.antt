-- ===== src/Transport/Clock.antt =====
-- anything_transport_read_request with the clock that it reads.
pub mod Returns
use anything_tool.Base.{
  ℕ, ◌+◌, ◌-◌, Bool, Option, none, some, [], ◌∷◌, ◌++◌, leb, if◌then◌else◌, length, take, ℤ, ◌+ℤ◌,
  pos, sub_ℕ, div_int, mul_int, lt_int, Next, again, stop, run_for,
}
use anything_tool.Text.{Bytes}
use anything_tool.Transport.{
  ReadAnswer, interrupted, closed, broken, arrived, deadline_exceeded, read_failed, Reading,
  received, lost, has_newline, finish_reading,
}

-- struct timespec, of a clock that does not go below zero.
pub record Timespec : Type 0 where
  pub tv_sec : ℕ
  pub tv_nsec : ℕ

unfoldable pub elapsed_ms_since : Timespec → Timespec → ℤ
elapsed_ms_since start now =
    mul_int (sub_ℕ now.tv_sec start.tv_sec) 1000
    +ℤ div_int (sub_ℕ now.tv_nsec start.tv_nsec) 1000000

-- What the system answers: the clock, by the number of the reading, and read, by the round.
pub record ReadSystem : Type 0 where
  pub start : Timespec
  pub clock : ℕ → Timespec
  pub answer : ℕ → ReadAnswer

module _ (sys : ReadSystem) (max_bytes : ℕ) (deadline_ms : ℤ) where
  -- elapsed_ms_since(&started) > deadline_ms at a reading of the clock.
  unfoldable pub is_late : ℕ → Bool
  unfolding elapsed_ms_since
  is_late i = lt_int deadline_ms (elapsed_ms_since sys.start (sys.clock i))

  -- Behind the loop the clock is read once more.
  unfoldable pub leave : ℕ → Bytes → Next (ℕ × Bytes) (Option Reading)
  unfolding is_late finish_reading
  leave i got = stop (some (finish_reading max_bytes (is_late i) (received got)))

  -- Behind a read, in round i.
  unfoldable pub take_answer : ℕ → Bytes → ReadAnswer → Next (ℕ × Bytes) (Option Reading)
  unfolding leave has_newline
  take_answer i got interrupted = again (i + 1, got)
  take_answer i got closed = leave (i + 1) got
  take_answer i got (broken why) = stop (some (lost (read_failed why)))
  take_answer i got (arrived c cs) =
      let more = got ++ take (max_bytes - length got) (c ∷ cs) in
      if has_newline more then leave (i + 1) more else again (i + 1, more)

  -- One round of the loop, with the number of the next reading of the clock.
  unfoldable pub clocked_step : ℕ × Bytes → Next (ℕ × Bytes) (Option Reading)
  unfolding leave is_late take_answer
  clocked_step (i, got) =
      if leb max_bytes (length got)
      then leave i got
      else if is_late i
      then stop (some (lost deadline_exceeded))
      else take_answer i got (sys.answer i)

  -- The call, where it returns within that many rounds.
  unfoldable pub clocked_read : ℕ → Option Reading
  unfolding clocked_step
  clocked_read rounds = run_for clocked_step none rounds (0, [])
