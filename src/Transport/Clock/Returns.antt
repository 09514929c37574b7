-- ===== src/Transport/Clock/Returns.antt =====
-- The read loop ends, and what it gives is what read_request says of the answers in time.
use anything_tool.Base.{
  ℕ, zero, suc, ◌+◌, ◌-◌, ◌<◌, ◌≡◌, refl, sym, subst, true, false, Option, none, some, List, [],
  ◌∷◌, ◌++◌, arith, leb, if◌then◌else◌, length, take, Bool-cases, inl, inr, ℤ, stop, after, run_for,
}
use anything_tool.Text.{Bytes}
use anything_tool.Transport.{
  ReadAnswer, interrupted, closed, broken, arrived, Reading, lost, deadline_exceeded, has_newline,
  read_rounds, finish_reading, read_request,
}
use anything_tool.Transport.Reads.{full_ends}
use anything_tool.Transport.Clock.{
  ReadSystem, is_late, leave, take_answer, clocked_step, clocked_read,
}

-- How many of the answers a read takes, behind the bytes that it has, before it leaves the loop.
abbrev pub rounds_used : ℕ → Bytes → List ReadAnswer → ℕ
rounds_used max_bytes got [] = 0
rounds_used max_bytes got (interrupted ∷ answers) =
    let rest = rounds_used max_bytes got answers in
    if leb max_bytes (length got) then 0 else 1 + rest
rounds_used max_bytes got (closed ∷ answers) = if leb max_bytes (length got) then 0 else 1
rounds_used max_bytes got (broken why ∷ answers) = if leb max_bytes (length got) then 0 else 1
rounds_used max_bytes got (arrived c cs ∷ answers) =
    let more = got ++ take (max_bytes - length got) (c ∷ cs) in
    let rest = rounds_used max_bytes more answers in
    if leb max_bytes (length got) then 0 else if has_newline more then 1 else 1 + rest

full_unused :
    (max_bytes : ℕ) (got : Bytes) (answers : List ReadAnswer)
    → leb max_bytes (length got) ≡ true
    → rounds_used max_bytes got answers ≡ 0
full_unused max_bytes got [] h = refl
full_unused max_bytes got (interrupted ∷ answers) h = rw h refl
full_unused max_bytes got (closed ∷ answers) h = rw h refl
full_unused max_bytes got (broken why ∷ answers) h = rw h refl
full_unused max_bytes got (arrived c cs ∷ answers) h = rw h refl

module _ (sys : ReadSystem) (max_bytes : ℕ) (deadline_ms : ℤ) where
  -- The answers of the rounds from i on that begin before the deadline, k at most.
  abbrev pub in_time : ℕ → ℕ → List ReadAnswer
  in_time zero i = []
  in_time (suc k) i =
      let rest = in_time k (i + 1) in
      if is_late sys max_bytes deadline_ms i then [] else sys.answer i ∷ rest

  abbrev rest_of : ℕ → ℕ × Bytes → Option Reading
  rest_of fuel s = run_for (clocked_step sys max_bytes deadline_ms) none fuel s

  -- More than k rounds of fuel end in this outcome, with reading j of the clock behind the loop.
  abbrev Ends : ℕ → (ℕ → Option Reading) → ℕ → Reading → Type 0
  Ends k call j r =
      (fuel : ℕ)
      → k < fuel
      → call fuel ≡ some (finish_reading max_bytes (is_late sys max_bytes deadline_ms j) r)

  one_later :
      (k i n : ℕ) (call : ℕ → Option Reading) (r : Reading)
      → Ends k call (i + 1 + n) r
      → Ends k call (i + (1 + n)) r
  one_later k i n call r h = subst (λ j. Ends k call j r) (omega arith) h

  taken :
      (k i : ℕ) (got : Bytes) (a : ReadAnswer) (answers : List ReadAnswer)
      → leb max_bytes (length got) ≡ false
      → ((more : Bytes)
          → Ends k
              (λ fuel. rest_of fuel (i + 1, more))
              (i + 1 + rounds_used max_bytes more answers)
              (read_rounds max_bytes more answers))
      → Ends k
          (λ fuel. after (rest_of fuel) (take_answer sys max_bytes deadline_ms i got a))
          (i + rounds_used max_bytes got (a ∷ answers))
          (read_rounds max_bytes got (a ∷ answers))
  unfolding take_answer leave read_rounds finish_reading
  taken k i got interrupted answers room later = rw room (one_later k i _ _ _ (later got))
  taken k i got closed answers room later = rw room (λ fuel h. refl)
  taken k i got (broken why) answers room later = rw room (λ fuel h. refl)
  taken k i got (arrived c cs) answers room later =
      let more = got ++ take (max_bytes - length got) (c ∷ cs) in
      elim (Bool-cases (has_newline more)) [
        | inl line ↦ rw (room, line) (λ fuel h. refl)
        | inr none_yet ↦ rw (room, none_yet) (one_later k i _ _ _ (later more))
      ]

  -- The first round, with k rounds of fuel behind it.
  begin :
      (k i : ℕ) (got : Bytes) (j : ℕ) (r : Reading)
      → ((fuel : ℕ)
          → k < suc fuel
          → after (rest_of fuel) (clocked_step sys max_bytes deadline_ms (i, got))
            ≡ some (finish_reading max_bytes (is_late sys max_bytes deadline_ms j) r))
      → Ends k (λ fuel. rest_of fuel (i, got)) j r
  unfolding run_for
  begin k i got j r h = go
    where
      go :
          (fuel : ℕ)
          → k < fuel
          → rest_of fuel (i, got)
            ≡ some (finish_reading max_bytes (is_late sys max_bytes deadline_ms j) r)
      go zero l = absurd (omega arith)
      go (suc fuel) l = h fuel l

  full_step :
      (i : ℕ) (got : Bytes)
      → leb max_bytes (length got) ≡ true
      → clocked_step sys max_bytes deadline_ms (i, got) ≡ leave sys max_bytes deadline_ms i got
  unfolding clocked_step
  full_step i got full = rw full refl

  zero_behind : (i : ℕ) → i + 0 ≡ i
  zero_behind i = omega arith

  zero_ahead : (n : ℕ) → 0 + n ≡ n
  zero_ahead n = omega arith

  full_round :
      (k i : ℕ) (got : Bytes) (answers : List ReadAnswer)
      → leb max_bytes (length got) ≡ true
      → Ends k
          (λ fuel. rest_of fuel (i, got))
          (i + rounds_used max_bytes got answers)
          (read_rounds max_bytes got answers)
  unfolding leave
  full_round k i got answers full = begin k i got _ _ (λ fuel h.
      rw
        (
          full_step i got full,
          full_ends max_bytes got answers full,
          full_unused max_bytes got answers full,
          zero_behind i,
        )
        refl)

  none_in_time : (k i : ℕ) → is_late sys max_bytes deadline_ms i ≡ true → in_time k i ≡ []
  none_in_time zero i late = refl
  none_in_time (suc k) i late = rw late refl

  no_rounds :
      (got : Bytes)
      → leb max_bytes (length got) ≡ false
      → read_rounds max_bytes got [] ≡ lost deadline_exceeded
  unfolding read_rounds
  no_rounds got room = rw room refl

  late_step :
      (i : ℕ) (got : Bytes)
      → leb max_bytes (length got) ≡ false
      → is_late sys max_bytes deadline_ms i ≡ true
      → clocked_step sys max_bytes deadline_ms (i, got) ≡ stop (some (lost deadline_exceeded))
  unfolding clocked_step
  late_step i got room late = rw (room, late) refl

  late_round :
      (k i : ℕ) (got : Bytes)
      → leb max_bytes (length got) ≡ false
      → is_late sys max_bytes deadline_ms i ≡ true
      → Ends k
          (λ fuel. rest_of fuel (i, got))
          (i + rounds_used max_bytes got (in_time k i))
          (read_rounds max_bytes got (in_time k i))
  unfolding finish_reading
  late_round k i got room late =
      begin k i got _ _
        (λ fuel h. rw (late_step i got room late, none_in_time k i late, no_rounds got room) refl)

  early_round :
      (k i : ℕ) (got : Bytes)
      → leb max_bytes (length got) ≡ false
      → is_late sys max_bytes deadline_ms i ≡ false
      → ((more : Bytes)
          → Ends k
              (λ fuel. rest_of fuel (i + 1, more))
              (i + 1 + rounds_used max_bytes more (in_time k (i + 1)))
              (read_rounds max_bytes more (in_time k (i + 1))))
      → Ends
          (suc k)
          (λ fuel. rest_of fuel (i, got))
          (i + rounds_used max_bytes got (in_time (suc k) i))
          (read_rounds max_bytes got (in_time (suc k) i))
  unfolding clocked_step
  early_round k i got room early later =
      let ends = taken k i got (sys.answer i) (in_time k (i + 1)) room later in
      begin (suc k) i got _ _ (λ fuel h. rw (room, early) (ends fuel (omega arith)))

  rounds_end :
      (k i : ℕ) (got : Bytes)
      → is_late sys max_bytes deadline_ms (i + k) ≡ true
      → Ends k
          (λ fuel. rest_of fuel (i, got))
          (i + rounds_used max_bytes got (in_time k i))
          (read_rounds max_bytes got (in_time k i))
  rounds_end zero i got past = elim (Bool-cases (leb max_bytes (length got))) [
    | inl full ↦ full_round zero i got [] full
    | inr room ↦
        late_round zero i got room
          (subst (λ j. is_late sys max_bytes deadline_ms j ≡ true) (omega arith) past)
  ]
  rounds_end (suc k) i got past = elim (Bool-cases (leb max_bytes (length got))) [
    | inl full ↦ full_round (suc k) i got (in_time (suc k) i) full
    | inr room ↦ elim (Bool-cases (is_late sys max_bytes deadline_ms i)) [
      | inl late ↦ late_round (suc k) i got room late
      | inr early ↦ early_round k i got room early (λ more.
          rounds_end k (i + 1) more
            (subst (λ j. is_late sys max_bytes deadline_ms j ≡ true) (omega arith) past))
    ]
  ]

  -- The call returns: where the clock is past the deadline at its reading of round k, it needs no
  -- more than k + 1 rounds, however many of its reads are interrupted. What it returns is what
  -- read_request gives for the answers of the rounds that begin before the deadline, and for
  -- whether the clock is past the deadline at the reading behind the rounds that the loop takes.
  pub clocked_read-returns :
      (k : ℕ)
      → is_late sys max_bytes deadline_ms k ≡ true
      → (rounds : ℕ) → k < rounds
      → clocked_read sys max_bytes deadline_ms rounds
        ≡ some (
            read_request max_bytes
              (in_time k 0)
              (is_late sys max_bytes deadline_ms (rounds_used max_bytes [] (in_time k 0))))
  unfolding clocked_read read_request
  clocked_read-returns k past rounds enough =
      subst
        (λ j.
          rest_of rounds (0, [])
          ≡ some (
              finish_reading max_bytes (is_late sys max_bytes deadline_ms j)
                (read_rounds max_bytes [] (in_time k 0))))
        (zero_ahead (rounds_used max_bytes [] (in_time k 0)))
        (rounds_end k 0 []
          (subst (λ j. is_late sys max_bytes deadline_ms j ≡ true) (sym (zero_ahead k)) past) rounds
          enough)
