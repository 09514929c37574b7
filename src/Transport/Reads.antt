-- ===== src/Transport/Reads.antt =====
-- What anything_transport_read_request hands over.
use anything_tool.Base.{
  ℕ, ◌-◌, ◌≤◌, ◌<◌, ◌≡◌, refl, sym, ap, ◌∙◌, Bool, true, false, ◌⊎◌, List, [], ◌∷◌, ◌++◌,
  append_assoc, append-nil, arith, leb, leb→le, leb-false, if-Holds, length, take, drop, take_all,
  take-drop, length-take, length-append, Bool-cases, subst, inl, inr,
}
use anything_tool.Text.{Bytes}
use anything_tool.Transport.{
  ReadAnswer, interrupted, closed, broken, arrived, Reading, received, lost, has_newline,
  read_rounds, finish_reading, read_request,
}

-- All that the peer sent in the rounds, and whether it then closed the connection.
abbrev pub stream : List ReadAnswer → Bytes
stream [] = []
stream (arrived c cs ∷ answers) = c ∷ (cs ++ stream answers)
stream (_ ∷ answers) = stream answers

abbrev pub closes : List ReadAnswer → Bool
closes [] = false
closes (closed ∷ answers) = true
closes (_ ∷ answers) = closes answers

-- What it sent before it closed the connection.
abbrev pub before_close : List ReadAnswer → Bytes
before_close [] = []
before_close (closed ∷ answers) = []
before_close (arrived c cs ∷ answers) = c ∷ (cs ++ before_close answers)
before_close (_ ∷ answers) = before_close answers

-- The first bytes of the stream.
abbrev pub IsPrefix : Bytes → Bytes → Type 0
IsPrefix got all = (rest : Bytes) × (all ≡ got ++ rest)

-- Behind the bytes that are there, the read took all that arrived up to the piece in which the
-- first newline came, that piece whole.
pub record AtLine (got : Bytes) (answers : List ReadAnswer) (out : Bytes) : Type 0 where
  pub earlier : List ReadAnswer
  pub later : List ReadAnswer
  pub first : ℕ
  pub others : Bytes
  pub answers_are : answers ≡ earlier ++ arrived first others ∷ later
  pub out_is : out ≡ got ++ (stream earlier ++ first ∷ others)
  pub none_before : has_newline (got ++ stream earlier) ≡ false
  pub line : has_newline out ≡ true

-- Behind the bytes that are there, the read took all that arrived before the peer closed.
abbrev pub AtClose : Bytes → List ReadAnswer → Bytes → Type 0
AtClose got answers out = (closes answers ≡ true) × (out ≡ got ++ before_close answers)

-- What ends the loop: a full buffer, a newline, or the end of the connection.
abbrev Ended : ℕ → Bytes → List ReadAnswer → Bytes → Type 0
Ended max_bytes got answers out =
    (max_bytes ≤ length out) ⊎ (AtLine got answers out ⊎ AtClose got answers out)

abbrev IsRead : ℕ → Bytes → List ReadAnswer → Reading → Type 0
IsRead max_bytes got answers (lost e) = Unit
IsRead max_bytes got answers (received out) =
    IsPrefix out (got ++ stream answers) × Ended max_bytes got answers out

-- An interrupted read changes nothing.
behind_interrupted :
    (max_bytes : ℕ) (got : Bytes) (answers : List ReadAnswer) (r : Reading)
    → IsRead max_bytes got answers r
    → IsRead max_bytes got (interrupted ∷ answers) r
behind_interrupted max_bytes got answers (lost e) h = tt
behind_interrupted max_bytes got answers (received out) (p, inl many) = (p, inl many)
behind_interrupted max_bytes got answers (received out) (p, inr (inr e)) = (p, inr (inr e))
behind_interrupted max_bytes got answers (received out) (p, inr (inl l)) = (
  p,
  inr (
      inl (record {
        earlier = interrupted ∷ l.earlier;
        later = l.later;
        first = l.first;
        others = l.others;
        answers_are = ap (λ rest. interrupted ∷ rest) l.answers_are;
        out_is = l.out_is;
        none_before = l.none_before;
        line = l.line;
      })),
)

-- A piece that is taken whole stands before what is read behind it.
behind_piece :
    (max_bytes : ℕ) (got : Bytes) (c : ℕ) (cs : Bytes) (answers : List ReadAnswer) (r : Reading)
    → IsRead max_bytes (got ++ c ∷ cs) answers r
    → IsRead max_bytes got (arrived c cs ∷ answers) r
behind_piece max_bytes got c cs answers (lost e) h = tt
behind_piece max_bytes got c cs answers (received out) ((rest, all), e) = (
  (rest, sym (append_assoc got (c ∷ cs) (stream answers)) ∙ all),
  elim e [
    | inl many ↦ inl many
    | inr (inl l) ↦ inr (
        inl (record {
          earlier = arrived c cs ∷ l.earlier;
          later = l.later;
          first = l.first;
          others = l.others;
          answers_are = ap (λ rest. arrived c cs ∷ rest) l.answers_are;
          out_is =
              l.out_is
              ∙ append_assoc got (c ∷ cs) (stream l.earlier ++ l.first ∷ l.others)
              ∙ ap (λ t. got ++ c ∷ t)
                  (sym (append_assoc cs (stream l.earlier) (l.first ∷ l.others)));
          none_before =
              ap has_newline (sym (append_assoc got (c ∷ cs) (stream l.earlier))) ∙ l.none_before;
          line = l.line;
        }))
    | inr (inr (ends, out_is)) ↦
        inr (inr (ends, out_is ∙ append_assoc got (c ∷ cs) (before_close answers)))
  ],
)

-- The bytes that a read does not take stay in the stream.
stream_split :
    (n : ℕ) (got new rest : Bytes)
    → got ++ (new ++ rest) ≡ (got ++ take n new) ++ (drop n new ++ rest)
stream_split n got new rest = sym (
    append_assoc got (take n new) (drop n new ++ rest)
    ∙ ap (λ t. got ++ t)
        (sym (append_assoc (take n new) (drop n new) rest) ∙ ap (λ t. t ++ rest) (take-drop n new)))

full : (max_bytes : ℕ) (got : Bytes) → leb max_bytes (length got) ≡ true → max_bytes ≤ length got
full max_bytes got h = leb→le max_bytes (length got) h

module _ (max_bytes : ℕ) where
  -- A full buffer ends the loop.
  pub full_ends :
      (got : Bytes) (answers : List ReadAnswer)
      → leb max_bytes (length got) ≡ true
      → read_rounds max_bytes got answers ≡ received got
  unfolding read_rounds
  full_ends got [] h = rw h refl
  full_ends got (interrupted ∷ answers) h = rw h refl
  full_ends got (closed ∷ answers) h = refl
  full_ends got (broken why ∷ answers) h = rw h refl
  full_ends got (arrived c cs ∷ answers) h = rw h refl

  -- A read that leaves room has taken all that there was.
  room_took_all :
      (got new : Bytes)
      → length (got ++ take (max_bytes - length got) new) < max_bytes
      → take (max_bytes - length got) new ≡ new
  room_took_all got new h = take_all (max_bytes - length got) new (
      omega (
        arith,
        length-append got (take (max_bytes - length got) new),
        length-take (max_bytes - length got) new,
      ))

  -- The piece with the first newline, where it does not fill the buffer.
  at_line :
      (got : Bytes) (c : ℕ) (cs : Bytes) (answers : List ReadAnswer) (more : Bytes)
      → more ≡ got ++ c ∷ cs
      → has_newline got ≡ false
      → has_newline more ≡ true
      → AtLine got (arrived c cs ∷ answers) more
  at_line got c cs answers more same none_yet line = record {
    earlier = [];
    later = answers;
    first = c;
    others = cs;
    answers_are = refl;
    out_is = same;
    none_before = ap has_newline (append-nil got) ∙ none_yet;
    line = line;
  }

  read_rounds-IsRead :
      (got : Bytes) (answers : List ReadAnswer)
      → has_newline got ≡ false
      → IsRead max_bytes got answers (read_rounds max_bytes got answers)
  unfolding read_rounds
  read_rounds-IsRead got [] none_yet =
      if-Holds (IsRead max_bytes got []) (leb max_bytes (length got))
        (λ h. (([], refl), inl (full max_bytes got h))) (λ h. tt)
  read_rounds-IsRead got (interrupted ∷ answers) none_yet =
      if-Holds (IsRead max_bytes got (interrupted ∷ answers)) (leb max_bytes (length got))
        (λ h. ((stream answers, refl), inl (full max_bytes got h)))
        (λ h. behind_interrupted max_bytes got answers _ (read_rounds-IsRead got answers none_yet))
  read_rounds-IsRead got (closed ∷ answers) none_yet =
      ((stream answers, refl), inr (inr (refl, sym (append-nil got))))
  read_rounds-IsRead got (broken why ∷ answers) none_yet =
      if-Holds (IsRead max_bytes got (broken why ∷ answers)) (leb max_bytes (length got))
        (λ h. ((stream answers, refl), inl (full max_bytes got h))) (λ h. tt)
  read_rounds-IsRead got (arrived c cs ∷ answers) none_yet =
      let more = got ++ take (max_bytes - length got) (c ∷ cs) in
      let later = read_rounds-IsRead (got ++ c ∷ cs) answers in
      let split = stream_split (max_bytes - length got) got (c ∷ cs) (stream answers) in
      if-Holds (IsRead max_bytes got (arrived c cs ∷ answers)) (leb max_bytes (length got))
        (λ h. ((stream (arrived c cs ∷ answers), refl), inl (full max_bytes got h)))
        (λ h. elim (Bool-cases (leb max_bytes (length more))) [
          | inl f ↦
              if-Holds (IsRead max_bytes got (arrived c cs ∷ answers)) (has_newline more)
                (λ n. ((_, split), inl (full max_bytes more f)))
                (λ n.
                  subst (IsRead max_bytes got (arrived c cs ∷ answers))
                    (sym (full_ends more answers f)) ((_, split), inl (full max_bytes more f)))
          | inr f ↦
              let same : take (max_bytes - length got) (c ∷ cs) ≡ c ∷ cs =
                room_took_all got (c ∷ cs) (leb-false _ _ f) in
              if-Holds (IsRead max_bytes got (arrived c cs ∷ answers)) (has_newline more)
                (λ n. (
                  (_, split),
                  inr (inl (at_line got c cs answers more (ap (λ t. got ++ t) same) none_yet n)),
                ))
                (λ n.
                  subst
                    (λ new.
                      IsRead max_bytes got (arrived c cs ∷ answers)
                        (read_rounds max_bytes (got ++ new) answers))
                    (sym same)
                    (behind_piece max_bytes got c cs answers _
                      (later (subst (λ new. has_newline (got ++ new) ≡ false) same n))))
        ])

finish_received :
    (max_bytes : ℕ) (late : Bool) (got body : Bytes)
    → finish_reading max_bytes late (received got) ≡ received body
    → (length body < max_bytes) × (got ≡ body)
unfolding finish_reading
finish_received max_bytes late got body h = ground arith

abbrev Handed : ℕ → List ReadAnswer → Bytes → Type 0
Handed max_bytes answers body =
    (length body < max_bytes)
    × (IsPrefix body (stream answers) × (AtLine [] answers body ⊎ AtClose [] answers body))

finish_reading-Handed :
    (max_bytes : ℕ) (answers : List ReadAnswer) (late : Bool) (r : Reading) (body : Bytes)
    → IsRead max_bytes [] answers r
    → finish_reading max_bytes late r ≡ received body
    → Handed max_bytes answers body
unfolding finish_reading
finish_reading-Handed max_bytes answers late (lost e) body k h = absurd (cc)
finish_reading-Handed max_bytes answers late (received got) body k h =
    let (short, same) = finish_received max_bytes late got body h in
    let ended : AtLine [] answers got ⊎ AtClose [] answers got = elim k.1 [
      | inl many ↦ absurd (omega (arith, ap length same))
      | inr e ↦ e
    ] in
    (
      short,
      subst (λ b. IsPrefix b (stream answers) × (AtLine [] answers b ⊎ AtClose [] answers b)) same
          (k.0, ended),
    )

-- A request that is handed over is shorter than the limit and is the first that the peer sent. It
-- is all that arrived up to the piece in which the first newline came, with the bytes behind the
-- newline in that piece, or it is all that arrived before the peer closed the connection.
pub read_request-IsPrefix :
    (max_bytes : ℕ) (answers : List ReadAnswer) (late : Bool) (body : Bytes)
    → read_request max_bytes answers late ≡ received body
    → (length body < max_bytes)
      × (IsPrefix body (stream answers) × (AtLine [] answers body ⊎ AtClose [] answers body))
unfolding read_request has_newline
read_request-IsPrefix max_bytes answers late body h =
    finish_reading-Handed max_bytes answers late (read_rounds max_bytes [] answers) body
      (read_rounds-IsRead max_bytes [] answers refl) h
