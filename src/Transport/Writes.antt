-- ===== src/Transport/Writes.antt =====
-- What anything_transport_write_response has written.
use anything_tool.Base.{
  ◌≡◌, refl, sym, ap, ◌∙◌, List, [], ◌∷◌, ◌++◌, append_assoc, append-nil, take, drop, take-drop,
  subst,
}
use anything_tool.Text.{Bytes, c_str}
use anything_tool.Transport.{
  WriteAnswer, write_interrupted, write_failed, took, Writing, written, failed, waiting,
  write_rounds, write_response,
}
use anything_tool.Transport.Reads.{IsPrefix}

-- After each outcome what is out is the text's beginning, and all of it after a return of 0.
abbrev pub IsWritten : Bytes → Writing → Type 0
IsWritten text (written out) = out ≡ text
IsWritten text (failed out) = IsPrefix out text
IsWritten text (waiting out) = IsPrefix out text

write_rounds-IsWritten :
    (out left : Bytes) (answers : List WriteAnswer)
    → IsWritten (out ++ left) (write_rounds out left answers)
unfolding write_rounds
write_rounds-IsWritten out [] answers = sym (append-nil out)
write_rounds-IsWritten out (c ∷ cs) [] = (c ∷ cs, refl)
write_rounds-IsWritten out (c ∷ cs) (write_interrupted ∷ answers) =
    write_rounds-IsWritten out (c ∷ cs) answers
write_rounds-IsWritten out (c ∷ cs) (write_failed ∷ answers) = (c ∷ cs, refl)
write_rounds-IsWritten out (c ∷ cs) (took n ∷ answers) =
    subst (λ t. IsWritten t (write_rounds (out ++ take n (c ∷ cs)) (drop n (c ∷ cs)) answers))
      (append_assoc out (take n (c ∷ cs)) (drop n (c ∷ cs))
        ∙ ap (λ t. out ++ t) (take-drop n (c ∷ cs)))
      (write_rounds-IsWritten (out ++ take n (c ∷ cs)) (drop n (c ∷ cs)) answers)

-- However the calls of write split, interrupt or end it, what has reached the peer is the
-- beginning of the response up to its NUL, and the whole of it where the call returns 0.
pub write_response-IsWritten :
    (response : Bytes) (answers : List WriteAnswer)
    → IsWritten (c_str response) (write_response response answers)
unfolding write_response
write_response-IsWritten response answers = write_rounds-IsWritten [] (c_str response) answers
