-- ===== src/Logging/Lines.antt =====
-- Strings with newlines, and the depth of categories.
use networking.Prelude.{
  ℕ, zero, suc, ◌<◌, ◌≤◌, ◌≡◌, refl, ap, ◌∙◌, sym, List, [], ◌∷◌, ◌++◌, true, false, none, some,
  ◌==◌, if◌then◌else◌, length, codes, arith, append_assoc, append-nil, Bool-cases, Option-cases,
  inl, inr,
}
use networking.Logging.{
  Log, put, line_start, begin_category, end_category, find_newline, put_lines, put_string,
}

module _ (time_text : ℕ → List ℕ) where
  -- Byte for byte, with the head of a line behind every newline.
  abbrev pub emit : List ℕ → Log → Log
  emit [] l = l
  emit (c ∷ cs) l =
      emit cs (if c == b'\n' then line_start time_text (put (c ∷ []) l) else put (c ∷ []) l)

  put-put : (xs ys : List ℕ) (l : Log) → put ys (put xs l) ≡ put (xs ++ ys) l
  put-put xs ys l = ap (λ o. record l { ostr = o }) (append_assoc l.ostr xs ys)

  put-nil : (l : Log) → put [] l ≡ l
  put-nil l = ap (λ o. record l { ostr = o }) (append-nil l.ostr)

  -- How the text splits at its first newline, and what emit does with it.
  pub emit_plain : (val : List ℕ) (l : Log) → find_newline val ≡ none → emit val l ≡ put val l
  unfolding find_newline
  emit_plain [] l e = sym (put-nil l)
  emit_plain (c ∷ cs) l e = elim (Bool-cases (c == b'\n')) [
    | inl newline ↦ absurd (ground arith)
    | inr other ↦ rw other (emit_plain cs (put (c ∷ []) l) (ground arith) ∙ put-put (c ∷ []) cs l)
  ]

  emit_split :
      (val section rest : List ℕ) (l : Log)
      → find_newline val ≡ some (section, rest)
      → (emit val l ≡ emit rest (line_start time_text (put (codes "\n") (put section l))))
        × (length rest < length val)
  unfolding find_newline
  emit_split [] section rest l e = cc
  emit_split (c ∷ cs) section rest l e = elim (Bool-cases (c == b'\n')) [
    | inl newline ↦ rw newline (found (split_newline newline))
    | inr other ↦ elim (Option-cases (find_newline cs)) [
      | inl none_left ↦ absurd (ground arith)
      | inr ((section', rest'), e') ↦
          rw other
            (later other section' rest' e' (emit_split cs section' rest' (put (c ∷ []) l) e'))
    ]
  ]
    where
      split_newline : (c == b'\n') ≡ true → (section ≡ []) × (rest ≡ cs) × (c ≡ b'\n')
      split_newline h = ground arith

      found :
          (section ≡ []) × (rest ≡ cs) × (c ≡ b'\n')
          → (emit cs (line_start time_text (put (c ∷ []) l))
              ≡ emit rest (line_start time_text (put (codes "\n") (put section l))))
            × (length rest < suc (length cs))
      found (s, r, n) = rw (s, r, n, append-nil l.ostr) (refl, omega arith)

      later :
          (c == b'\n') ≡ false
          → (section' rest' : List ℕ) → find_newline cs ≡ some (section', rest')
          → (emit cs (put (c ∷ []) l)
              ≡ emit rest'
                  (line_start time_text (put (codes "\n") (put section' (put (c ∷ []) l)))))
            × (length rest' < length cs)
          → (emit cs (put (c ∷ []) l)
              ≡ emit rest (line_start time_text (put (codes "\n") (put section l))))
            × (length rest < suc (length cs))
      later h section' rest' e' (ih, shorter) =
          let same : (section ≡ c ∷ section') × (rest ≡ rest') = ground arith in
          rw (same.0, same.1)
            (
              ih
                  ∙ ap (λ k. emit rest' (line_start time_text (put (codes "\n") k)))
                      (put-put (c ∷ []) section' l),
              omega arith,
            )

  put_lines-emit :
      (fuel : ℕ) (val : List ℕ) (l : Log)
      → length val ≤ fuel
      → put_lines time_text fuel val l ≡ emit val l
  unfolding put_lines
  put_lines-emit zero [] l h = put-nil l
  put_lines-emit zero (c ∷ cs) l h = absurd (omega arith)
  put_lines-emit (suc fuel) val l h = elim (Option-cases (find_newline val)) [
    | inl plain ↦ rw (plain, put_lines) (sym (emit_plain val l plain))
    | inr ((section, rest), e) ↦
        let (split, shorter) = emit_split val section rest l e in
        rw (e, put_lines) (put_lines-emit fuel rest _ (omega arith) ∙ sym split)
  ]

  -- On the thread of the event queue a string comes out byte for byte, and the head of a line
  -- follows every newline.
  pub put_string-emit : (val : List ℕ) (l : Log) → put_string time_text val l ≡ emit val l
  unfolding put_string
  put_string-emit val l = put_lines-emit (length val) val l (omega arith)

  -- A category that is opened and closed leaves the depth as it was, below the depth 255.
  pub indent-category :
      (l : Log)
      → l.indent < 255
      → (end_category time_text (begin_category time_text l)).indent ≡ l.indent
  unfolding end_category begin_category line_start
  indent-category l h = ground arith

  -- A category that is opened at the depth 255 wraps the depth to 0, and its end changes nothing.
  pub indent-category_wrap :
      (l : Log)
      → l.indent ≡ 255
      → ((begin_category time_text l).indent ≡ 0)
        × (end_category time_text (begin_category time_text l) ≡ begin_category time_text l)
  unfolding end_category begin_category line_start
  indent-category_wrap l h = ground arith
