-- ===== src/Logging/Buffer.antt =====
-- What another thread logs waits in the buffer and the queue, in order.
use networking.Prelude.{
  ℕ, ◌≤◌, ◌≡◌, refl, ap, ◌∙◌, sym, List, [], ◌∷◌, ◌++◌, false, ltb, length, arith, append_assoc,
  append-nil, Bool-cases, inl, inr,
}
use networking.Logging.{
  World, Event, Action, line_action, text_action, begin_action, end_action, terminate, death, call,
  flush, endl, catb, cate, append_string,
}

-- The text that an action brings to the log.
abbrev pub text_of : Action → List ℕ
text_of (line_action text) = text
text_of (text_action text) = text
text_of begin_action = []
text_of end_action = []
text_of terminate = []
text_of (death n status) = []
text_of (call f) = []

abbrev pub texts : List Event → List ℕ
texts [] = []
texts (e ∷ es) = text_of e.action ++ texts es

-- All text on its way to the log, oldest first.
abbrev pub pending : World → List ℕ
pending w = texts w.queue ++ w.log.buff

texts-append : (es fs : List Event) → texts (es ++ fs) ≡ texts es ++ texts fs
texts-append [] fs = refl
texts-append (e ∷ es) fs =
    ap (◌++◌ (text_of e.action)) (texts-append es fs)
    ∙ sym (append_assoc (text_of e.action) (texts es) (texts fs))

ruleset laws = (texts-append, append-nil, append_assoc)

module _ (time_text : ℕ → List ℕ) where
  -- From another thread, flush, endl, catb and cate lose no text and change no order, and leave the
  -- buffer empty.
  pub flush-pending :
      (w : World)
      → (pending (flush time_text false w) ≡ pending w)
        × (pending (endl time_text false w) ≡ pending w)
        × (pending (catb time_text false w) ≡ pending w)
        × (pending (cate time_text false w) ≡ pending w)
  unfolding flush endl catb cate
  flush-pending w = (simp laws, simp laws, simp laws, simp laws)

  -- From another thread a string joins what is pending at its end, and never leaves more in the
  -- buffer than its limit.
  pub append_string-pending :
      (val : List ℕ) (w : World)
      → (pending (append_string time_text false val w) ≡ pending w ++ val)
        × (length (append_string time_text false val w).log.buff ≤ w.log.max_buffer)
  unfolding append_string
  append_string-pending val w =
      elim (Bool-cases (ltb w.log.max_buffer (length (w.log.buff ++ val)))) [
        | inl full ↦ rw (full, flush) (simp laws, omega arith)
        | inr fits ↦ rw fits (simp laws, ground arith)
      ]
