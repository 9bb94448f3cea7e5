-- ===== src/Event/Threads/Settled.antt =====
-- The log that is left once the queue is worked off, and what a call of another thread does to it.
use networking.Prelude.{
  ℕ, ◌≡◌, refl, ap, ◌∙◌, sym, List, [], ◌∷◌, ◌++◌, Bool, true, false, none, ltb, ◌==◌, length,
  codes, arith, append_assoc, append-nil, Bool-cases, inl, inr,
}
use networking.Logging.{
  Log, World, Event, Action, line_action, text_action, begin_action, end_action, terminate, death,
  call, put, find_newline, line_start, begin_category, end_category, put_string, signal, flush,
  endl, append_value,
}
use networking.Logging.Lines.{put_string-emit, emit_plain}
use networking.Event.{run_action}
use networking.Event.Threads.{
  Call, string, value, line, flushing, begin_block, end_block, Move, calling, taking, log_call,
  handle,
}

-- A text without a newline.
abbrev pub IsPlain : List ℕ → Type 0
IsPlain text = find_newline text ≡ none

abbrev pub IsPlainCall : Call → Type 0
IsPlainCall (string text) = IsPlain text
IsPlainCall (value text) = IsPlain text
IsPlainCall line = Unit {0}
IsPlainCall flushing = Unit {0}
IsPlainCall begin_block = Unit {0}
IsPlainCall end_block = Unit {0}

abbrev pub IsPlainMove : Move → Type 0
IsPlainMove (calling c) = IsPlainCall c
IsPlainMove taking = Unit {0}

pub append-IsPlain : (xs ys : List ℕ) → IsPlain xs → IsPlain ys → IsPlain (xs ++ ys)
unfolding find_newline
append-IsPlain [] ys h k = k
append-IsPlain (x ∷ xs) ys h k = elim (Bool-cases (x == b'\n')) [
  | inl newline ↦ absurd (ground arith)
  | inr other ↦ rw (other, append-IsPlain xs ys (ground arith) k) refl
]

-- The events of the log's own members.
abbrev pub IsOwnAction : Action → Type 0
IsOwnAction (line_action text) = IsPlain text
IsOwnAction (text_action text) = IsPlain text
IsOwnAction begin_action = Unit {0}
IsOwnAction end_action = Unit {0}
IsOwnAction terminate = ⊥
IsOwnAction (death n status) = ⊥
IsOwnAction (call f) = ⊥

abbrev pub IsOwn : Event → Type 0
IsOwn e = (e.name ≡ none) × IsOwnAction e.action

module _ (time_text : ℕ → List ℕ) (verb_event : Bool) where
  put_string_plain :
      (text : List ℕ) (l : Log) → IsPlain text → put_string time_text text l ≡ put text l
  put_string_plain text l h = put_string-emit time_text text l ∙ emit_plain time_text text l h

  pub act : Action → Log → Log
  act (line_action text) l = line_start time_text (put (codes "\n") (put text l))
  act (text_action text) l = put text l
  act begin_action l = begin_category time_text l
  act end_action l = end_category time_text l
  act terminate l = l
  act (death n status) l = l
  act (call f) l = l

  pub run_action-act :
      (a : Action) (l : Log)
      → IsOwnAction a
      → run_action time_text verb_event (λ l. l) a l ≡ act a l
  unfolding run_action act
  run_action-act (line_action text) l h = refl
  run_action-act (text_action text) l h = put_string_plain text l h
  run_action-act begin_action l h = refl
  run_action-act end_action l h = refl
  run_action-act terminate l h = absurd h
  run_action-act (death n status) l h = absurd h
  run_action-act (call f) l h = absurd h

  pub handle-act :
      (e : Event) (l : Log) → IsOwn e → handle time_text verb_event e l ≡ act e.action l
  unfolding handle
  handle-act e l (n, h) = rw (n, handle) (run_action-act e.action l h)

  -- What the queued events will do.
  unfoldable pub drain : List Event → Log → Log
  drain [] l = l
  drain (e ∷ es) l = drain es (act e.action l)

  drain-append :
      (es : List Event) (e : Event) (l : Log) → drain (es ++ e ∷ []) l ≡ act e.action (drain es l)
  unfolding drain
  drain-append [] e l = refl
  drain-append (d ∷ es) e l = drain-append es e (act d.action l)

  abbrev pub with_buff : List ℕ → Log → Log
  with_buff b l = record l { buff = b }

  act-with_buff :
      (a : Action) (b : List ℕ) (l : Log) → act a (with_buff b l) ≡ with_buff b (act a l)
  unfolding act line_start begin_category end_category
  act-with_buff (line_action text) b l = refl
  act-with_buff (text_action text) b l = refl
  act-with_buff begin_action b l = refl
  act-with_buff end_action b l = elim (Bool-cases (ltb 0 l.indent)) [
    | inl inside ↦ rw inside refl
    | inr outside ↦ rw outside refl
  ]
  act-with_buff terminate b l = refl
  act-with_buff (death n status) b l = refl
  act-with_buff (call f) b l = refl

  drain-with_buff :
      (es : List Event) (b : List ℕ) (l : Log) → drain es (with_buff b l) ≡ with_buff b (drain es l)
  unfolding drain
  drain-with_buff [] b l = refl
  drain-with_buff (e ∷ es) b l =
      ap (drain es) (act-with_buff e.action b l) ∙ drain-with_buff es b (act e.action l)

  pub act-buff : (a : Action) (l : Log) → (act a l).buff ≡ l.buff
  unfolding act line_start begin_category end_category
  act-buff (line_action text) l = refl
  act-buff (text_action text) l = refl
  act-buff begin_action l = refl
  act-buff end_action l = elim (Bool-cases (ltb 0 l.indent)) [
    | inl inside ↦ rw inside refl
    | inr outside ↦ rw outside refl
  ]
  act-buff terminate l = refl
  act-buff (death n status) l = refl
  act-buff (call f) l = refl

  -- The log once the queue is worked off and the buffer written behind it.
  unfoldable pub settled : World → Log
  settled w = put w.log.buff (with_buff [] (drain w.queue w.log))

  pub put-nil : (l : Log) → put [] l ≡ l
  put-nil l = ap (λ o. record l { ostr = o }) (append-nil l.ostr)

  settled-text :
      (text : List ℕ) (w : World)
      → settled (record w { log = with_buff (w.log.buff ++ text) w.log }) ≡ put text (settled w)
  unfolding settled
  settled-text text w =
      ap (λ l. put (w.log.buff ++ text) (with_buff [] l))
        (drain-with_buff w.queue (w.log.buff ++ text) w.log)
      ∙ ap (λ o. record (with_buff [] (drain w.queue w.log)) { ostr = o })
          (sym (append_assoc (drain w.queue w.log).ostr w.log.buff text))

  pub settled-flush : (w : World) → settled (flush time_text false w) ≡ settled w
  unfolding settled flush act
  settled-flush w =
      put-nil _
      ∙ ap (with_buff []) (
          drain-append w.queue (record { name = none; action = text_action w.log.buff })
            (with_buff [] w.log))
      ∙ ap (λ l. with_buff [] (put w.log.buff l)) (drain-with_buff w.queue [] w.log)

  settled-line :
      (w : World)
      → settled (endl time_text false w) ≡ line_start time_text (put (codes "\n") (settled w))
  unfolding settled endl act line_start
  settled-line w =
      put-nil _
      ∙ ap (with_buff []) (
          drain-append w.queue (record { name = none; action = line_action w.log.buff })
            (with_buff [] w.log))
      ∙ ap (λ l. with_buff [] (line_start time_text (put (codes "\n") (put w.log.buff l))))
          (drain-with_buff w.queue [] w.log)

  settled-signal :
      (a : Action) (w : World) → w.log.buff ≡ [] → settled (signal a w) ≡ act a (settled w)
  unfolding settled
  settled-signal a w h =
      ap
        (λ b.
          put b (with_buff [] (drain (w.queue ++ record { name = none; action = a } ∷ []) w.log)))
        h
      ∙ put-nil _
      ∙ ap (with_buff []) (drain-append w.queue (record { name = none; action = a }) w.log)
      ∙ sym (act-with_buff a [] (drain w.queue w.log))
      ∙ ap (act a) (sym (put-nil _) ∙ ap (λ b. put b (with_buff [] (drain w.queue w.log))) (sym h))

  settled-append :
      (text : List ℕ) (w : World)
      → settled (append_value time_text false text w) ≡ put text (settled w)
  unfolding append_value
  settled-append text w =
      let w' = record w { log = with_buff (w.log.buff ++ text) w.log } in
      elim (Bool-cases (ltb w.log.max_buffer (length (w.log.buff ++ text)))) [
        | inl full ↦ rw full (settled-flush w' ∙ settled-text text w)
        | inr fits ↦ rw fits (settled-text text w)
      ]

  abbrev directly : Call → Log → Log
  directly c l = (log_call time_text true c (record { log = l; queue = [] })).log

  -- A call of another thread does, in the end, what a direct call would.
  pub settled-call :
      (c : Call) (w : World)
      → IsPlainCall c
      → settled (log_call time_text false c w) ≡ directly c (settled w)
  unfolding log_call append_value act
  settled-call (string text) w h = settled-append text w ∙ sym (put_string_plain text (settled w) h)
  settled-call (value text) w h = settled-append text w
  settled-call line w h = settled-line w
  settled-call flushing w h = settled-flush w
  settled-call begin_block w h =
      settled-signal begin_action (flush time_text false w) refl
      ∙ ap (act begin_action) (settled-flush w)
  settled-call end_block w h =
      settled-signal end_action (flush time_text false w) refl
      ∙ ap (act end_action) (settled-flush w)
