-- ===== src/Event/Loop.antt =====
-- What the event loop keeps.
use networking.Prelude.{
  ℕ, zero, suc, ◌<◌, ◌≡◌, refl, ap, ◌∙◌, List, [], ◌∷◌, Bool, true, false, if◌then◌else◌, All,
  arith, codes, length, Bool-cases, Option-cases, inl, inr,
}
use networking.Logging.{
  Log, Event, Action, line_action, text_action, begin_action, end_action, terminate, death, call,
  line_start, begin_category, end_category, put_string, put_lines, find_newline,
}
use networking.Event.{finished, asleep, run_action, enter, ends, announce, is_named, name_text}

module _ (time_text : ℕ → List ℕ) where
  indent-put_lines :
      (fuel : ℕ) (val : List ℕ) (l : Log) → (put_lines time_text fuel val l).indent ≡ l.indent
  unfolding put_lines line_start
  indent-put_lines zero val l = refl
  indent-put_lines (suc fuel) val l = elim (Option-cases (find_newline val)) [
    | inl e ↦ rw (e, put_lines) refl
    | inr ((section, rest), e) ↦ rw (e, put_lines) (indent-put_lines fuel rest _)
  ]

  indent-put_string : (val : List ℕ) (l : Log) → (put_string time_text val l).indent ≡ l.indent
  unfolding put_string
  indent-put_string val l = indent-put_lines (length val) val l

  indent-begin : (l : Log) → l.indent < 255 → (begin_category time_text l).indent ≡ suc l.indent
  unfolding begin_category line_start
  indent-begin l h = ground arith

  indent-end : (l : Log) (n : ℕ) → l.indent ≡ suc n → (end_category time_text l).indent ≡ n
  unfolding end_category line_start
  indent-end l n h = ground arith

  -- An action that opens or closes no category.
  abbrev pub IsFlat : Action → Type 0
  IsFlat (line_action text) = Unit {0}
  IsFlat (text_action text) = Unit {0}
  IsFlat begin_action = ⊥
  IsFlat end_action = ⊥
  IsFlat terminate = Unit {0}
  IsFlat (death n status) = Unit {0}
  IsFlat (call f) = (l : Log) → (f l).indent ≡ l.indent

  indent-run_action :
      (verb_event : Bool) (update : Log → Log) (a : Action) (l : Log)
      → IsFlat a
      → (run_action time_text verb_event update a l).indent ≡ l.indent
  unfolding run_action line_start
  indent-run_action verb_event update (line_action text) l h = refl
  indent-run_action verb_event update (text_action text) l h = indent-put_string text l
  indent-run_action verb_event update begin_action l h = absurd h
  indent-run_action verb_event update end_action l h = absurd h
  indent-run_action verb_event update terminate l h = refl
  indent-run_action verb_event update (death n status) l h = refl
  indent-run_action verb_event update (call f) l h = h l

  -- The events behind the first one that ends the loop, and whether there is one.
  abbrev pub behind_end : List Event → List Event
  behind_end [] = []
  behind_end (e ∷ queue) = if ends e.action then queue else behind_end queue

  abbrev pub has_end : List Event → Bool
  has_end [] = false
  has_end (e ∷ queue) = if ends e.action then true else has_end queue

  indent-announce :
      (verb_event : Bool) (update : Log → Log) (e : Event) (l : Log)
      → l.indent < 255
      → (announce time_text verb_event update e l).indent ≡ suc l.indent
  indent-announce verb_event update e l h =
      let same =
        indent-put_string (codes " ] ") _
        ∙ (indent-put_string (name_text e.name) _ ∙ indent-put_string (codes "EVENT_START[ ") l) in
      indent-begin _ (rw same h) ∙ ap suc same

  module _ (verb_event : Bool) (update : Log → Log) where
    -- The loop runs up to the first event that ends it, leaves those behind it queued, and goes to
    -- sleep if there is none.
    pub enter_stops :
        (queue : List Event) (logging : Bool) (l : Log)
        → ((enter time_text verb_event update queue logging l).1 ≡ behind_end queue)
          × ((enter time_text verb_event update queue logging l).2
              ≡ (if has_end queue then finished else asleep))
    unfolding enter
    enter_stops [] logging l = (refl, refl)
    enter_stops (e ∷ queue) logging l = elim (Bool-cases (ends e.action)) [
      | inl y ↦ rw y (refl, refl)
      | inr n ↦ rw n (enter_stops queue false _)
    ]

    -- Events that leave the depth of the log alone do so in the loop, however it stops, if `logging`
    -- happens to be false at the start and the depth is below 255.
    pub indent-enter :
        (queue : List Event) (l : Log)
        → All (λ e. IsFlat e.action) queue
        → ((x : Log) → (update x).indent ≡ x.indent)
        → l.indent < 255
        → (enter time_text verb_event update queue false l).0.indent ≡ l.indent
    unfolding enter
    indent-enter [] l v u h = refl
    indent-enter (e ∷ queue) l (v, vs) u h =
        let opened = indent-announce verb_event update e l h in
        let ran = λ (x : Log). indent-run_action verb_event update e.action x v in
        let more = λ (x : Log) (q : x.indent ≡ l.indent).
          indent-enter queue (update x) vs u (rw (u x, q) h) ∙ (u x ∙ q) in
        elim (Bool-cases (if is_named e.name then verb_event else false)) [
          | inl y ↦ elim (Bool-cases (ends e.action)) [
            | inl z ↦ rw (y, z) (indent-end _ l.indent opened)
            | inr z ↦ rw (y, z) (more _ (indent-end _ l.indent (ran _ ∙ opened)))
          ]
          | inr y ↦ elim (Bool-cases (ends e.action)) [
            | inl z ↦ rw (y, z) refl
            | inr z ↦ rw (y, z) (more _ (ran l))
          ]
        ]
