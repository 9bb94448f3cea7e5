-- ===== src/Scheduler/Signals.antt =====
-- Every death of an agent that a signal reports is queued once, in order, and its agent is known.
use networking.Prelude.{
  ℕ, ◌≡◌, refl, ap, ◌∙◌, sym, List, [], ◌∷◌, ◌++◌, Bool, true, false, ltb, ◌==◌, ◌||◌,
  if◌then◌else◌, Option, none, some, length, codes, decimal, All, All-append, arith, append_assoc,
  append-nil, Bool-cases, inl, inr,
}
use networking.Logging.{World, Event, Action, death, flush, append_string, append_value, endl}
use networking.Event.{push}
use networking.Scheduler.{
  Scheduler, add_agent, verb_sched, say_death, one_death, is_expected, handle_chld, handle_prnt,
  handle_sig,
}

-- A signal: whether the thread of the event queue handles it, its number, and what waitpid returns.
pub record Signal : Type 0 where
  pub here : Bool
  pub signo : ℕ
  pub children : List (ℕ × ℕ)

abbrev if_named : Option (List ℕ) → Action → List Event
if_named none a = []
if_named (some name) a = record { name = some name; action = a } ∷ []

-- The queued events, but for those of the log, which have no name.
abbrev pub named : List Event → List Event
named [] = []
named (e ∷ es) = if_named e.name e.action ++ named es

-- An event for each child, with its number and its status.
abbrev death_event : ℕ × ℕ → Event
death_event (n, status) = record { name = some (codes "&Agent::death"); action = death n status }

abbrev pub deaths_of : List (ℕ × ℕ) → List Event
deaths_of [] = []
deaths_of (child ∷ children) = death_event child ∷ deaths_of children

-- The children that a list of signals reports.
abbrev pub reported : List Signal → List (ℕ × ℕ)
reported [] = []
reported (g ∷ gs) = (if g.signo == 17 then g.children else []) ++ reported gs

abbrev pub is_known : ℕ → List ℕ → Bool
is_known n [] = false
is_known n (a ∷ agents) = (n == a) || is_known n agents

named-append : (es fs : List Event) → named (es ++ fs) ≡ named es ++ named fs
named-append [] fs = refl
named-append (e ∷ es) fs =
    ap (λ k. if_named e.name e.action ++ k) (named-append es fs)
    ∙ sym (append_assoc (if_named e.name e.action) (named es) (named fs))

named-own :
    (es : List Event) (a : Action)
    → named (es ++ record { name = none; action = a } ∷ []) ≡ named es
named-own es a = named-append es (record { name = none; action = a } ∷ []) ∙ append-nil (named es)

deaths_of-append : (ms ns : List (ℕ × ℕ)) → deaths_of (ms ++ ns) ≡ deaths_of ms ++ deaths_of ns
deaths_of-append [] ns = refl
deaths_of-append (m ∷ ms) ns = ap (◌∷◌ (death_event m)) (deaths_of-append ms ns)

module _ (time_text : ℕ → List ℕ) where
  named-append_value :
      (here : Bool) (text : List ℕ) (w : World)
      → named (append_value time_text here text w).queue ≡ named w.queue
  unfolding append_value flush
  named-append_value true text w = refl
  named-append_value false text w =
      elim (Bool-cases (ltb w.log.max_buffer (length (w.log.buff ++ text)))) [
        | inl full ↦ rw full (named-own w.queue _)
        | inr fits ↦ rw fits refl
      ]

  named-append_string :
      (here : Bool) (text : List ℕ) (w : World)
      → named (append_string time_text here text w).queue ≡ named w.queue
  unfolding append_string flush
  named-append_string true text w = refl
  named-append_string false text w =
      elim (Bool-cases (ltb w.log.max_buffer (length (w.log.buff ++ text)))) [
        | inl full ↦ rw full (named-own w.queue _)
        | inr fits ↦ rw fits refl
      ]

  named-endl : (here : Bool) (w : World) → named (endl time_text here w).queue ≡ named w.queue
  unfolding endl
  named-endl true w = refl
  named-endl false w = named-own w.queue _

  known_self : (n : ℕ) (agents : List ℕ) → is_known n (add_agent n agents) ≡ true
  known_self n [] = ground arith
  known_self n (a ∷ agents) = ground (arith, known_self n agents)

  known_still :
      (m n : ℕ) (agents : List ℕ)
      → is_known m agents ≡ true
      → is_known m (add_agent n agents) ≡ true
  known_still m n [] h = cc
  known_still m n (a ∷ agents) h = ground (arith, known_still m n agents)

  named-say_death :
      (logged here : Bool) (n : ℕ) (w : World)
      → named (say_death time_text [] logged here n w).queue ≡ named w.queue
  named-say_death true here n w =
      named-endl here _ ∙ named-append_value here (decimal n) _ ∙ named-append_string here _ w
  named-say_death false here n w = refl

  module _ (file : List ℕ) where
    named-one_death :
        (here : Bool) (n status : ℕ) (s : Scheduler)
        → named (one_death time_text file here n status s).world.queue
          ≡ named s.world.queue ++ death_event (n, status) ∷ []
    unfolding one_death push
    named-one_death here n status s =
        named-append (say_death time_text file (verb_sched s) here n s.world).queue
          (death_event (n, status) ∷ [])
        ∙ ap (λ k. k ++ death_event (n, status) ∷ [])
            (named-say_death (verb_sched s) here n s.world)

    named-handle_chld :
        (here : Bool) (children : List (ℕ × ℕ)) (s : Scheduler)
        → named (handle_chld time_text file here children s).world.queue
          ≡ named s.world.queue ++ deaths_of children
    unfolding handle_chld
    named-handle_chld here [] s = sym (append-nil (named s.world.queue))
    named-handle_chld here ((n, status) ∷ children) s =
        named-handle_chld here children (one_death time_text file here n status s)
        ∙ ap (λ k. k ++ deaths_of children) (named-one_death here n status s)
        ∙ append_assoc (named s.world.queue) (death_event (n, status) ∷ []) (deaths_of children)

    named-handle_prnt :
        (here : Bool) (signo : ℕ) (s : Scheduler)
        → named (handle_prnt time_text file here signo s).world.queue ≡ named s.world.queue
    unfolding handle_prnt
    named-handle_prnt here signo s = elim (Bool-cases (is_expected time_text file signo)) [
      | inl known ↦ rw known refl
      | inr unknown ↦ rw unknown (
          named-endl here _
          ∙ named-append_value here (decimal signo) _
          ∙ named-append_string here _ _
          ∙ named-append_string here _ _
          ∙ named-append_value here _ _
          ∙ named-append_string here _ _
          ∙ named-append_string here _ _
          ∙ named-append_string here _ s.world)
    ]

    known-handle_chld :
        (m : ℕ) (here : Bool) (children : List (ℕ × ℕ)) (s : Scheduler)
        → is_known m s.agents ≡ true
        → is_known m (handle_chld time_text file here children s).agents ≡ true
    unfolding handle_chld one_death
    known-handle_chld m here [] s h = h
    known-handle_chld m here ((n, status) ∷ children) s h =
        known-handle_chld m here children (one_death time_text file here n status s)
          (known_still m n s.agents h)

    children_known :
        (here : Bool) (children : List (ℕ × ℕ)) (s : Scheduler)
        → All
            (λ m. is_known m.0 (handle_chld time_text file here children s).agents ≡ true)
            children
    unfolding handle_chld one_death
    children_known here [] s = tt
    children_known here ((n, status) ∷ children) s = (
      known-handle_chld n here children (one_death time_text file here n status s)
          (known_self n s.agents),
      children_known here children (one_death time_text file here n status s),
    )

    -- The signals of a history, one after the other.
    unfoldable pub handle_all : List Signal → Scheduler → Scheduler
    handle_all [] s = s
    handle_all (g ∷ gs) s = handle_all gs (handle_sig time_text file g.here g.signo g.children s)

    named-handle_sig :
        (g : Signal) (s : Scheduler)
        → named (handle_sig time_text file g.here g.signo g.children s).world.queue
          ≡ named s.world.queue ++ deaths_of (if g.signo == 17 then g.children else [])
    unfolding handle_sig
    named-handle_sig g s = elim (Bool-cases (g.signo == 17)) [
      | inl child ↦ rw child (named-handle_chld g.here g.children s)
      | inr other ↦
          rw other (named-handle_prnt g.here g.signo s ∙ sym (append-nil (named s.world.queue)))
    ]

    known-handle_sig :
        (m : ℕ) (g : Signal) (s : Scheduler)
        → is_known m s.agents ≡ true
        → is_known m (handle_sig time_text file g.here g.signo g.children s).agents ≡ true
    unfolding handle_sig handle_prnt
    known-handle_sig m g s h = elim (Bool-cases (g.signo == 17)) [
      | inl child ↦ rw child (known-handle_chld m g.here g.children s h)
      | inr other ↦ elim (Bool-cases (is_expected time_text file g.signo)) [
        | inl fine ↦ rw (other, fine) h
        | inr unknown ↦ rw (other, unknown) h
      ]
    ]

    known-handle_all :
        (m : ℕ) (gs : List Signal) (s : Scheduler)
        → is_known m s.agents ≡ true
        → is_known m (handle_all gs s).agents ≡ true
    unfolding handle_all
    known-handle_all m [] s h = h
    known-handle_all m (g ∷ gs) s h = known-handle_all m gs _ (known-handle_sig m g s h)

    named-handle_all :
        (gs : List Signal) (s : Scheduler)
        → named (handle_all gs s).world.queue ≡ named s.world.queue ++ deaths_of (reported gs)
    unfolding handle_all
    named-handle_all [] s = sym (append-nil (named s.world.queue))
    named-handle_all (g ∷ gs) s =
        named-handle_all gs (handle_sig time_text file g.here g.signo g.children s)
        ∙ ap (λ k. k ++ deaths_of (reported gs)) (named-handle_sig g s)
        ∙ append_assoc (named s.world.queue) (deaths_of (if g.signo == 17 then g.children else []))
            (deaths_of (reported gs))
        ∙ ap (λ k. named s.world.queue ++ k)
            (sym (deaths_of-append (if g.signo == 17 then g.children else []) (reported gs)))

    known_after :
        (gs : List Signal) (ms : List (ℕ × ℕ)) (s : Scheduler)
        → All (λ m. is_known m.0 s.agents ≡ true) ms
        → All (λ m. is_known m.0 (handle_all gs s).agents ≡ true) ms
    known_after gs [] s h = tt
    known_after gs (m ∷ ms) s (h, hs) = (known-handle_all m.0 gs s h, known_after gs ms s hs)

    signalled_known :
        (g : Signal) (s : Scheduler)
        → All
            (λ m.
              is_known m.0 (handle_sig time_text file g.here g.signo g.children s).agents ≡ true)
            (if g.signo == 17 then g.children else [])
    unfolding handle_sig
    signalled_known g s = elim (Bool-cases (g.signo == 17)) [
      | inl child ↦ rw child (children_known g.here g.children s)
      | inr other ↦ rw other tt
    ]

    reported_known :
        (gs : List Signal) (s : Scheduler)
        → All (λ m. is_known m.0 (handle_all gs s).agents ≡ true) (reported gs)
    unfolding handle_all
    reported_known [] s = tt
    reported_known (g ∷ gs) s =
        let s' = handle_sig time_text file g.here g.signo g.children s in
        let children = if g.signo == 17 then g.children else [] in
        All-append _ children (reported gs) (known_after gs children s' (signalled_known g s))
          (reported_known gs s')

    -- However many signals come, and whether or not the thread of the event queue handles them: behind
    -- the named events that were queued before, one event for each child that a SIGCHLD reports is
    -- queued, with the child's number and status, in their order, other signals queue no named event,
    -- and the agents of all of these children are known at the end.
    pub reports_deaths :
        (gs : List Signal) (s : Scheduler)
        → (named (handle_all gs s).world.queue ≡ named s.world.queue ++ deaths_of (reported gs))
          × All (λ m. is_known m.0 (handle_all gs s).agents ≡ true) (reported gs)
    reports_deaths gs s = (named-handle_all gs s, reported_known gs s)
