-- ===== src/Event/Threads/Direct.antt =====
-- Logging by way of the event queue leaves the log that direct logging would.
use networking.Prelude.{
  ℕ, ◌≡◌, refl, ap, ◌∙◌, sym, subst, List, [], ◌∷◌, ◌++◌, Bool, false, none, ltb, length, All,
  Bool-cases, inl, inr,
}
use networking.Logging.{
  Log, World, Event, Action, line_action, text_action, begin_action, end_action, terminate, death,
  call, put, find_newline, signal, flush, endl, append_value,
}
use networking.Event.{finished, enter, ends}
use networking.Event.Threads.{
  Call, string, value, line, flushing, begin_block, end_block, Move, calling, taking, log_call,
  handle, take_first, do_move, run_moves, direct,
}
use networking.Event.Threads.Settled.{
  IsPlain, IsPlainCall, IsPlainMove, append-IsPlain, IsOwnAction, IsOwn, act, run_action-act,
  handle-act, drain, with_buff, act-buff, settled, put-nil, settled-flush, settled-call,
}

module _ (time_text : ℕ → List ℕ) (verb_event : Bool) where
  record IsLogging (w : World) : Type 0 where
    pub own : All IsOwn w.queue
    pub plain : IsPlain w.log.buff

  All-snoc : (es : List Event) (e : Event) → All IsOwn es → IsOwn e → All IsOwn (es ++ e ∷ [])
  All-snoc [] e v h = (h, tt)
  All-snoc (d ∷ es) e (v, vs) h = (v, All-snoc es e vs h)

  flush-buff : (w : World) → (flush time_text false w).log.buff ≡ []
  unfolding flush
  flush-buff w = refl

  flush-IsLogging : (w : World) → IsLogging w → IsLogging (flush time_text false w)
  unfolding flush find_newline
  flush-IsLogging w v = record { own = All-snoc w.queue _ v.own (refl, v.plain); plain = refl }

  append-IsLogging :
      (text : List ℕ) (w : World)
      → IsPlain text
      → IsLogging w
      → IsLogging (append_value time_text false text w)
  unfolding append_value
  append-IsLogging text w h v =
      let w' = record w { log = with_buff time_text verb_event (w.log.buff ++ text) w.log } in
      let v' : IsLogging w' = record {
        own = v.own;
        plain = append-IsPlain w.log.buff text v.plain h;
      } in
      elim (Bool-cases (ltb w.log.max_buffer (length (w.log.buff ++ text)))) [
        | inl full ↦ rw full (flush-IsLogging w' v')
        | inr fits ↦ rw fits v'
      ]

  call-IsLogging :
      (c : Call) (w : World)
      → IsPlainCall c
      → IsLogging w
      → IsLogging (log_call time_text false c w)
  unfolding log_call append_value flush find_newline endl
  call-IsLogging (string text) w h v = append-IsLogging text w h v
  call-IsLogging (value text) w h v = append-IsLogging text w h v
  call-IsLogging line w h v = record {
    own = All-snoc w.queue _ v.own (refl, v.plain);
    plain = refl;
  }
  call-IsLogging flushing w h v = flush-IsLogging w v
  call-IsLogging begin_block w h v = record {
    own = All-snoc _ _ (flush-IsLogging w v).own (refl, tt);
    plain = refl;
  }
  call-IsLogging end_block w h v = record {
    own = All-snoc _ _ (flush-IsLogging w v).own (refl, tt);
    plain = refl;
  }

  -- One round of the loop changes nothing of what is settled.
  settled-take :
      (queue : List Event) (w : World)
      → w.queue ≡ queue
      → All IsOwn queue
      → settled time_text verb_event (take_first time_text verb_event queue w)
        ≡ settled time_text verb_event w
  unfolding settled drain
  settled-take [] w h v = refl
  settled-take (e ∷ queue) w h (v, vs) =
      ap (λ l. settled time_text verb_event (record { log = l; queue = queue }))
        (handle-act time_text verb_event e w.log v)
      ∙ ap
          (λ b. put b (
            with_buff time_text verb_event []
              (drain time_text verb_event queue (act time_text verb_event e.action w.log))))
          (act-buff time_text verb_event e.action w.log)
      ∙ ap
          (λ q.
            put w.log.buff (with_buff time_text verb_event [] (drain time_text verb_event q w.log)))
          (sym h)

  take-IsLogging :
      (queue : List Event) (w : World)
      → w.queue ≡ queue
      → IsLogging w
      → IsLogging (take_first time_text verb_event queue w)
  take-IsLogging [] w h v = v
  take-IsLogging (e ∷ queue) w h v =
      let (o, os) = subst (All IsOwn) h v.own in
      let same : (handle time_text verb_event e w.log).buff ≡ w.log.buff =
        ap (λ l. l.buff) (handle-act time_text verb_event e w.log o)
        ∙ act-buff time_text verb_event e.action w.log in
      record { own = os; plain = rw same v.plain }

  move-IsLogging :
      (m : Move) (w : World)
      → IsPlainMove m
      → IsLogging w
      → IsLogging (do_move time_text verb_event m w)
  unfolding do_move
  move-IsLogging (calling c) w h v = call-IsLogging c w h v
  move-IsLogging taking w h v = take-IsLogging w.queue w refl v

  run_moves-IsLogging :
      (ms : List Move) (w : World)
      → All IsPlainMove ms
      → IsLogging w
      → IsLogging (run_moves time_text verb_event ms w)
  unfolding run_moves
  run_moves-IsLogging [] w h v = v
  run_moves-IsLogging (m ∷ ms) w (h, hs) v = run_moves-IsLogging ms _ hs (move-IsLogging m w h v)

  settled-run_moves :
      (ms : List Move) (w : World)
      → All IsPlainMove ms
      → IsLogging w
      → settled time_text verb_event (run_moves time_text verb_event ms w)
        ≡ direct time_text ms (settled time_text verb_event w)
  unfolding run_moves do_move direct
  settled-run_moves [] w h v = refl
  settled-run_moves (calling c ∷ ms) w (h, hs) v =
      settled-run_moves ms _ hs (call-IsLogging c w h v)
      ∙ ap (direct time_text ms) (settled-call time_text verb_event c w h)
  settled-run_moves (taking ∷ ms) w (h, hs) v =
      settled-run_moves ms _ hs (take-IsLogging w.queue w refl v)
      ∙ ap (direct time_text ms) (settled-take w.queue w refl v.own)

  abbrev last_event : Event
  last_event = record { name = none; action = terminate }

  own_goes_on : (a : Action) → IsOwnAction a → ends a ≡ false
  own_goes_on (line_action text) h = refl
  own_goes_on (text_action text) h = refl
  own_goes_on begin_action h = refl
  own_goes_on end_action h = refl
  own_goes_on terminate h = absurd h
  own_goes_on (death n status) h = absurd h
  own_goes_on (call f) h = absurd h

  enter-drain :
      (es : List Event) (l : Log)
      → All IsOwn es
      → enter time_text verb_event (λ l. l) (es ++ last_event ∷ []) false l
        ≡ (drain time_text verb_event es l, [], finished)
  unfolding enter drain
  enter-drain [] l h = refl
  enter-drain (e ∷ es) l ((n, h), hs) =
      rw (n, own_goes_on e.action h, run_action-act time_text verb_event e.action l h)
        (enter-drain es (act time_text verb_event e.action l) hs)

  drain-buff : (es : List Event) (l : Log) → (drain time_text verb_event es l).buff ≡ l.buff
  unfolding drain
  drain-buff [] l = refl
  drain-buff (e ∷ es) l =
      drain-buff es (act time_text verb_event e.action l) ∙ act-buff time_text verb_event e.action l

  settled-drain :
      (w : World)
      → w.log.buff ≡ []
      → settled time_text verb_event w ≡ drain time_text verb_event w.queue w.log
  unfolding settled
  settled-drain w h =
      ap (λ b. put b (with_buff time_text verb_event [] (drain time_text verb_event w.queue w.log)))
        h
      ∙ put-nil time_text verb_event _
      ∙ ap (λ b. with_buff time_text verb_event b (drain time_text verb_event w.queue w.log))
          (sym (drain-buff w.queue w.log ∙ h))

  -- Whatever the interleaving of a thread that logs texts without newlines and of the loop, from an
  -- empty queue and buffer on: once the thread has flushed and queued the end of the loop, the loop
  -- ends with an empty queue, and with the log that the same calls would have left if the thread of
  -- the event queue had made them itself, provided that `logging`, which the loop does not
  -- initialise, happens to be false.
  pub enter-direct :
      (ms : List Move) (l : Log) (logging : Bool)
      → All IsPlainMove ms
      → l.buff ≡ []
      → logging ≡ false
      → let w = signal terminate (
          flush time_text false
            (run_moves time_text verb_event ms (record { log = l; queue = [] }))) in
        enter time_text verb_event (λ l. l) w.queue logging w.log
        ≡ (direct time_text ms l, [], finished)
  unfolding find_newline drain
  enter-direct ms l logging h b quiet =
      let w₀ : World = record { log = l; queue = [] } in
      let v₀ : IsLogging w₀ = record { own = tt; plain = rw b refl } in
      let w = run_moves time_text verb_event ms w₀ in
      let v = run_moves-IsLogging ms w₀ h v₀ in
      let end = flush time_text false w in
      let same =
        sym (settled-drain end (flush-buff w))
        ∙ settled-flush time_text verb_event w
        ∙ settled-run_moves ms w₀ h v₀
        ∙ ap (direct time_text ms) (settled-drain w₀ b) in
      ap (λ x. enter time_text verb_event (λ l. l) (signal terminate end).queue x end.log) quiet
      ∙ enter-drain end.queue end.log (flush-IsLogging w v).own
      ∙ ap (λ l. (l, [], finished)) same
