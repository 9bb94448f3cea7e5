-- ===== src/Logging.antt =====
-- class Log of scheduler/include/Logging.hpp and scheduler/src/Logging.cpp.
pub mod Lines
pub mod Buffer
use networking.Prelude.{
  ℕ, zero, suc, ◌+◌, ◌-◌, ◌*◌, ◌%◌, List, [], ◌∷◌, ◌++◌, Bool, true, false, Option, none, some, ltb,
  ◌==◌, if◌then◌else◌, length, codes,
}

-- `reads` counts the calls of time. `ostr` is the bytes that are handed to the stream: they
-- reach a file from open on, and are lost while no file is open.
pub record Log : Type 0 where
  pub name : List ℕ
  pub msg : List ℕ
  pub max_buffer : ℕ
  pub indent_size : ℕ
  pub indent : ℕ
  pub ostr : List ℕ
  pub buff : List ℕ
  pub reads : ℕ

-- What is queued for the thread of the event queue: the closures of endl, flush, catb and cate, the
-- end of the loop, Agent::death of an agent, by its number, with a status, and any other function,
-- here by what it does to the log.
pub data Action : Type 0 where
  line_action : List ℕ → Action
  text_action : List ℕ → Action
  begin_action : Action
  end_action : Action
  terminate : Action
  death : ℕ → ℕ → Action
  call : (Log → Log) → Action

-- An event with its name; the log's own events have the name `no_name`, which is `none` here.
pub record Event : Type 0 where
  pub name : Option (List ℕ)
  pub action : Action

-- The log and the event queue.
pub record World : Type 0 where
  pub log : Log
  pub queue : List Event

abbrev pub signal : Action → World → World
signal a w = record w { queue = w.queue ++ record { name = none; action = a } ∷ [] }

-- `_ostr << text`
abbrev pub put : List ℕ → Log → Log
put text l = record l { ostr = l.ostr ++ text }

abbrev pub spaces : ℕ → List ℕ
spaces zero = []
spaces (suc n) = b' ' ∷ spaces n

-- The text in front of the first newline, and the text behind it.
unfoldable pub find_newline : List ℕ → Option (List ℕ × List ℕ)
find_newline [] = none
find_newline (c ∷ cs) =
    if c == b'\n'
    then some ([], cs)
    else elim (find_newline cs) [ none ↦ none | some (section, rest) ↦ some (c ∷ section, rest) ]

-- The constructor Log().
abbrev pub new_log : Log
new_log = record {
  name = [];
  msg = [];
  max_buffer = 1024;
  indent_size = 2;
  indent = 0;
  ostr = [];
  buff = [];
  reads = 0;
}

-- `_ostr << setw(width) << text`, on the thread of the event queue: the text fills up to the width
-- on the left, and the width is back to 0.
unfoldable pub put_wide : ℕ → List ℕ → Log → Log
put_wide width text l = put (spaces (width - length text) ++ text) l

-- close, without the closing of the file.
unfoldable pub close : Log → Log
close l = record (put (codes "\n") l) { buff = [] }

-- The text of the time at each call, of at most 63 bytes, comes from the system.
module _ (time_text : ℕ → List ℕ) where
  abbrev pub line_head : Log → List ℕ
  line_head l =
      time_text l.reads
      ++ (codes " "
          ++ (l.name
              ++ (codes " [" ++ (l.msg ++ (codes "] :: " ++ spaces (l.indent * l.indent_size))))))

  unfoldable pub line_start : Log → Log
  line_start l = record l { ostr = l.ostr ++ line_head l; reads = suc l.reads }

  -- What the closure of catb does. The depth has 8 bits.
  unfoldable pub begin_category : Log → Log
  unfolding line_start
  begin_category l =
      let l₁ = line_start (put (codes "\n") l) in
      let l₂ = record l₁ { indent = (l₁.indent + 1) % 256 } in line_start (put (codes "{\n") l₂)

  -- What the closure of cate does.
  unfoldable pub end_category : Log → Log
  unfolding line_start
  end_category l =
      if ltb 0 l.indent
      then (let l₁ = put (codes "\n") l in
          put (codes "}") (line_start (record l₁ { indent = l₁.indent - 1 })))
      else l

  -- The loop of operator<< for strings, on the thread of the event queue.
  unfoldable pub put_lines : ℕ → List ℕ → Log → Log
  unfolding find_newline line_start
  put_lines zero val l = put val l
  put_lines (suc fuel) val l = elim (find_newline val) [
    | none ↦ put val l
    | some (section, rest) ↦ put_lines fuel rest (line_start (put (codes "\n") (put section l)))
  ]

  -- One round for each newline is enough.
  unfoldable pub put_string : List ℕ → Log → Log
  unfolding put_lines
  put_string val l = put_lines (length val) val l

  -- The members, each for a caller on the thread of the event queue or on another.
  unfoldable pub flush : Bool → World → World
  flush true w = w
  flush false w =
      let w' = signal (text_action w.log.buff) w in record w' { log = record w.log { buff = [] } }

  unfoldable pub endl : Bool → World → World
  unfolding line_start
  endl true w = record w { log = line_start (put (codes "\n") w.log) }
  endl false w =
      let w' = signal (line_action w.log.buff) w in record w' { log = record w.log { buff = [] } }

  unfoldable pub catb : Bool → World → World
  unfolding flush begin_category
  catb true w = record w { log = begin_category w.log }
  catb false w = signal begin_action (flush false w)

  unfoldable pub cate : Bool → World → World
  unfolding flush end_category
  cate true w = record w { log = end_category w.log }
  cate false w = signal end_action (flush false w)

  -- operator<<(std::string)
  unfoldable pub append_string : Bool → List ℕ → World → World
  unfolding put_string flush
  append_string true val w = record w { log = put_string val w.log }
  append_string false val w =
      let w' = record w { log = record w.log { buff = w.log.buff ++ val } } in
      if ltb w.log.max_buffer (length w'.log.buff) then flush false w' else w'

  -- operator<< for numbers and bool, with the text that a stream makes of them.
  unfoldable pub append_value : Bool → List ℕ → World → World
  unfolding flush
  append_value true text w = record w { log = put text w.log }
  append_value false text w =
      let w' = record w { log = record w.log { buff = w.log.buff ++ text } } in
      if ltb w.log.max_buffer (length w'.log.buff) then flush false w' else w'

  -- open, for a file that opens: the name does not matter.
  unfoldable pub open_file : Log → Log
  unfolding line_start
  open_file l = line_start (record l { ostr = []; buff = [] })

  -- The constructor Log(std::string), which starts the first line twice.
  unfoldable pub log_on_file : Log
  unfolding open_file line_start
  log_on_file = line_start (open_file new_log)
