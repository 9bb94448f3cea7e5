-- ===== src/Chain/Stone/Stages.antt =====
-- How the sockets of a connection of proj2/ss.c are opened and closed step by step.
use networking.Prelude.{
  ℕ, suc, ◌≡◌, ap, List, [], ◌∷◌, ◌++◌, Bool, true, false, Option, none, some, length, ltb, ◌==◌,
  if◌then◌else◌,
}
use networking.Chain.{filename_max, text_in}
use networking.Chain.Calls.{
  Ends, Result, ok, exited, waiting, undefined, Act, ◌>>=◌, after, Called, blocked, done, on_prev,
  on_next, recv_by, send_by, recv_prev, send_prev, recv_next, send_next, sprintf, dump_one,
  dump_two, or_crash, or_dump_one, or_dump_two, crash,
}
use networking.Chain.Stone.{text, to_header, to_element, to_file_header}

-- The calls of `close` on the two sockets so far, and whether the second one was opened.
abbrev pub Stage : Type 0
Stage = Bool × ℕ × ℕ

abbrev pub IsAt : Stage → Ends → Type 0
IsAt s e = (e.opened ≡ s.0) × (e.closed_prev ≡ s.1) × (e.closed_next ≡ s.2)

-- The incoming socket is closed once, and the one that is connected to the next stone, if there is
-- one, once.
abbrev pub IsClosed : Ends → Type 0
IsClosed e = (e.closed_prev ≡ 1) × (e.closed_next ≡ (if e.opened then 1 else 0))

-- A result that is at the stage, or an end with these closed.
abbrev pub Reaches : {A : Type 0} → Stage → Result A → Type 0
Reaches s (ok a e) = IsAt s e
Reaches s (exited e) = IsClosed e
Reaches s waiting = Unit
Reaches s undefined = Unit

abbrev pub Leads : {A : Type 0} → Stage → Stage → Act A → Type 0
Leads s t m = (e : Ends) → IsAt s e → Reaches t (m e)

pub after-Reaches :
    {A B : Type 0} (s t : Stage) (r : Result A) (f : A → Act B)
    → Reaches s r
    → ((a : A) → Leads s t (f a))
    → Reaches t (after r f)
after-Reaches s t (ok a e) f h g = g a e h
after-Reaches s t (exited e) f h g = h
after-Reaches s t waiting f h g = tt
after-Reaches s t undefined f h g = tt

pub then-Leads :
    {A B : Type 0} (s t u : Stage) (m : Act A) (f : A → Act B)
    → Leads s t m
    → ((a : A) → Leads t u (f a))
    → Leads s u (m >>= f)
then-Leads s t u m f h g e a = after-Reaches t u (m e) f (h e a) g

-- The same where the first part stays at its stage.
pub keep :
    {A B : Type 0} (s t : Stage) (m : Act A) (f : A → Act B)
    → Leads s s m
    → ((a : A) → Leads s t (f a))
    → Leads s t (m >>= f)
keep s t m f h g = then-Leads s s t m f h g

pub choose-Reaches :
    {A : Type 0} (b : Bool) (t : Stage) (r q : Result A)
    → Reaches t r
    → Reaches t q
    → Reaches t (if b then r else q)
choose-Reaches true t r q h k = h
choose-Reaches false t r q h k = k

pub choose-Leads :
    {A : Type 0} (b : Bool) (s t : Stage) (m n : Act A)
    → Leads s t m
    → Leads s t n
    → Leads s t (if b then m else n)
choose-Leads true s t m n h k = h
choose-Leads false s t m n h k = k

abbrev pub first_open : Stage
first_open = (false, 0, 0)

abbrev pub both_open : Stage
both_open = (true, 0, 0)

pub on_prev-Leads :
    {A : Type 0} (s : Stage) (c : Called A) (e : Ends) → IsAt s e → Reaches s (on_prev c e)
on_prev-Leads s blocked e h = tt
on_prev-Leads s (done a c) e h = h

pub on_next-Leads :
    {A : Type 0} (s : Stage) (c : Called A) (e : Ends) → IsAt s e → Reaches s (on_next c e)
on_next-Leads s blocked e h = tt
on_next-Leads s (done a c) e h = h

pub recv_prev-Leads : (s : Stage) (n : ℕ) → Leads s s (recv_prev n)
unfolding recv_prev
recv_prev-Leads s n e h = on_prev-Leads s (recv_by e.prev.recvs n e.prev) e h

pub send_prev-Leads : (s : Stage) (bytes : List ℕ) → Leads s s (send_prev bytes)
unfolding send_prev
send_prev-Leads s bytes e h = on_prev-Leads s (send_by e.prev.sends bytes e.prev) e h

pub recv_next-Leads : (s : Stage) (n : ℕ) → Leads s s (recv_next n)
unfolding recv_next
recv_next-Leads s n e h = on_next-Leads s (recv_by e.next.recvs n e.next) e h

pub send_next-Leads : (s : Stage) (bytes : List ℕ) → Leads s s (send_next bytes)
unfolding send_next
send_next-Leads s bytes e h = on_next-Leads s (send_by e.next.sends bytes e.next) e h

pub sprintf-Leads : (s : Stage) (bytes : List ℕ) → Leads s s (sprintf bytes)
unfolding sprintf
sprintf-Leads s bytes e h =
    choose-Reaches (ltb (length (e.buffer ++ bytes)) 8192) s _ undefined h tt

pub dump_one-Leads : (A : Type 0) (t : Stage) → Leads first_open t (dump_one {A = A})
unfolding dump_one
dump_one-Leads A t e h = (ap suc h.1, rw h.0 h.2)

pub dump_two-Leads : (A : Type 0) (t : Stage) → Leads both_open t (dump_two {A = A})
unfolding dump_two
dump_two-Leads A t e h = (ap suc h.1, rw h.0 (ap suc h.2))

pub or_crash-Leads : {A : Type 0} (s : Stage) (a : Option A) → Leads s s (or_crash a)
or_crash-Leads s none e h = tt
or_crash-Leads s (some a) e h = h

pub or_dump_one-Leads : (A : Type 0) (a : Option A) → Leads first_open first_open (or_dump_one a)
or_dump_one-Leads A none e h = dump_one-Leads A first_open e h
or_dump_one-Leads A (some a) e h = h

pub or_dump_two-Leads : (A : Type 0) (a : Option A) → Leads both_open both_open (or_dump_two a)
or_dump_two-Leads A none e h = dump_two-Leads A both_open e h
or_dump_two-Leads A (some a) e h = h

pub text-Leads : (s : Stage) (array : List ℕ) → Leads s s (text array)
unfolding text
text-Leads s array = or_crash-Leads s (text_in array)

pub to_header-Leads : (s : Stage) (bytes : List ℕ) → Leads s s (to_header bytes)
unfolding to_header
to_header-Leads s [] e h = tt
to_header-Leads s (_ ∷ []) e h = tt
to_header-Leads s (_ ∷ _ ∷ []) e h = tt
to_header-Leads s (_ ∷ _ ∷ _ ∷ []) e h = tt
to_header-Leads s (_ ∷ _ ∷ _ ∷ _ ∷ []) e h = tt
to_header-Leads s (v ∷ a ∷ b ∷ c ∷ d ∷ name) e h =
    choose-Leads (length name == filename_max) s s _ crash (λ e h. h) (λ e h. tt) e h

pub to_element-Leads : (s : Stage) (bytes : List ℕ) → Leads s s (to_element bytes)
unfolding to_element
to_element-Leads s [] e h = tt
to_element-Leads s (v ∷ rest) e h =
    choose-Leads (length rest == 264) s s _ crash (λ e h. h) (λ e h. tt) e h

pub to_file_header-Leads : (s : Stage) (bytes : List ℕ) → Leads s s (to_file_header bytes)
unfolding to_file_header
to_file_header-Leads s [] e h = tt
to_file_header-Leads s (_ ∷ []) e h = tt
to_file_header-Leads s (_ ∷ _ ∷ []) e h = tt
to_file_header-Leads s (_ ∷ _ ∷ _ ∷ []) e h = tt
to_file_header-Leads s (_ ∷ _ ∷ _ ∷ _ ∷ []) e h = tt
to_file_header-Leads s (v ∷ a ∷ b ∷ c ∷ d ∷ []) e h = h
to_file_header-Leads s (v ∷ a ∷ b ∷ c ∷ d ∷ _ ∷ _) e h = tt
