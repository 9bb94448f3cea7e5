-- ===== src/Chain/Calls.antt =====
-- What a stepping stone of proj2/ss.c and the client of proj2/awget.c do with their sockets: single
-- calls of `send` and `recv`, which may move fewer bytes than they are asked to.
use networking.Prelude.{
  ℕ, suc, ◌≡◌, ap, ◌∙◌, List, [], ◌∷◌, ◌++◌, Bool, Option, none, some, length, take, drop, min, ltb,
  if◌then◌else◌, ℤ,
}
use networking.Transfer.{Outcome, failed, moved, Conn}

-- `prev` is the socket that a request came in on, and `next` the one to the next stone, `opened` or
-- not. `buffer` is the text that sprintf has put into a buffer of 8192 bytes, `file` the file that
-- the client writes. `leaked` are the descriptors that no variable holds any more, those whose connect
-- has failed. The others count the calls of `close`.
pub record Ends : Type 0 where
  pub prev : Conn
  pub next : Conn
  pub opened : Bool
  pub buffer : List ℕ
  pub file : List ℕ
  pub leaked : List ℤ
  pub closed_prev : ℕ
  pub closed_next : ℕ

-- `exited`: the thread, or the client, has ended with an error. `waiting`: the schedule has ended in
-- front of a call.
pub data Result {ℓ} (A : Type ℓ) : Type ℓ where
  ok : A → Ends → Result A
  exited : Ends → Result A
  waiting : Result A
  undefined : Result A

abbrev pub Act : Type 0 → Type 0
Act A = Ends → Result A

abbrev pub pure : {A : Type 0} → A → Act A
pure a e = ok a e

abbrev pub after : {A B : Type 0} → Result A → (A → Act B) → Result B
after (ok a e) f = f a e
after (exited e) f = exited e
after waiting f = waiting
after undefined f = undefined

infixl 5 ◌>>=◌ ◌>>◌
abbrev pub ◌>>=◌ : {A B : Type 0} → Act A → (A → Act B) → Act B
◌>>=◌ m f e = after (m e) f

abbrev pub ◌>>◌ : {B : Type 0} → Act (Unit {0}) → Act B → Act B
m >> k = m >>= λ _. k

abbrev pub crash : {A : Type 0} → Act A
crash e = undefined

-- One call of `recv` for `size` bytes, and one of `send`, by the calls of the schedule; `none` is -1.
pub data Called (A : Type 0) : Type 0 where
  blocked : Called A
  done : Option A → Conn → Called A

abbrev pub recv_by : List Outcome → ℕ → Conn → Called (List ℕ)
recv_by [] size c = blocked
recv_by (failed ∷ calls) size c = done none (record c { recvs = calls })
recv_by (moved n ∷ calls) size c =
    done (some (take (min n size) c.incoming))
      (record c { recvs = calls; incoming = drop (min n size) c.incoming })

abbrev pub send_by : List Outcome → List ℕ → Conn → Called ℕ
send_by [] bytes c = blocked
send_by (failed ∷ calls) bytes c = done none (record c { sends = calls })
send_by (moved n ∷ calls) bytes c =
    done (some (length (take n bytes)))
      (record c { sends = calls; outgoing = c.outgoing ++ take n bytes })

abbrev pub on_prev : {A : Type 0} → Called A → Act (Option A)
on_prev blocked e = waiting
on_prev (done a c) e = ok a (record e { prev = c })

abbrev pub on_next : {A : Type 0} → Called A → Act (Option A)
on_next blocked e = waiting
on_next (done a c) e = ok a (record e { next = c })

unfoldable pub recv_prev : ℕ → Act (Option (List ℕ))
recv_prev size e = on_prev (recv_by e.prev.recvs size e.prev) e

unfoldable pub send_prev : List ℕ → Act (Option ℕ)
send_prev bytes e = on_prev (send_by e.prev.sends bytes e.prev) e

unfoldable pub recv_next : ℕ → Act (Option (List ℕ))
recv_next size e = on_next (recv_by e.next.recvs size e.next) e

unfoldable pub send_next : List ℕ → Act (Option ℕ)
send_next bytes e = on_next (send_by e.next.sends bytes e.next) e

-- `sprintf(buffer + strlen(buffer), ...)`, the text with its NUL.
unfoldable pub sprintf : List ℕ → Act (Unit {0})
sprintf text e =
    if ltb (length (e.buffer ++ text)) 8192
    then ok tt (record e { buffer = e.buffer ++ text })
    else undefined

unfoldable pub close_prev : Act (Unit {0})
close_prev e = ok tt (record e { closed_prev = suc e.closed_prev })

unfoldable pub close_next : Act (Unit {0})
close_next e = ok tt (record e { closed_next = suc e.closed_next })

-- dump_one(s, ...) and dump_two(s, fd, ...), without the message.
unfoldable pub dump_one : {A : Type 0} → Act A
dump_one e = exited (record e { closed_prev = suc e.closed_prev })

unfoldable pub dump_two : {A : Type 0} → Act A
dump_two e = exited (record e { closed_prev = suc e.closed_prev; closed_next = suc e.closed_next })

-- What comes of a value that may be missing.
abbrev pub or_crash : {A : Type 0} → Option A → Act A
or_crash none = crash
or_crash (some a) = pure a

abbrev pub or_dump_one : {A : Type 0} → Option A → Act A
or_dump_one none = dump_one
or_dump_one (some a) = pure a

abbrev pub or_dump_two : {A : Type 0} → Option A → Act A
or_dump_two none = dump_two
or_dump_two (some a) = pure a

-- A step that has gone well leaves the rest to do.
pub >>=-ok :
    {A B : Type 0} (m : Act A) (f : A → Act B) {a : A} {e e' : Ends} {r : Result B}
    → m e ≡ ok a e'
    → f a e' ≡ r
    → (m >>= f) e ≡ r
>>=-ok m f p q = ap (λ x. after x f) p ∙ q
