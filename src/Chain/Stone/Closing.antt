-- ===== src/Chain/Stone/Closing.antt =====
-- What a connection of proj2/ss.c closes, whatever its calls do.
use networking.Prelude.{
  ℕ, zero, suc, ◌+◌, ◌-◌, ◌%◌, ◌≡◌, refl, ap, ◌∙◌, List, [], ◌∷◌, ◌++◌, Bool, true, false, Option,
  none, some, length, take, drop, ltb, ◌==◌, if◌then◌else◌, ◌⊎◌, inl, inr, subst, ℤ,
}
use networking.Socket.Candidates.{Peer}
use networking.Chain.{ListHeader, ListElement, header_size, element_bytes}
use networking.Chain.Calls.{
  Ends, Result, ok, exited, waiting, undefined, Act, pure, ◌>>◌, after, close_prev, close_next,
  crash,
}
use networking.Chain.Stone.{
  next_ss, open_next, to_header, recv_element, recv_list, send_list, relay_file, relay, send_file,
  send_mapped, last_ss, recv_header, forward, curr_ss, connection, start_log,
}
use networking.Chain.Stone.Stages.{
  Stage, IsAt, IsClosed, Reaches, Leads, then-Leads, keep, choose-Leads, first_open, both_open,
  recv_prev-Leads, send_prev-Leads, recv_next-Leads, send_next-Leads, sprintf-Leads, dump_two-Leads,
  or_crash-Leads, or_dump_one-Leads, or_dump_two-Leads, text-Leads, to_header-Leads,
  to_element-Leads, to_file_header-Leads,
}

-- The thread that receives the request.
recv_header-Leads :
    (calls missing : ℕ) (got : List ℕ) → Leads first_open first_open (recv_header calls missing got)
unfolding recv_header
recv_header-Leads calls zero got e h = h
recv_header-Leads zero (suc missing) got e h = tt
recv_header-Leads (suc calls) (suc missing) got e h =
    keep first_open _ _ _ (recv_prev-Leads first_open (suc missing))
      (λ received.
        keep first_open _ _ _ (or_dump_one-Leads _ received)
          (λ bytes. recv_header-Leads calls (suc missing - length bytes) (got ++ bytes)))
      e h

recv_element-Leads : (i : ℕ) → Leads first_open first_open (recv_element i)
unfolding recv_element
recv_element-Leads i = keep first_open _ _ _ (recv_prev-Leads first_open 265) (λ received.
    keep first_open _ _ _ (or_dump_one-Leads _ received) (λ bytes.
      keep first_open _ _ _
        (choose-Leads (ltb i 1024) first_open first_open _ crash (to_element-Leads first_open bytes)
          (λ e h. tt))
        (λ x. keep first_open _ _ _ (text-Leads first_open x.host) (λ host.
          keep first_open _ _ _ (text-Leads first_open x.port)
            (λ port. keep first_open _ _ _ (sprintf-Leads first_open _) (λ u e h. h))))))

recv_list-Leads : (left i : ℕ) → Leads first_open first_open (recv_list left i)
unfolding recv_list
recv_list-Leads zero i e h = h
recv_list-Leads (suc left) i e h =
    keep first_open _ _ _ (recv_element-Leads i)
      (λ x. keep first_open _ _ _ (recv_list-Leads left (i + 1)) (λ rest e h. h)) e h

-- The thread that has opened the second socket.
send_list-Leads :
    (list : List ListElement) (i next : ℕ) → Leads both_open both_open (send_list list i next)
unfolding send_list
send_list-Leads [] i next e h = h
send_list-Leads (x ∷ list) i next e h =
    choose-Leads (i == next) both_open both_open _ _ (send_list-Leads list (i + 1) next)
      (keep both_open _ _ _ (send_next-Leads both_open (element_bytes x)) (λ sent.
        keep both_open _ _ _ (or_dump_two-Leads _ sent) (λ n. send_list-Leads list (i + 1) next)))
      e h

relay_file-Leads : (calls missing : ℕ) → Leads both_open both_open (relay_file calls missing)
unfolding relay_file
relay_file-Leads calls zero e h = h
relay_file-Leads zero (suc missing) e h = tt
relay_file-Leads (suc calls) (suc missing) e h =
    keep both_open _ _ _ (recv_next-Leads both_open 8192)
      (λ received. keep both_open _ _ _ (or_dump_two-Leads _ received) (λ bytes.
        keep both_open _ _ _ (send_prev-Leads both_open bytes) (λ sent.
          keep both_open _ _ _ (or_dump_two-Leads _ sent)
            (λ n. relay_file-Leads calls (suc missing - length bytes)))))
      e h

-- Before the last `close`, the second socket is closed if it was opened.
abbrev relayed_all : Stage
relayed_all = (true, 0, 1)

relay-Leads : Leads both_open relayed_all relay
unfolding relay close_next
relay-Leads = keep both_open _ _ _ (recv_next-Leads both_open 5) (λ received.
    keep both_open _ _ _ (or_dump_two-Leads _ received) (λ bytes.
      keep both_open _ _ _ (to_file_header-Leads both_open bytes) (λ (version, f_size).
        keep both_open _ _ _ (send_prev-Leads both_open _) (λ sent.
          keep both_open _ _ _ (or_dump_two-Leads _ sent) (λ n.
            keep both_open _ _ _ (λ e. relay_file-Leads (length e.next.recvs) f_size e)
              (λ u e h. (h.0, h.1, ap suc h.2)))))))

open_next-Leads :
    (connects : List ℕ → List ℕ → ℤ × List Peer) (host port : List ℕ)
    → Leads first_open both_open (open_next connects host port)
unfolding open_next
open_next-Leads connects host port e h = go (next_ss (connects host port).0 (connects host port).1)
  where
    go :
        (found : Option (Option ℤ × List ℤ))
        → Reaches both_open (elim found [
          | none ↦ undefined
          | some (none, left) ↦
              exited (record e { closed_prev = suc e.closed_prev; leaked = e.leaked ++ left })
          | some (some fd, left) ↦ ok tt (record e { opened = true; leaked = e.leaked ++ left })
        ])
    go none = tt
    go (some (none, left)) = (ap suc h.1, rw h.0 h.2)
    go (some (some fd, left)) = (refl, h.1, h.2)

-- The last stone, whose errors only end the function.
send_file-Leads : (calls : ℕ) (bytes : List ℕ) → Leads first_open first_open (send_file calls bytes)
unfolding send_file
send_file-Leads calls [] e h = h
send_file-Leads zero (b ∷ bs) e h = tt
send_file-Leads (suc calls) (b ∷ bs) e h =
    keep first_open _ _ _ (send_prev-Leads first_open (take 8192 (b ∷ bs)))
      (λ sent.
        after_send (λ n. send_file calls (drop n (b ∷ bs))) sent
          (λ n. send_file-Leads calls (drop n (b ∷ bs))))
      e h
  where
    after_send :
        (next : ℕ → Act (Unit {0})) (sent : Option ℕ)
        → ((n : ℕ) → Leads first_open first_open (next n))
        → Leads first_open first_open (elim sent [ none ↦ pure tt | some n ↦ next n ])
    after_send next none g e h = h
    after_send next (some n) g e h = g n e h

send_mapped-Leads : (file : Option (List ℕ)) → Leads first_open first_open (send_mapped file)
unfolding send_mapped
send_mapped-Leads none e h = h
send_mapped-Leads (some []) e h = h
send_mapped-Leads (some (b ∷ bs)) e h =
    keep first_open _ _ _ (send_prev-Leads first_open _) (λ sent. after_send sent) e h
  where
    after_send :
        (sent : Option ℕ)
        → Leads first_open first_open (elim sent [
          | none ↦ pure tt
          | some _ ↦ (λ e. send_file (length e.prev.sends) (b ∷ bs) e)
        ])
    after_send none e h = h
    after_send (some n) e h = send_file-Leads (length e.prev.sends) (b ∷ bs) e h

last_ss-Leads :
    (fetch : List ℕ → List ℕ → Option (List ℕ)) (s : ℕ) (array : List ℕ)
    → Leads first_open first_open (last_ss fetch s array)
unfolding last_ss
last_ss-Leads fetch s array =
    keep first_open _ _ _ (text-Leads first_open array) (λ name. send_mapped-Leads _)

-- The end of a thread, by return or by an error, leaves both sockets closed.
abbrev Finishes : {A : Type 0} → Result A → Type 0
Finishes (ok a e) = IsClosed e
Finishes (exited e) = IsClosed e
Finishes waiting = Unit
Finishes undefined = Unit

after-Finishes :
    {A B : Type 0} (t : Stage) (r : Result A) (f : A → Act B)
    → Reaches t r
    → ((a : A) (e : Ends) → IsAt t e → Finishes (f a e))
    → Finishes (after r f)
after-Finishes t (ok a e) f h g = g a e h
after-Finishes t (exited e) f h g = h
after-Finishes t waiting f h g = tt
after-Finishes t undefined f h g = tt

close_prev-Finishes :
    (t : Stage)
    → t.1 ≡ 0
    → t.2 ≡ (if t.0 then 1 else 0)
    → (e : Ends) → IsAt t e
    → Finishes (close_prev e)
unfolding close_prev
close_prev-Finishes t p q e h = (ap suc (h.1 ∙ p), h.2 ∙ q ∙ rw h.0 refl)

last_close :
    (b : Bool) (m n : Act (Unit {0})) (e : Ends)
    → Leads first_open first_open m
    → Leads first_open relayed_all n
    → IsAt first_open e
    → Finishes (((if b then m else n) >> close_prev) e)
last_close true m n e f g h =
    after-Finishes first_open (m e) _ (f e h) (λ u. close_prev-Finishes first_open refl refl)
last_close false m n e f g h =
    after-Finishes relayed_all (n e) _ (g e h) (λ u. close_prev-Finishes relayed_all refl refl)

Finishes-ok :
    (r : Result (Unit {0})) (e : Ends) → Finishes r → (r ≡ ok tt e) ⊎ (r ≡ exited e) → IsClosed e
Finishes-ok r e f (inl p) = subst Finishes p f
Finishes-ok r e f (inr p) = subst Finishes p f

module _ (connects : List ℕ → List ℕ → ℤ × List Peer) (rand : ℕ) (m_host m_port : List ℕ) where
  forward-Leads :
      (h : ListHeader) (list : List ListElement)
      → Leads first_open both_open (forward connects rand m_host m_port h list)
  unfolding forward
  forward-Leads h list = keep first_open _ _ _ (or_crash-Leads first_open _) (λ x.
      keep first_open _ _ _ (text-Leads first_open x.host) (λ host.
        keep first_open _ _ _ (text-Leads first_open x.port) (λ port.
          keep first_open _ _ _ (sprintf-Leads first_open _) (λ u.
            then-Leads first_open both_open both_open _ _ (open_next-Leads connects host port) (λ u.
              keep both_open _ _ _ (sprintf-Leads both_open _) (λ u.
                keep both_open _ _ _ (send_next-Leads both_open _) (λ sent.
                  keep both_open _ _ _ (or_dump_two-Leads _ sent) (λ n.
                    choose-Leads (n == header_size) both_open both_open _ _ (λ e h. h)
                      (dump_two-Leads _ both_open)))))))))

  curr_ss-Leads :
      (h : ListHeader) → Leads first_open relayed_all (curr_ss connects rand m_host m_port h)
  unfolding curr_ss
  curr_ss-Leads h = keep first_open _ _ _ (text-Leads first_open h.f_name) (λ name.
      keep first_open _ _ _
        (λ e a.
          sprintf-Leads first_open (start_log m_host m_port name) (record e { buffer = [] }) a)
        (λ u. keep first_open _ _ _ (recv_list-Leads h.l_size 0) (λ list.
          then-Leads first_open both_open relayed_all _ _ (forward-Leads h list) (λ u.
            keep both_open _ _ _ (send_list-Leads list 0 (rand % h.l_size)) (λ u. relay-Leads)))))

  connection-Finishes :
      (fetch : List ℕ → List ℕ → Option (List ℕ)) (s : ℕ) (e : Ends)
      → IsAt first_open e
      → Finishes (connection connects rand m_host m_port fetch s e)
  unfolding connection
  connection-Finishes fetch s e h =
      after-Finishes first_open (recv_header (length e.prev.recvs) header_size [] e) _
        (recv_header-Leads (length e.prev.recvs) header_size [] e h)
        (λ bytes e₁ h₁.
          after-Finishes first_open (to_header bytes e₁) _ (to_header-Leads first_open bytes e₁ h₁)
            (λ l e₂ h₂.
              last_close (l.l_size == 0) _ _ e₂ (last_ss-Leads fetch s l.f_name) (curr_ss-Leads l)
                h₂))

  -- Whatever the schedule, when the thread of a connection that has closed and opened nothing ends, by
  -- return or by an error, it has closed the incoming socket once, and the one that is connected to the
  -- next stone once if there was one and never if there was none. Those whose connect has failed are
  -- not among these: they stay open.
  pub connection-IsClosed :
      (fetch : List ℕ → List ℕ → Option (List ℕ)) (s : ℕ) (e e' : Ends)
      → e.opened ≡ false
      → e.closed_prev ≡ 0
      → e.closed_next ≡ 0
      → (connection connects rand m_host m_port fetch s e ≡ ok tt e')
        ⊎ (connection connects rand m_host m_port fetch s e ≡ exited e')
      → IsClosed e'
  connection-IsClosed fetch s e e' o p n r =
      Finishes-ok _ e' (connection-Finishes fetch s e (o, p, n)) r
