-- ===== src/Service/Ports.antt =====
-- What add_port of proj1's services keeps and closes.
use networking.Prelude.{
  ℕ, zero, ◌≡◌, ◌≢◌, refl, ap, ◌∙◌, sym, List, [], ◌∷◌, ◌++◌, Bool, true, false, ◌==◌, ltb, not,
  if◌then◌else◌, Option, none, some, ◌⊎◌, inl, inr, ℤ, pos, arith, append_assoc, append-nil,
  Bool-cases, ==_iff,
}
use networking.Socket.{Memory}
use networking.Socket.Candidates.{Candidate}
use networking.Service.{
  Service, set_port, Binding, bound_to, unbound, not_reusable, is_minus_one, bind_port, Added,
  added, refused, finish_port, add_port,
}

-- The descriptors that `socket` returns until the loop of add_port ends.
abbrev pub opened_by : List Candidate → List ℤ
opened_by [] = []
opened_by (c ∷ cs) =
    if is_minus_one c.fd
    then opened_by cs
    else if not c.reusable
    then c.fd ∷ []
    else if c.bound
    then c.fd ∷ []
    else c.fd ∷ opened_by cs

abbrev Accounts : List ℤ → Binding → Type 0
Accounts total (bound_to fd m) = m.closed ++ fd ∷ [] ≡ total
Accounts total (unbound m) = m.closed ≡ total
Accounts total (not_reusable m) = (fd : ℤ) × (m.closed ++ fd ∷ [] ≡ total)

bind_port-Accounts :
    (cs : List Candidate) (m : Memory) → Accounts (m.closed ++ opened_by cs) (bind_port cs m)
unfolding bind_port
bind_port-Accounts [] m = sym (append-nil m.closed)
bind_port-Accounts (c ∷ cs) m = elim (Bool-cases (is_minus_one c.fd)) [
  | inl bad ↦ rw bad (bind_port-Accounts cs m)
  | inr good ↦ elim (Bool-cases c.reusable) [
    | inr fixed ↦ rw (good, fixed) (c.fd, refl)
    | inl free ↦ elim (Bool-cases c.bound) [
      | inl bound ↦ rw (good, free, bound) refl
      | inr busy ↦
          rw (good, free, busy, ← append_assoc m.closed (c.fd ∷ []) (opened_by cs))
            (bind_port-Accounts cs (record m { closed = m.closed ++ c.fd ∷ [] }))
    ]
  ]
]

abbrev pub find : ℕ → List (ℕ × ℤ) → Option ℤ
find q [] = none
find q (p ∷ ps) = if q == p.0 then some p.1 else find q ps

same_port : (n : ℕ) → (n == n) ≡ true
same_port n = ground arith

other_port : (q port : ℕ) → q ≢ port → (q == port) ≡ false
other_port q port h = ground arith

find-set_port : (port : ℕ) (fd : ℤ) (ps : List (ℕ × ℤ)) → find port (set_port port fd ps) ≡ some fd
unfolding set_port
find-set_port port fd [] = rw (same_port port) refl
find-set_port port fd (p ∷ ps) = elim (Bool-cases (port == p.0)) [
  | inl here ↦ rw (here, same_port port) refl
  | inr other ↦ elim (Bool-cases (ltb port p.0)) [
    | inl before ↦ rw (other, before, same_port port) refl
    | inr behind ↦ rw (other, behind, other) (find-set_port port fd ps)
  ]
]

find_other :
    (port q : ℕ) (fd : ℤ) (ps : List (ℕ × ℤ)) → q ≢ port → find q (set_port port fd ps) ≡ find q ps
unfolding set_port
find_other port q fd [] h = rw (other_port q port h) refl
find_other port q fd (p ∷ ps) h = elim (Bool-cases (port == p.0)) [
  | inl here ↦
      let elsewhere : (q == p.0) ≡ false =
        ap (λ k. q == k) (sym ((==_iff port p.0).0 here)) ∙ other_port q port h in
      rw (here, other_port q port h, elsewhere) refl
  | inr other ↦ elim (Bool-cases (ltb port p.0)) [
    | inl before ↦ rw (other, before, other_port q port h) refl
    | inr behind ↦ rw (other, behind, find_other port q fd ps h) refl
  ]
]

-- What is so after add_port, where `total` are the descriptors closed before and those opened now.
abbrev pub Accounted : ℕ → Service → List ℤ → Added → Type 0
Accounted port s total (added s' m) =
    (fd : ℤ) × (find port s'.ports ≡ some fd)
    × ((q : ℕ) → q ≢ port → find q s'.ports ≡ find q s.ports)
    × (m.closed ++ fd ∷ [] ≡ total)
Accounted port s total (refused m) = (m.closed ≡ total) ⊎ ((fd : ℤ) × (m.closed ++ fd ∷ [] ≡ total))

finish_port-Accounted :
    (port : ℕ) (tcp : Bool) (s : Service) (total : List ℤ) (b : Binding)
    → Accounts total b
    → Accounted port s total (finish_port port tcp s b)
finish_port-Accounted port tcp s total (bound_to fd m) h =
    (fd, find-set_port port fd s.ports, (λ q o. find_other port q fd s.ports o), h)
finish_port-Accounted port tcp s total (unbound m) h = inl h
finish_port-Accounted port tcp s total (not_reusable m) h = inr h

-- add_port, when getaddrinfo succeeds, either keeps the last descriptor that it opened as that of the
-- port, leaves the other ports as they were and has closed the other descriptors, or throws, with all
-- descriptors closed but the last one at most.
pub add_port-Accounted :
    (port : ℕ) (tcp : Bool) (candidates : List Candidate) (s : Service) (m : Memory)
    → Accounted port s
        (m.closed ++ opened_by candidates)
        (add_port port tcp (pos zero) candidates s m)
unfolding add_port
add_port-Accounted port tcp candidates s m =
    finish_port-Accounted port tcp s (m.closed ++ opened_by candidates) (bind_port candidates m)
      (bind_port-Accounts candidates m)
