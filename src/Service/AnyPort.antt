-- ===== src/Service/AnyPort.antt =====
-- What add_any_port of proj1's services comes to.
use networking.Prelude.{
  ◌≡◌, ap, ◌∙◌, sym, List, [], ◌∷◌, ◌++◌, false, if◌then◌else◌, none, ℤ, pos, append_assoc,
  append-nil, Bool-cases, inl, inr,
}
use networking.Socket.{Memory}
use networking.Service.{Service, is_minus_one, AnyCandidate, bind_any, finish_any, add_any_port}

-- The descriptors that `socket` returns.
abbrev pub opened_any : List AnyCandidate → List ℤ
opened_any [] = []
opened_any (c ∷ cs) = if is_minus_one c.fd then opened_any cs else c.fd ∷ opened_any cs

bind_any_udp :
    (cs : List AnyCandidate) (m : Memory)
    → bind_any false cs m ≡ (none, record m { closed = m.closed ++ opened_any cs })
unfolding bind_any
bind_any_udp [] m = ap (λ c. (none, record m { closed = c })) (sym (append-nil m.closed))
bind_any_udp (c ∷ cs) m = elim (Bool-cases (is_minus_one c.fd)) [
  | inl bad ↦ rw bad (bind_any_udp cs m)
  | inr good ↦ rw good (
      bind_any_udp cs (record m { closed = m.closed ++ c.fd ∷ [] })
      ∙ ap (λ x. (none, record m { closed = x }))
          (append_assoc m.closed (c.fd ∷ []) (opened_any cs)))
]

-- For UDP, add_any_port closes every descriptor that it opens, returns the port 0, and leaves the
-- service as it is, whatever `bind` would do.
pub add_any_port_udp :
    (cs : List AnyCandidate) (s : Service) (m : Memory)
    → add_any_port false (pos 0) cs s m ≡ (0, s, record m { closed = m.closed ++ opened_any cs })
unfolding add_any_port
add_any_port_udp cs s m = ap (finish_any s) (bind_any_udp cs m)
