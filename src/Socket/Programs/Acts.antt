-- ===== src/Socket/Programs/Acts.antt =====
-- An action that is allowed does not fault, and keeps a program sound.
use networking.Prelude.{
  ℕ, suc, ◌+◌, ◌^◌, ◌<◌, ◌≤◌, ◌≡◌, refl, ap, ◌∙◌, sym, subst, List, [], ◌∷◌, ◌++◌, true, Bool-cases,
  inl, inr, Option, some, arith, length, All, ℤ,
}
use networking.Socket.{
  Socket, Memory, Kind, client, new_count, manage, accept, is_acceptable, copy, assign, assign_self,
}
use networking.Socket.Owners.{owners}
use networking.Socket.Owners.Opening.{new_count-IsCounted}
use networking.Socket.Owners.Sharing.{length_middle}
use networking.Socket.Programs.{
  Program, Choice, others, select, Action, managing, defaulting, accepting, copying, assigning,
  assigning_self, is_shared, destroying, act_on, with_socket, act, allowed,
}
use networking.Socket.Programs.Selected.{select_cases, owned, is_usable, counter_of, shared_counter}
use networking.Socket.Programs.Sound.{IsNamed, IsSound, Sound, All_middle}
use networking.Socket.Programs.Preserved.{
  default_keeps, new_keeps, copy_keeps, destroy_keeps, assign_keeps, assign_self_keeps,
}

-- What an action that does not fault leaves.
abbrev pub Done : Action → Program → Type 0
Done action p =
    (p' : Program) × (act action p ≡ some p') × IsSound p' × (length p'.live ≤ suc (length p.live))

idle : (action : Action) (p : Program) → act action p ≡ some p → IsSound p → Done action p
idle action p e v = (p, e, v, omega arith)

-- The socket that Accept returns.
abbrev peer_socket : ℕ → ℤ → List ℕ → Memory → Socket
peer_socket port fd peer m = record {
  host = peer;
  port = port;
  kind = client;
  fd = fd;
  count = some m.next;
}

-- A socket that `new` gives a counter joins the live ones.
joins :
    (s : Socket) (p : Program)
    → s.count ≡ some p.memory.next
    → length p.live + 1 < 2 ^ 32
    → IsSound p
    → Sound (s ∷ p.live) (new_count p.memory).1 (p.given ++ s.fd ∷ [])
joins s p h l v =
    new_keeps s p.live p.memory _ p.given h
      (new_count-IsCounted s p.live p.memory h l (v.fresh p.memory.next (omega arith)) v.counted)
      refl refl v

act_managing :
    (fd : ℤ) (kind : Kind) (p : Program)
    → length p.live + 1 < 2 ^ 32
    → IsSound p
    → Done (managing fd kind) p
unfolding manage
act_managing fd kind p l v = (_, refl, joins _ p refl l v, omega arith)

act_accepting :
    (i : ℕ) (fd : ℤ) (peer : List ℕ) (p : Program)
    → length p.live + 1 < 2 ^ 32
    → IsSound p
    → Done (accepting i fd peer) p
unfolding accept
act_accepting i fd peer p l v = elim (select_cases i p.live) [
  | inl e ↦ idle (accepting i fd peer) p (rw e refl) v
  | inr (c, e, q) ↦ elim (Bool-cases (is_acceptable c.it)) [
    | inl ready ↦ (
      _,
      rw (e, ready) refl,
      joins (peer_socket c.it.port fd peer p.memory) p refl l v,
      omega arith,
    )
    | inr unready ↦
        (_, rw (e, unready) refl, default_keeps p.live p.memory p.given l v, omega arith)
  ]
]

act_copying :
    (i : ℕ) (p : Program)
    → length p.live + 1 < 2 ^ 32
    → allowed (copying i) p ≡ true
    → IsSound p
    → Done (copying i) p
act_copying i p l h v = elim (select_cases i p.live) [
  | inl e ↦ idle (copying i) p (rw e refl) v
  | inr (c, e, q) ↦
      let (a, count) = counter_of c.it.count (sym (ap (λ o. act_on o true is_usable) e) ∙ h) in
      let named =
        (All_middle (IsNamed p.given) c.before c.it c.after
          (subst (λ l. Sound l p.memory p.given) q v).named).0 in
      let (m', f, w) =
        copy_keeps c.it p.live p.memory p.given a count
          (subst (λ l. 0 < owners a l) (sym q) (owned c a count)) l named v in
      (
        _,
        ap (λ o. act_on o (some p) (λ c. with_socket (λ s. s ∷ p.live) p (copy c.it p.memory))) e
            ∙ ap (with_socket (λ s. s ∷ p.live) p) f,
        w,
        omega arith,
      )
]

act_destroying : (i : ℕ) (p : Program) → IsSound p → Done (destroying i) p
act_destroying i p v = elim (select_cases i p.live) [
  | inl e ↦ idle (destroying i) p (rw e refl) v
  | inr (c, e, q) ↦
      let (m', f, w) =
        destroy_keeps c.before c.it c.after p.memory p.given
          (subst (λ l. Sound l p.memory p.given) q v) in
      (_, rw (e, f) refl, w, omega (arith, length_middle c.before c.it c.after, ap length q))
]

abbrev assigned : Program → Choice → Choice → Option Program
assigned p c d = with_socket (λ s. c.before ++ s ∷ c.after) p (assign c.it d.it p.memory)

act_assigning :
    (i j : ℕ) (p : Program) → allowed (assigning i j) p ≡ true → IsSound p → Done (assigning i j) p
act_assigning i j p h v = elim (select_cases i p.live) [
  | inl e ↦ idle (assigning i j) p (rw e refl) v
  | inr (c, e, q) ↦ elim (select_cases j (others c)) [
    | inl e' ↦ idle (assigning i j) p (rw (e, e') refl) v
    | inr (d, e', q') ↦
        let (a, count) = counter_of d.it.count (
          sym (
            ap (λ o. act_on o true (λ c. act_on (select j (others c)) true is_usable)) e
            ∙ ap (λ o. act_on o true is_usable) e')
          ∙ h) in
        let w = subst (λ l. Sound l p.memory p.given) q v in
        let named =
          (All_middle (IsNamed p.given) d.before d.it d.after (
            subst (All (IsNamed p.given)) q'
              (All_middle (IsNamed p.given) c.before c.it c.after w.named).1)).0 in
        let (m', f, sound) =
          assign_keeps c.before c.it c.after p.memory p.given w d.it a count
            (subst (λ l. 0 < owners a l) (sym q') (owned d a count)) named in
        (
          _,
          ap (λ o. act_on o (some p) (λ c. act_on (select j (others c)) (some p) (assigned p c))) e
              ∙ ap (λ o. act_on o (some p) (assigned p c)) e'
              ∙ ap (with_socket (λ s. c.before ++ s ∷ c.after) p) f,
          sound,
          omega (
            arith,
            length_middle c.before c.it c.after,
            length_middle c.before d.it c.after,
            ap length q,
          ),
        )
  ]
]

abbrev itself : Program → Choice → Option Program
itself p c = with_socket (λ s. c.before ++ s ∷ c.after) p (assign_self c.it p.memory)

act_assigning_self :
    (i : ℕ) (p : Program)
    → allowed (assigning_self i) p ≡ true
    → IsSound p
    → Done (assigning_self i) p
act_assigning_self i p h v = elim (select_cases i p.live) [
  | inl e ↦ idle (assigning_self i) p (rw e refl) v
  | inr (c, e, q) ↦
      let (a, count, some_left) =
        shared_counter c.it.count (others c)
          (sym (ap (λ o. act_on o true (λ c. is_shared c.it.count (others c))) e) ∙ h) in
      let (m', f, sound) =
        assign_self_keeps c.before c.it c.after p.memory p.given
          (subst (λ l. Sound l p.memory p.given) q v) a count some_left in
      (
        _,
        ap (λ o. act_on o (some p) (itself p)) e
            ∙ ap (with_socket (λ s. c.before ++ s ∷ c.after) p) f,
        sound,
        omega (arith, ap length q),
      )
]

-- An allowed action does not fault, and leaves a sound program with at most one more socket.
pub act_lem :
    (action : Action) (p : Program)
    → length p.live + 1 < 2 ^ 32
    → allowed action p ≡ true
    → IsSound p
    → Done action p
act_lem (managing fd kind) p l h v = act_managing fd kind p l v
act_lem defaulting p l h v = (_, refl, default_keeps p.live p.memory p.given l v, omega arith)
act_lem (accepting i fd peer) p l h v = act_accepting i fd peer p l v
act_lem (copying i) p l h v = act_copying i p l h v
act_lem (assigning i j) p l h v = act_assigning i j p h v
act_lem (assigning_self i) p l h v = act_assigning_self i p h v
act_lem (destroying i) p l h v = act_destroying i p v
