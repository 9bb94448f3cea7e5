-- ===== src/SyncSocket/Owners.antt =====
-- The counters of proj1's sockets hold the number of the connected sockets that share them.
use networking.Prelude.{
  ℕ, suc, ◌+◌, ◌^◌, ◌<◌, ◌≤◌, ◌⊎◌, append-nil, ◌≡◌, refl, ap, ◌∙◌, sym, subst, List, [], ◌∷◌, ◌++◌,
  true, false, if◌then◌else◌, Option, none, some, arith, All, length, length-append, ℤ, inl, inr,
}
use networking.Socket.{Memory, increment, give_up, release}
use networking.Socket.Owners.{
  owns_count, tally, Counted, closed_by, kept, increment_lem, release_lem,
}
use networking.SyncSocket.{SyncSocket, copy, left_of, let_go, check_close, destroy, assign}

-- The counter that a socket has a share of.
abbrev pub held : SyncSocket → Option ℕ
held s = if s.conn then s.refs else none

abbrev pub owners : ℕ → List SyncSocket → ℕ
owners a [] = 0
owners a (s ∷ ss) = owns_count a (held s) + owners a ss

-- A connected socket has a counter.
abbrev pub IsWhole : SyncSocket → Type 0
IsWhole s = (s.conn ≡ false) ⊎ ((s.conn ≡ true) × (a : ℕ) × (s.refs ≡ some a))

-- The live sockets of the program, few enough for an int, and the counters in memory.
pub record IsShared (live : List SyncSocket) (m : Memory) : Type 0 where
  pub few : length live < 2 ^ 31
  pub counted : (a : ℕ) → m.counts a ≡ tally (owners a live)
  pub shared : All IsWhole live

-- A socket that is not connected, or shares its counter with others of which `f` counts some.
abbrev pub Shares : (ℕ → ℕ) → SyncSocket → Type 0
Shares f s = (s.conn ≡ false) ⊎ ((s.conn ≡ true) × (a : ℕ) × (s.refs ≡ some a) × (0 < f a))

owners-append : (a : ℕ) (xs ys : List SyncSocket) → owners a (xs ++ ys) ≡ owners a xs + owners a ys
owners-append a [] ys = omega arith
owners-append a (x ∷ xs) ys = omega (arith, owners-append a xs ys)

owns_count-le : (a : ℕ) (c : Option ℕ) → owns_count a c ≤ 1
owns_count-le a none = omega arith
owns_count-le a (some b) = ground arith

owners-le : (a : ℕ) (xs : List SyncSocket) → owners a xs ≤ length xs
owners-le a [] = omega arith
owners-le a (x ∷ xs) = omega (arith, owners-le a xs, owns_count-le a (held x))

pub owners_middle :
    (a : ℕ) (xs : List SyncSocket) (s : SyncSocket) (ys : List SyncSocket)
    → owners a (xs ++ s ∷ ys) ≡ owns_count a (held s) + owners a (xs ++ ys)
owners_middle a xs s ys = omega (arith, owners-append a xs (s ∷ ys), owners-append a xs ys)

length_middle :
    (xs : List SyncSocket) (s : SyncSocket) (ys : List SyncSocket)
    → length (xs ++ s ∷ ys) ≡ suc (length (xs ++ ys))
length_middle xs s ys = omega (arith, length-append xs (s ∷ ys), length-append xs ys)

not_held : (s : SyncSocket) → s.conn ≡ false → held s ≡ none
not_held s off = ap (λ b. if b then s.refs else none) off

let_go-release :
    (s : SyncSocket) (m : Memory) (a : ℕ) (count : Option ℕ) (fd : ℤ) (m' : Memory)
    → release (some a) s.fd m ≡ some (count, fd, m')
    → let_go (some a) s m ≡ some (left_of s (count, fd, m'))
let_go-release s m a count fd m' h = go (m.counts a) h
  where
    go :
        (c : Option ℕ)
        → elim c [ none ↦ none | some n ↦ some (give_up a s.fd n m) ] ≡ some (count, fd, m')
        → elim c [ none ↦ none | some n ↦ some (left_of s (give_up a s.fd n m)) ]
          ≡ some (left_of s (count, fd, m'))
    go none h = absurd (cc)
    go (some n) h = ap (λ r. elim r [ none ↦ none | some x ↦ some (left_of s x) ]) h

left_of-memory :
    (s : SyncSocket) (count : Option ℕ) (fd : ℤ) (m : Memory) → (left_of s (count, fd, m)).1 ≡ m
left_of-memory s none fd m = refl
left_of-memory s (some a) fd m = refl

left_of-kept :
    (s : SyncSocket) (a : ℕ) (f : ℕ → ℕ) (count : Option ℕ) (fd : ℤ) (m : Memory)
    → count ≡ kept (some a) f
    → 0 < f a
    → (left_of s (count, fd, m)).0 ≡ s
left_of-kept s a f none fd m e h = absurd (grind (arith, e))
left_of-kept s a f (some b) fd m e h = refl

pub same_share : (a b : ℕ) → some a ≡ some b → b ≡ a
same_share a b h = cc

-- check_close gives the share up, and closes the descriptor if no other socket has one. A socket
-- whose counter others share is left as it was, connected.
pub check_close_lem :
    (f : ℕ → ℕ) (s : SyncSocket) (m : Memory)
    → IsWhole s
    → Counted (λ x. owns_count x (held s) + f x) m
    → ((a : ℕ) → f a + 1 < 2 ^ 32)
    → (s' : SyncSocket) × (m' : Memory) × (check_close s m ≡ some (s', m'))
      × Counted f m'
      × (m'.closed ≡ m.closed ++ closed_by (held s) s.fd f)
      × ((a : ℕ) → held s ≡ some a → 0 < f a → s' ≡ s)
unfolding check_close
check_close_lem f s m (inl off) v l = (
  s,
  m,
  rw off refl,
  (λ b. v b ∙ rw off (ap tally (omega arith))),
  rw off (sym (append-nil m.closed)),
  (λ a h k. refl),
)
check_close_lem f s m (inr (on, a, e)) v l =
    let same : held s ≡ some a = rw (on, e) refl in
    let (count, fd, m', p, counted, closes, left, _, _) =
      release_lem f m (some a) s.fd (λ b. v b ∙ ap (λ c. tally (owns_count b c + f b)) same) l in
    let r = left_of s (count, fd, m') in
    (
      r.0,
      r.1,
      ap (λ b. if b then let_go s.refs s m else some (s, m)) on
          ∙ ap (λ c. let_go c s m) e
          ∙ let_go-release s m a count fd m' p,
      (λ b. ap (λ x. x.counts b) (left_of-memory s count fd m') ∙ counted b),
      ap (λ x. x.closed) (left_of-memory s count fd m')
          ∙ closes
          ∙ ap (λ c. m.closed ++ closed_by c s.fd f) (sym same),
      (λ b h k.
          left_of-kept s a f count fd m' left
            (subst (λ x. 0 < f x) (same_share a b (sym same ∙ h)) k)),
    )

-- A copy of a socket that shares its counter is one more owner; one that is not connected counts
-- nothing.
copy_lem :
    (f : ℕ → ℕ) (s : SyncSocket) (m : Memory)
    → Shares f s
    → Counted f m
    → ((a : ℕ) → f a + 1 < 2 ^ 32)
    → (m' : Memory) × (copy s m ≡ some (s, m'))
      × Counted (λ x. owns_count x (held s) + f x) m'
      × (m'.closed ≡ m.closed)
unfolding copy
copy_lem f s m (inl off) v l = (
  m,
  ap
      (λ b.
        if b
        then elim (increment s.refs m) [ none ↦ none | some m' ↦ some (s, m') ]
        else some (s, m))
      off,
  (λ b. v b ∙ ap tally (nothing b ∙ sym (ap (λ c. owns_count b c + f b) (not_held s off)))),
  refl,
)
  where
    nothing : (b : ℕ) → f b ≡ 0 + f b
    nothing b = omega arith
copy_lem f s m (inr (on, a, e, some_left)) v l =
    let same : held s ≡ some a = rw (on, e) refl in
    let (m', p, counted, closes, _) = increment_lem f m a v some_left (l a) in
    (
      m',
      ap
            (λ b.
              if b
              then elim (increment s.refs m) [ none ↦ none | some m' ↦ some (s, m') ]
              else some (s, m))
            on
          ∙ ap (λ c. elim (increment c m) [ none ↦ none | some m' ↦ some (s, m') ]) e
          ∙ ap (λ r. elim r [ none ↦ none | some m' ↦ some (s, m') ]) p,
      (λ b. counted b ∙ ap (λ c. tally (owns_count b c + f b)) (sym same)),
      closes,
    )

Shares-IsWhole : (f : ℕ → ℕ) (s : SyncSocket) → Shares f s → IsWhole s
Shares-IsWhole f s (inl off) = inl off
Shares-IsWhole f s (inr (on, a, e, _)) = inr (on, a, e)

All-middle :
    (xs : List SyncSocket) (s : SyncSocket) (ys : List SyncSocket)
    → All IsWhole (xs ++ s ∷ ys)
    → IsWhole s × All IsWhole (xs ++ ys)
All-middle [] s ys (v, vs) = (v, vs)
All-middle (x ∷ xs) s ys (v, vs) = let (w, ws) = All-middle xs s ys vs in (w, (v, ws))

All-insert :
    (xs : List SyncSocket) (s : SyncSocket) (ys : List SyncSocket)
    → IsWhole s
    → All IsWhole (xs ++ ys)
    → All IsWhole (xs ++ s ∷ ys)
All-insert [] s ys w v = (w, v)
All-insert (x ∷ xs) s ys w (v, vs) = (v, All-insert xs s ys w vs)

-- A copy of a live socket, connected or not, closes nothing and is counted.
pub copy-IsShared :
    (s : SyncSocket) (live : List SyncSocket) (m : Memory)
    → Shares (λ a. owners a live) s
    → length live + 1 < 2 ^ 31
    → IsShared live m
    → (m' : Memory) × (copy s m ≡ some (s, m')) × IsShared (s ∷ live) m' × (m'.closed ≡ m.closed)
copy-IsShared s live m h l v =
    let (m', p, counted, closes) =
      copy_lem (λ a. owners a live) s m h v.counted (λ a. omega (arith, l, owners-le a live)) in
    (
      m',
      p,
      record {
        few = omega (arith, l);
        counted = counted;
        shared = (Shares-IsWhole _ s h, v.shared);
      },
      closes,
    )

module _ (xs : List SyncSocket) (s : SyncSocket) (ys : List SyncSocket) (m : Memory)
    (v : IsShared (xs ++ s ∷ ys) m) where
  fewer : length (xs ++ ys) + 1 < 2 ^ 31
  fewer = omega (arith, length_middle xs s ys, v.few)

  pub closing :
      (s' : SyncSocket) × (m' : Memory) × (check_close s m ≡ some (s', m'))
      × Counted (λ a. owners a (xs ++ ys)) m'
      × (m'.closed ≡ m.closed ++ closed_by (held s) s.fd (λ a. owners a (xs ++ ys)))
      × ((a : ℕ) → held s ≡ some a → 0 < owners a (xs ++ ys) → s' ≡ s)
  closing =
      check_close_lem (λ a. owners a (xs ++ ys)) s m (All-middle xs s ys v.shared).0
        (λ b. v.counted b ∙ ap tally (owners_middle b xs s ys))
        (λ a. omega (arith, fewer, owners-le a (xs ++ ys)))

  -- The destructor of a live socket gives up its share, and closes the descriptor exactly when the
  -- socket is connected and no other live one shares its counter.
  pub destroy-IsShared :
      (m' : Memory) × (destroy s m ≡ some m')
      × IsShared (xs ++ ys) m'
      × (m'.closed ≡ m.closed ++ closed_by (held s) s.fd (λ a. owners a (xs ++ ys)))
  unfolding destroy
  destroy-IsShared =
      let (s', m', p, counted, closes, _) = closing in
      (
        m',
        ap (λ r. elim r [ none ↦ none | some (s', m') ↦ some m' ]) p,
        record {
          few = omega (arith, fewer);
          counted = counted;
          shared = (All-middle xs s ys v.shared).1;
        },
        closes,
      )

  -- An assignment from another live socket, connected or not, gives up the old share and takes one
  -- of the other, and closes the old descriptor exactly when no other live socket shares it.
  pub assign-IsShared :
      (asn : SyncSocket)
      → Shares (λ a. owners a (xs ++ ys)) asn
      → (m' : Memory) × (assign s asn m ≡ some (asn, m'))
        × IsShared (xs ++ asn ∷ ys) m'
        × (m'.closed ≡ m.closed ++ closed_by (held s) s.fd (λ a. owners a (xs ++ ys)))
  unfolding assign
  assign-IsShared asn h =
      let (s', m₁, p, counted, closes, _) = closing in
      let (m₂, q, counted₂, same) =
        copy_lem (λ a. owners a (xs ++ ys)) asn m₁ h counted
          (λ a. omega (arith, fewer, owners-le a (xs ++ ys))) in
      (
        m₂,
        ap (λ r. elim r [ none ↦ none | some (s', m') ↦ copy asn m' ]) p ∙ q,
        record {
          few = omega (arith, fewer, length_middle xs asn ys);
          counted = λ b. counted₂ b ∙ ap tally (sym (owners_middle b xs asn ys));
          shared = All-insert xs asn ys (Shares-IsWhole _ asn h) (All-middle xs s ys v.shared).1;
        },
        same ∙ closes,
      )
