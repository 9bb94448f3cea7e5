-- ===== src/Socket/Programs/Sound.antt =====
-- What holds of a program with sockets at any time.
use networking.Prelude.{
  ℕ, zero, suc, ◌<◌, ◌≤◌, ◌≡◌, ◌≢◌, refl, ap, List, [], ◌∷◌, ◌++◌, false, ◌==◌, some, arith, length,
  All, ℤ,
}
use networking.Socket.{Socket, Memory}
use networking.Socket.Owners.{owns_count, owners, IsCounted}
use networking.Socket.Programs.{Program}
use networking.Socket.Programs.Held.{given_to, Settled}

-- The descriptor of a socket with a counter is the one that the counter was made for.
abbrev pub IsNamed : List ℤ → Socket → Type 0
IsNamed given s = (a : ℕ) → s.count ≡ some a → given_to given a ≡ some s.fd

-- Every counter holds the number of its owners, the addresses are those of the descriptors given,
-- no address behind them is owned, and each descriptor is closed or has an owner.
pub record IsSound (p : Program) : Type 0 where
  pub counted : IsCounted p.live p.memory
  pub addresses : length p.given ≡ p.memory.next
  pub fresh : (a : ℕ) → p.memory.next ≤ a → owners a p.live ≡ 0
  pub named : All (IsNamed p.given) p.live
  pub settled : Settled p.given p.memory.closed (λ a. owners a p.live)

given_to-append :
    (fds more : List ℤ) (a : ℕ) (fd : ℤ)
    → given_to fds a ≡ some fd
    → given_to (fds ++ more) a ≡ some fd
given_to-append [] more a fd e = cc
given_to-append (x ∷ fds) more zero fd e = e
given_to-append (x ∷ fds) more (suc a) fd e = given_to-append fds more a fd e

pub given_to-last : (fds : List ℤ) (fd : ℤ) → given_to (fds ++ fd ∷ []) (length fds) ≡ some fd
given_to-last [] fd = refl
given_to-last (x ∷ fds) fd = given_to-last fds fd

pub append-IsNamed :
    (given more : List ℤ) (live : List Socket)
    → All (IsNamed given) live
    → All (IsNamed (given ++ more)) live
append-IsNamed given more [] v = tt
append-IsNamed given more (s ∷ live) (v, vs) =
    (λ a e. given_to-append given more a s.fd (v a e), append-IsNamed given more live vs)

-- A program with these live sockets, this memory and these descriptors given.
abbrev pub Sound : List Socket → Memory → List ℤ → Type 0
Sound live m given = IsSound (record { live = live; memory = m; given = given })

pub All_middle :
    (P : Socket → Type 0) (xs : List Socket) (s : Socket) (ys : List Socket)
    → All P (xs ++ s ∷ ys)
    → P s × All P (xs ++ ys)
All_middle P [] s ys (v, vs) = (v, vs)
All_middle P (x ∷ xs) s ys (v, vs) = let (w, ws) = All_middle P xs s ys vs in (w, (v, ws))

pub All_insert :
    (P : Socket → Type 0) (xs : List Socket) (s : Socket) (ys : List Socket)
    → P s
    → All P (xs ++ ys)
    → All P (xs ++ s ∷ ys)
All_insert P [] s ys v vs = (v, vs)
All_insert P (x ∷ xs) s ys v (w, ws) = (w, All_insert P xs s ys v ws)

pub count-injective : {a b : ℕ} → some a ≡ some b → a ≡ b
count-injective e = cc e

pub owns_none : (a b : ℕ) → a ≢ b → owns_count a (some b) ≡ 0
owns_none a b ne = ground arith

pub owns_one : (a : ℕ) → owns_count a (some a) ≡ 1
owns_one a = ground arith

pub not_zero : (n : ℕ) → 0 < n → (n == 0) ≡ false
not_zero n h = ground arith

-- Of two addresses, one with owners and one without, a socket has not both.
pub foreign :
    (live : List Socket) (a b : ℕ)
    → 0 < owners a live
    → owners b live ≡ 0
    → owns_count b (some a) ≡ 0
foreign live a b o z = owns_none b a (λ e. omega (arith, o, z, ap (λ c. owners c live) e))
