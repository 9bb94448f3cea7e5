-- ===== src/Stream/Io.antt =====
-- Stream::Write and Stream::Read, and what it means that a value survives the way over the wire.
use networking.Prelude.{
  ℕ, ◌+◌, ◌≡◌, refl, sym, ap, ◌∙◌, List, [], ◌++◌, Option, length, append_assoc, append-nil,
  length-append, ◌==◌, if◌then◌else◌, arith, ltb, ◌<◌, ◌^◌, lt→ltb, true, subst,
}
use networking.Transfer.{
  Outcome, Ended, returned, waiting, undefined, Conn, send, recv, Steady, send_delivers,
  recv_delivers,
}

abbrev pub Io : Type 0 → Type 0
Io A = Conn → Ended (A × Conn)

abbrev pub pure : {A : Type 0} → A → Io A
pure a c = returned (a, c)

abbrev pub after : {A B : Type 0} → Ended (A × Conn) → (A → Io B) → Ended (B × Conn)
after (returned (a, c)) f = f a c
after waiting f = waiting
after undefined f = undefined

infixl 5 ◌>>=◌ ◌>>◌
abbrev pub ◌>>=◌ : {A B : Type 0} → Io A → (A → Io B) → Io B
◌>>=◌ m f c = after (m c) f

abbrev pub ◌>>◌ : {B : Type 0} → Io (Unit {0}) → Io B → Io B
m >> k = m >>= λ _. k

-- The bytes of a buffer whose length is a parameter of type int. A length from 2 ^ 31 on becomes
-- negative, and then so large a size_t that the loop leaves the buffer.
abbrev max_len : ℕ
max_len = 2 ^ 31

abbrev written : Ended (Option ℕ × Conn) → Ended (Unit {0} × Conn)
written (returned (ret, c)) = returned (tt, c)
written waiting = waiting
written undefined = undefined

-- Write ignores what Send returns.
unfoldable pub write : List ℕ → Io (Unit {0})
write bytes c = if ltb (length bytes) max_len then written (send bytes c) else undefined

-- The buffer has never been written to, so that its bytes are defined only if all have come.
abbrev fill : ℕ → Ended (Option ℕ × List ℕ × Conn) → Ended (List ℕ × Conn)
fill len (returned (ret, got, c)) = if length got == len then returned (got, c) else undefined
fill len waiting = waiting
fill len undefined = undefined

unfoldable pub read : ℕ → Io (List ℕ)
read len c = if ltb len max_len then fill len (recv len c) else undefined

-- Whenever the schedule leaves room for `n` more calls, the action sends these bytes.
pub record Writes (m : Io (Unit {0})) (bs : List ℕ) : Type 0 where
  pub sends :
      (n : ℕ) (c : Conn)
      → Steady (length bs + n) c.sends
      → (calls : List Outcome) × (m c
          ≡ returned (tt, record c { sends = calls; outgoing = c.outgoing ++ bs }))
        × Steady n calls

-- The action takes these bytes from those that arrive, and returns this value.
pub record Reads {A : Type 0} (m : Io A) (bs : List ℕ) (a : A) : Type 0 where
  pub takes :
      (n : ℕ) (rest : List ℕ) (c : Conn)
      → c.incoming ≡ bs ++ rest
      → Steady (length bs + n) c.recvs
      → (calls : List Outcome) × (m c ≡ returned (a, record c { recvs = calls; incoming = rest }))
        × Steady n calls

-- What `put` sends of the value, `get` reads back as the value.
pub record Carries {A : Type 0} (put : A → Io (Unit {0})) (get : Io A) (a : A) : Type 0 where
  pub bytes : List ℕ
  pub written : Writes (put a) bytes
  pub read_back : Reads get bytes a

pub write-Writes : (bs : List ℕ) → length bs < 2 ^ 31 → Writes (write bs) bs
unfolding write
write-Writes bs h = record {
  sends = λ n c v.
      let (ret, calls, e, w) = send_delivers n bs c h v in
      (calls, rw (write, lt→ltb (length bs) (2 ^ 31) h, e) refl, w);
}

==_refl : (n : ℕ) → (n == n) ≡ true
==_refl n = ground arith

pub read-Reads : (bs : List ℕ) → length bs < 2 ^ 31 → Reads (read (length bs)) bs bs
unfolding read
read-Reads bs h = record {
  takes = λ n rest c e v.
      let (ret, calls, e, w) = recv_delivers n bs rest c h e v in
      (calls, rw (read, lt→ltb (length bs) (2 ^ 31) h, e, ==_refl (length bs)) refl, w);
}

pub pure-Reads : {A : Type 0} (a : A) → Reads (pure a) [] a
pure-Reads a = record {
  takes = λ n rest c e v.
      (c.recvs, ap (λ i. returned (a, record c { incoming = i })) e, (omega (arith, v.0), v.1));
}

pub >>=-Reads :
    {A B : Type 0} (m : Io A) (f : A → Io B) {bs cs : List ℕ} {a : A} {b : B}
    → Reads m bs a
    → Reads (f a) cs b
    → Reads (m >>= f) (bs ++ cs) b
>>=-Reads m f {bs} {cs} {a} {b} r s = record {
  takes = λ n rest c e v.
      let (calls, e₁, w) =
        r.takes (length cs + n) (cs ++ rest) c (e ∙ append_assoc bs cs rest)
          (omega (arith, v.0, length-append bs cs), v.1) in
      let (calls', e₂, w') =
        s.takes n rest (record c { recvs = calls; incoming = cs ++ rest }) refl w in
      (calls', ap (λ x. after x f) e₁ ∙ e₂, w');
}

pub pure-Writes : Writes (pure tt) []
pure-Writes = record {
  sends = λ n c v. (
    c.sends,
    ap (λ o. returned (tt, record c { outgoing = o })) (sym (append-nil c.outgoing)),
    (omega (arith, v.0), v.1),
  );
}

pub >>-Writes :
    (m k : Io (Unit {0})) {bs cs : List ℕ} → Writes m bs → Writes k cs → Writes (m >> k) (bs ++ cs)
>>-Writes m k {bs} {cs} r s = record {
  sends = λ n c v.
      let (calls, e₁, w) =
        r.sends (length cs + n) c (omega (arith, v.0, length-append bs cs), v.1) in
      let (calls', e₂, w') =
        s.sends n (record c { sends = calls; outgoing = c.outgoing ++ bs }) w in
      (
        calls',
        ap (λ x. after x (λ _. k)) e₁
            ∙ e₂
            ∙ ap (λ (o : List ℕ). returned (tt, record c { sends = calls'; outgoing = o }))
                (append_assoc c.outgoing bs cs),
        w',
      );
}

pub map-Reads :
    {A B : Type 0} (m : Io A) (f : A → B) {bs : List ℕ} {a : A} {b : B}
    → Reads m bs a
    → f a ≡ b
    → Reads (m >>= λ x. pure (f x)) bs b
map-Reads m f r p = record {
  takes = λ n rest c e v.
      let (calls, e₁, w) = r.takes n rest c e v in
      (
        calls,
        ap (λ x. after x (λ y. pure (f y))) e₁
            ∙ ap (λ y. returned (y, record c { recvs = calls; incoming = rest })) p,
        w,
      );
}

-- A value that is written as `bytes`, `n` of them, and read as the value of `n` bytes.
pub fixed-Carries :
    {A : Type 0} (bytes : A → List ℕ) (value : List ℕ → A) (n : ℕ) (a : A)
    → length (bytes a) ≡ n
    → n < 2 ^ 31
    → value (bytes a) ≡ a
    → Carries (λ x. write (bytes x)) (read n >>= λ d. pure (value d)) a
fixed-Carries bytes value n a l h p = record {
  bytes = bytes a;
  written = write-Writes (bytes a) (omega (arith, l));
  read_back =
      map-Reads (read n) value
        (subst (λ k. Reads (read k) (bytes a) (bytes a)) l
          (read-Reads (bytes a) (omega (arith, l))))
        p;
}
