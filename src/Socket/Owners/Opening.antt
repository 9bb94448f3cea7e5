-- ===== src/Socket/Owners/Opening.antt =====
-- New sockets start with a counter of their own.
use networking.Prelude.{
  ℕ, ◌+◌, ◌^◌, ◌<◌, ◌≡◌, refl, ap, ◌∙◌, sym, List, ◌∷◌, some, arith, length, ℤ, Bool-cases, inl,
  inr,
}
use networking.Socket.{Socket, Memory, Kind, update, new_count, manage, accept, is_acceptable}
use networking.Socket.Owners.{owns_count, owners, tally, IsCounted, update_grow}

-- A socket with the counter that `new` brings, at an address that no live socket has.
pub new_count-IsCounted :
    (s : Socket) (live : List Socket) (m : Memory)
    → s.count ≡ some m.next
    → length live + 1 < 2 ^ 32
    → owners m.next live ≡ 0
    → IsCounted live m
    → IsCounted (s ∷ live) (new_count m).1
new_count-IsCounted s live m h l fresh v = record {
  few = omega (arith, l);
  counted = λ b.
      ap (λ n. update m.counts m.next (some n) b) (omega (arith, fresh))
      ∙ update_grow (λ a. owners a live) m m.next b v.counted
      ∙ ap (λ c. tally (owns_count b c + owners b live)) (sym h);
}

-- A socket made from a descriptor is the only owner of a counter, the others keep theirs, and
-- nothing is closed, if `new` brings an address that no live socket has.
pub manage-IsCounted :
    (fd : ℤ) (kind : Kind) (live : List Socket) (m : Memory)
    → length live + 1 < 2 ^ 32
    → owners m.next live ≡ 0
    → IsCounted live m
    → let r = manage fd kind m in
      IsCounted (r.0 ∷ live) r.1 × (owners m.next (r.0 ∷ live) ≡ 1) × (r.1.closed ≡ m.closed)
unfolding manage
manage-IsCounted fd kind live m l fresh v =
    (new_count-IsCounted _ live m refl l fresh v, ground (arith, fresh), refl)

-- The socket that Accept returns joins the live ones, whether the server socket is acceptable or not:
-- every counter is the number of its owners, and nothing is closed, if `new` brings an address that
-- no live socket has.
pub accept-IsCounted :
    (s : Socket) (fd : ℤ) (peer : List ℕ) (live : List Socket) (m : Memory)
    → length live + 1 < 2 ^ 32
    → owners m.next live ≡ 0
    → IsCounted live m
    → let r = accept s fd peer m in IsCounted (r.0 ∷ live) r.1 × (r.1.closed ≡ m.closed)
unfolding accept
accept-IsCounted s fd peer live m l fresh v = elim (Bool-cases (is_acceptable s)) [
  | inl ready ↦ rw ready (new_count-IsCounted _ live m refl l fresh v, refl)
  | inr unready ↦
      rw unready (
        record { few = omega (arith, l); counted = λ b. v.counted b ∙ ap tally (omega arith) },
        refl,
      )
]
