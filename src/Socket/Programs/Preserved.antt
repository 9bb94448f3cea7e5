-- ===== src/Socket/Programs/Preserved.antt =====
-- Each operation on sockets keeps a program sound.
use networking.Prelude.{
  ℕ, suc, ◌+◌, ◌^◌, ◌<◌, ◌≤◌, ◌≡◌, ◌≢◌, ap, ◌∙◌, sym, subst, List, [], ◌∷◌, ◌++◌, false, ◌==◌, some,
  arith, length, length-append, ℤ,
}
use networking.Socket.{Socket, Memory, no_socket, copy, destroy, assign, assign_self}
use networking.Socket.Owners.{owns_count, owns, owners, tally, IsCounted, closed_by}
use networking.Socket.Owners.Sharing.{
  copy-IsCounted, destroy-IsCounted, assign-IsCounted, assign_self-IsCounted, owners_middle,
  length_middle,
}
use networking.Socket.Programs.Held.{
  given_to, Settled, settled_same, settled_share, settled_new, settled_release,
}
use networking.Socket.Programs.Sound.{
  IsNamed, Sound, given_to-last, append-IsNamed, All_middle, All_insert, count-injective, owns_none,
  owns_one, not_zero, foreign,
}

-- A socket without a counter.
pub default_keeps :
    (live : List Socket) (m : Memory) (given : List ℤ)
    → length live + 1 < 2 ^ 32
    → Sound live m given
    → Sound (no_socket ∷ live) m given
default_keeps live m given l v = record {
  counted = record {
    few = omega (arith, l);
    counted = λ b. v.counted.counted b ∙ ap tally (omega arith);
  };
  addresses = v.addresses;
  fresh = λ a h. omega (arith, v.fresh a h);
  named = ((λ a e. cc), v.named);
  settled =
      settled_same (λ a. owners a live) (λ a. owners a (no_socket ∷ live)) given m.closed
        (λ a. ap (λ n. n == 0) (omega arith)) v.settled;
}

-- A socket with the counter at the next address.
pub new_keeps :
    (s : Socket) (live : List Socket) (m m' : Memory) (given : List ℤ)
    → s.count ≡ some m.next
    → IsCounted (s ∷ live) m'
    → m'.closed ≡ m.closed
    → m'.next ≡ suc m.next
    → Sound live m given
    → Sound (s ∷ live) m' (given ++ s.fd ∷ [])
new_keeps s live m m' given h counted closes next v = record {
  counted = counted;
  addresses = length-append given (s.fd ∷ []) ∙ omega (arith, v.addresses, next);
  fresh = λ a le. omega (arith, other a (omega (arith, next)), v.fresh a (omega (arith, next)));
  named = (
    (λ a e.
        subst (λ b. given_to (given ++ s.fd ∷ []) b ≡ some s.fd)
          (v.addresses ∙ count-injective (sym h ∙ e)) (given_to-last given s.fd)),
    append-IsNamed given (s.fd ∷ []) live v.named,
  );
  settled =
      subst (λ c. Settled (given ++ s.fd ∷ []) c (λ a. owners a (s ∷ live))) (sym closes)
        (settled_new (λ a. owners a live) (λ a. owners a (s ∷ live)) s.fd given m.closed
          (λ a lt. ap (λ n. n == 0) (omega (arith, other a (omega (arith, v.addresses))))) own
          v.settled);
}
  where
    other : (a : ℕ) → a ≢ m.next → owns a s ≡ 0
    other a ne = ap (owns_count a) h ∙ owns_none a m.next ne

    one : owns (length given) s ≡ 1
    one =
        ap (owns_count (length given)) h
        ∙ ap (λ b. owns_count b (some m.next)) v.addresses
        ∙ owns_one m.next

    own : (owners (length given) (s ∷ live) == 0) ≡ false
    own = not_zero _ (omega (arith, one))

-- A copy of a socket whose counter has an owner.
pub copy_keeps :
    (s : Socket) (live : List Socket) (m : Memory) (given : List ℤ) (a : ℕ)
    → s.count ≡ some a
    → 0 < owners a live
    → length live + 1 < 2 ^ 32
    → IsNamed given s
    → Sound live m given
    → (m' : Memory) × (copy s m ≡ some (s, m')) × Sound (s ∷ live) m' given
copy_keeps s live m given a h o l n v =
    let (m', e, counted, closes, next) = copy-IsCounted s live m a h o l v.counted in
    (
      m',
      e,
      record {
        counted = counted;
        addresses = v.addresses ∙ sym next;
        fresh = λ b le.
            let unowned = v.fresh b (omega (arith, le, next)) in
            omega (arith, ap (owns_count b) h ∙ foreign live a b o unowned, unowned);
        named = (n, v.named);
        settled =
            subst (λ c. Settled given c (λ b. owners b (s ∷ live))) (sym closes)
              (subst (λ c. Settled given m.closed (λ b. owns_count b c + owners b live)) (sym h)
                (settled_share (λ b. owners b live) a given m.closed o v.settled));
      },
    )

module _ (xs : List Socket) (s : Socket) (ys : List Socket) (m : Memory) (given : List ℤ)
    (v : Sound (xs ++ s ∷ ys) m given) where
  length_others : length (xs ++ ys) < length (xs ++ s ∷ ys)
  length_others = omega (arith, length_middle xs s ys)

  -- What the live sockets but one have settled, before the one gives up its counter.
  without : Settled given m.closed (λ b. owns_count b s.count + owners b (xs ++ ys))
  without =
      settled_same (λ b. owners b (xs ++ s ∷ ys)) (λ b. owns_count b s.count + owners b (xs ++ ys))
        given m.closed (λ b. ap (λ n. n == 0) (owners_middle b xs s ys)) v.settled

  released :
      Settled given
        (m.closed ++ closed_by s.count s.fd (λ a. owners a (xs ++ ys)))
        (λ b. owners b (xs ++ ys))
  released =
      settled_release (λ b. owners b (xs ++ ys)) s.count s.fd given m.closed
        (All_middle (IsNamed given) xs s ys v.named).0 without

  fresh_others : (a : ℕ) → m.next ≤ a → owners a (xs ++ ys) ≡ 0
  fresh_others a h = omega (arith, owners_middle a xs s ys, v.fresh a h)

  -- The end of a live socket.
  pub destroy_keeps : (m' : Memory) × (destroy s m ≡ some m') × Sound (xs ++ ys) m' given
  destroy_keeps =
      let (m', e, counted, closes, next) = destroy-IsCounted xs s ys m v.counted.few v.counted in
      (
        m',
        e,
        record {
          counted = counted;
          addresses = v.addresses ∙ sym next;
          fresh = λ a h. fresh_others a (omega (arith, h, next));
          named = (All_middle (IsNamed given) xs s ys v.named).1;
          settled = subst (λ c. Settled given c (λ b. owners b (xs ++ ys))) (sym closes) released;
        },
      )

  -- An assignment from another socket, whose counter has an owner.
  pub assign_keeps :
      (soc : Socket) (a : ℕ)
      → soc.count ≡ some a
      → 0 < owners a (xs ++ ys)
      → IsNamed given soc
      → (m' : Memory) × (assign s soc m ≡ some (soc, m')) × Sound (xs ++ soc ∷ ys) m' given
  assign_keeps soc a h o n =
      let (m', e, counted, closes, next) =
        assign-IsCounted xs s ys m v.counted.few v.counted soc a h o in
      (
        m',
        e,
        record {
          counted = counted;
          addresses = v.addresses ∙ sym next;
          fresh = λ b le.
              let unowned = fresh_others b (omega (arith, le, next)) in
              omega (
                arith,
                owners_middle b xs soc ys,
                ap (owns_count b) h ∙ foreign (xs ++ ys) a b o unowned,
                unowned,
              );
          named =
              All_insert (IsNamed given) xs soc ys n (All_middle (IsNamed given) xs s ys v.named).1;
          settled =
              subst (λ c. Settled given c (λ b. owners b (xs ++ soc ∷ ys))) (sym closes)
                (settled_same (λ b. owns_count b (some a) + owners b (xs ++ ys))
                  (λ b. owners b (xs ++ soc ∷ ys)) given _
                  (λ b.
                    ap (λ n. n == 0)
                      (ap (λ c. owns_count b c + owners b (xs ++ ys)) (sym h)
                        ∙ sym (owners_middle b xs soc ys)))
                  (settled_share (λ b. owners b (xs ++ ys)) a given _ o released));
        },
      )

  -- An assignment to itself, of a socket whose counter has another owner.
  pub assign_self_keeps :
      (a : ℕ)
      → s.count ≡ some a
      → 0 < owners a (xs ++ ys)
      → (m' : Memory) × (assign_self s m ≡ some (s, m')) × Sound (xs ++ s ∷ ys) m' given
  assign_self_keeps a h o =
      let (m', e, counted, closes, next) =
        assign_self-IsCounted xs s ys m v.counted.few v.counted a h o in
      (
        m',
        e,
        record {
          counted = counted;
          addresses = v.addresses ∙ sym next;
          fresh = λ b le. v.fresh b (omega (arith, le, next));
          named = v.named;
          settled =
              subst (λ c. Settled given c (λ b. owners b (xs ++ s ∷ ys))) (sym closes) v.settled;
        },
      )
