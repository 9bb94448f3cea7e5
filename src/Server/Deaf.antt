-- ===== src/Server/Deaf.antt =====
-- What select can tell the server.
use networking.Prelude.{
  ℕ, ◌<◌, ◌≡◌, refl, ap, ◌∙◌, subst, List, [], ◌∷◌, false, Option, none, some, All, arith,
}
use networking.Server.{Server, is_set, nfds, round, serve}

-- What select promises: only descriptors below its first argument stay in the set.
abbrev pub Selects : Server → Option (List ℕ) → Type 0
Selects s none = Unit {0}
Selects s (some ready) = All (λ fd. fd < nfds s) ready

-- Each round keeps to it.
abbrev pub AllSelect : List (Option (List ℕ) × ℕ) → Server → Type 0
AllSelect [] s = Unit {0}
AllSelect ((ready, fd) ∷ calls) s =
    Selects s ready × (elim (round ready fd s) [ none ↦ Unit {0} | some s' ↦ AllSelect calls s' ])

nfds_alone : (soc : ℕ) → nfds (record { conns = []; soc = soc }) ≡ soc
unfolding nfds
nfds_alone soc = ground arith

below_not_set : (soc : ℕ) (ready : List ℕ) → All (λ fd. fd < soc) ready → is_set soc ready ≡ false
below_not_set soc [] v = refl
below_not_set soc (fd ∷ ready) (v, vs) = ground (arith, below_not_set soc ready vs)

round_alone :
    (soc fd : ℕ) (ready : List ℕ)
    → All (λ x. x < nfds (record { conns = []; soc = soc })) ready
    → round (some ready) fd (record { conns = []; soc = soc })
      ≡ some (record { conns = []; soc = soc })
unfolding round
round_alone soc fd ready v =
    rw (below_not_set soc ready (subst (λ n. All (λ x. x < n) ready) (nfds_alone soc) v)) refl

-- A server that starts without connections never takes one, on any descriptor and whatever connections
-- are asked for, if select keeps its promise: the socket that it listens on is not watched.
pub serve_alone :
    (soc : ℕ) (calls : List (Option (List ℕ) × ℕ))
    → AllSelect calls (record { conns = []; soc = soc })
    → serve calls (record { conns = []; soc = soc }) ≡ record { conns = []; soc = soc }
unfolding serve
serve_alone soc [] v = refl
serve_alone soc ((none, fd) ∷ calls) v = refl
serve_alone soc ((some ready, fd) ∷ calls) (v, vs) =
    let alone : Server = record { conns = []; soc = soc } in
    let stays = round_alone soc fd ready v in
    ap (λ r. elim r [ none ↦ alone | some s' ↦ serve calls s' ]) stays
    ∙ serve_alone soc calls (
        subst (λ (r : Option Server). elim r [ none ↦ Unit {0} | some s' ↦ AllSelect calls s' ])
          stays vs)
