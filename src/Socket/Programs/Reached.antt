-- ===== src/Socket/Programs/Reached.antt =====
-- Whole programs with sockets: no allowed program faults, and each descriptor is closed once.
use networking.Prelude.{
  ◌+◌, ◌^◌, ◌<◌, ◌≡◌, refl, ap, ◌∙◌, sym, List, [], ◌∷◌, Bool, true, false, ◌&&◌, none, some, arith,
  length,
}
use mathlib.Core.List.Perm
use networking.Socket.Programs.{Program, Action, allowed, run_actions, all_allowed, empty_program}
use networking.Socket.Programs.Sound.{IsSound}
use networking.Socket.Programs.Acts.{act_lem}

and_both : (a b : Bool) → (a && b) ≡ true → (a ≡ true) × (b ≡ true)
and_both true b h = (refl, h)
and_both false b h = cc

run_from :
    (actions : List Action) (p : Program)
    → all_allowed actions p ≡ true
    → length p.live + length actions < 2 ^ 32
    → IsSound p
    → (p' : Program) × (run_actions actions p ≡ some p') × IsSound p'
run_from [] p h l v = (p, refl, v)
run_from (x ∷ xs) p h l v =
    let (now, later) = and_both (allowed x p) _ h in
    let (p', e, w, le) = act_lem x p (omega arith) now v in
    let (p'', f, u) =
      run_from xs p' (sym (ap (λ o. elim o [ none ↦ true | some y ↦ all_allowed xs y ]) e) ∙ later)
        (omega (arith, le)) w in
    (p'', ap (λ o. elim o [ none ↦ none | some y ↦ run_actions xs y ]) e ∙ f, u)

empty_program-IsSound : IsSound empty_program
empty_program-IsSound = record {
  counted = record { few = omega arith; counted = λ a. refl };
  addresses = refl;
  fresh = λ a h. refl;
  named = tt;
  settled = Perm.rfl;
}

-- A program of fewer than 2 ^ 32 actions, in which sockets without a counter are not copied or
-- assigned from and only one that shares its counter is assigned to itself, does not fault. At its end every counter holds the number of its owners, and each
-- descriptor that was given to a counter is either closed or has an owner, as often as it was given.
pub run-IsSound :
    (actions : List Action)
    → all_allowed actions empty_program ≡ true
    → length actions < 2 ^ 32
    → (p : Program) × (run_actions actions empty_program ≡ some p) × IsSound p
run-IsSound actions h l = run_from actions empty_program h (omega (arith, l)) empty_program-IsSound
