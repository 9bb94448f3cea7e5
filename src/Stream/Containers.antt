-- ===== src/Stream/Containers.antt =====
-- The operators of Stream for std::pair, std::vector and std::map. Those for vectors and maps end
-- without the `return` that their type calls for, which is undefined.
use networking.Prelude.{
  ℕ, zero, suc, ◌%◌, ◌^◌, List, [], ◌∷◌, ◌++◌, Bool, length, if◌then◌else◌, ltb,
}
use networking.Transfer.{undefined}
use networking.Stream.Io.{Io, ◌>>=◌, ◌>>◌, pure}
use networking.Stream.Numbers.{put_unsigned_int, get_unsigned_int}

-- The end of a function that should return and does not.
abbrev no_return : {A : Type 0} → Io A
no_return c = undefined

-- The rounds of `for(int i = 0; i < size; i++)`: the last `i++` of 2 ^ 31 rounds overflows, which is
-- undefined, as is what comes behind the loop.
abbrev rounds : ℕ → ℕ
rounds size = if ltb size (2 ^ 31) then size else 2 ^ 31

module _ {A B : Type 0} (put_a : A → Io (Unit {0})) (put_b : B → Io (Unit {0})) where
  unfoldable pub put_pair : A × B → Io (Unit {0})
  put_pair p = (put_a p.0 >> put_b p.1)

module _ {A B : Type 0} (get_a : Io A) (get_b : Io B) where
  unfoldable pub get_pair : Io (A × B)
  get_pair = do first ← get_a; second ← get_b; pure (first, second)

module _ {A : Type 0} where
  -- The loop over the elements.
  unfoldable pub put_each : (A → Io (Unit {0})) → List A → Io (Unit {0})
  put_each put [] = pure tt
  put_each put (x ∷ xs) = (put x >> put_each put xs)

  unfoldable pub put_vector : (A → Io (Unit {0})) → List A → Io (Unit {0})
  unfolding put_each
  put_vector put v = (put_unsigned_int (length v % 2 ^ 32) >> put_each put v >> no_return)

  -- `size` rounds, each of which reads an element and pushes it back.
  unfoldable pub get_each : Io A → ℕ → List A → Io (List A)
  get_each get zero v = pure v
  get_each get (suc size) v = do curr ← get; get_each get size (v ++ curr ∷ [])

  unfoldable pub get_vector : Io A → Io (List A)
  unfolding get_each
  get_vector get = do size ← get_unsigned_int; v ← get_each get (rounds size) []; no_return

-- A std::map is the list of its pairs in the order of their keys. `m[key] = val`:
module _ {K V : Type 0} (less : K → K → Bool) where
  unfoldable pub insert : K → V → List (K × V) → List (K × V)
  insert key val [] = (key, val) ∷ []
  insert key val ((k, v) ∷ m) =
      let rest = insert key val m in
      if less key k
      then (key, val) ∷ ((k, v) ∷ m)
      else if less k key
      then (k, v) ∷ rest
      else (key, val) ∷ m

  unfoldable pub get_entries : Io K → Io V → ℕ → List (K × V) → Io (List (K × V))
  unfolding insert
  get_entries get_k get_v zero m = pure m
  get_entries get_k get_v (suc size) m = do
    curr_key ← get_k
    curr_val ← get_v
    get_entries get_k get_v size (insert curr_key curr_val m)

  unfoldable pub get_map : Io K → Io V → Io (List (K × V))
  unfolding get_entries
  get_map get_k get_v = do
    size ← get_unsigned_int
    m ← get_entries get_k get_v (rounds size) []
    no_return

-- The loop sends each entry as a pair.
unfoldable pub put_map :
    {K V : Type 0} → (K → Io (Unit {0})) → (V → Io (Unit {0})) → List (K × V) → Io (Unit {0})
unfolding put_each put_pair
put_map put_k put_v m =
    (put_unsigned_int (length m % 2 ^ 32) >> put_each (put_pair put_k put_v) m >> no_return)
