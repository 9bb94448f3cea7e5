-- ===== src/Message.antt =====
-- class Message of scaling/src/Socket.hpp and Socket.cpp: the registry of message classes, and
-- messages on a stream. A class is known by the address of its table of virtual functions.
pub mod Registry
use networking.Prelude.{
  ℕ, ◌+◌, ◌%◌, ◌^◌, ◌==◌, if◌then◌else◌, Option, none, some, Bool, true, false,
}
use networking.Transfer.{undefined}
use networking.Stream.Io.{Io, ◌>>=◌, ◌>>◌, pure}
use networking.Stream.Numbers.{put_unsigned_short, get_unsigned_short}

-- `_type_gen`, `_type_map` from classes to types, and `_fact_map` from types to the class that the
-- factory makes.
pub record Classes : Type 0 where
  pub type_gen : ℕ
  pub type_map : ℕ → Option ℕ
  pub fact_map : ℕ → Option ℕ

unfoldable pub start : Classes
start = record { type_gen = 0; type_map = λ _. none; fact_map = λ _. none }

abbrev pub update : (ℕ → Option ℕ) → ℕ → ℕ → ℕ → Option ℕ
update f a v b = if a == b then some v else f b

-- Register, for a factory that makes objects of the class `id`. The generator has 16 bits.
unfoldable pub register : ℕ → Classes → Classes
register id r = record {
  type_gen = (r.type_gen + 1) % 2 ^ 16;
  type_map = update r.type_map id r.type_gen;
  fact_map = update r.fact_map r.type_gen id;
}

-- `_type_map[id]`, which enters 0 for a class that is not there.
unfoldable pub type_of : ℕ → Classes → ℕ × Classes
type_of id r = elim (r.type_map id) [
  | none ↦ (0, record r { type_map = update r.type_map id 0 })
  | some t ↦ (t, r)
]

module _ {B : Type 0} (serialize : ℕ → B → Io (Unit {0})) (deserialize : ℕ → Io B)
    (is_a : ℕ → Bool) where
  -- operator<< for a message of the class `id`.
  unfoldable pub put_message : Classes → ℕ × B → Io (Unit {0})
  unfolding type_of
  put_message r msg = (put_unsigned_short (type_of msg.0 r).0 >> serialize msg.0 msg.1)

  -- A new object of the class `id`, cast to the class that the caller asks for; the cast gives NULL
  -- if `is_a` fails, and then the message is read through NULL.
  abbrev build : Option ℕ → Io (Option (ℕ × B))
  build none = pure none
  build (some id) =
      if is_a id then (do body ← deserialize id; pure (some (id, body))) else (λ c. undefined)

  -- Get: `none` is the exception of a type without a factory.
  unfoldable pub get_message : Classes → Io (Option (ℕ × B))
  get_message r = do type ← get_unsigned_short; build (r.fact_map type)
