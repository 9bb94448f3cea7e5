-- ===== src/Message/Registry.antt =====
-- The registry is consistent, and a registered message survives the way over the wire.
use networking.Prelude.{
  ℕ, ◌+◌, ◌%◌, ◌^◌, ◌<◌, ◌≡◌, refl, none, some, Bool, true, List, [], ◌∷◌, ◌++◌, length, arith,
}
use networking.Stream.Io.{Io, Writes, Reads, Carries, >>-Writes, >>=-Reads, map-Reads}
use networking.Stream.Numbers.{put_unsigned_short-Carries, put_unsigned_short_bytes}
use networking.Message.{Classes, start, register, type_of, put_message, get_message}

-- Every class that has a type is what the factory of that type makes, and the types run below the
-- generator.
pub record IsConsistent (r : Classes) : Type 0 where
  pub below : (id t : ℕ) → r.type_map id ≡ some t → t < r.type_gen
  pub made : (id t : ℕ) → r.type_map id ≡ some t → r.fact_map t ≡ some id
  pub no_wrap : r.type_gen < 2 ^ 16

start-IsConsistent : IsConsistent start
unfolding start
start-IsConsistent = record { below = λ id t e. cc; made = λ id t e. cc; no_wrap = omega arith }

-- Registering a class, also one that is there already, keeps the registry consistent while the
-- generator does not wrap.
pub register-IsConsistent :
    (id : ℕ) (r : Classes) → r.type_gen + 1 < 2 ^ 16 → IsConsistent r → IsConsistent (register id r)
unfolding register
register-IsConsistent id r h v = record {
  below = λ k t e. ground (arith, v.below k t);
  made = λ k t e. ground (arith, v.below k t, v.made k t);
  no_wrap = omega arith;
}

abbrev pub register_all : List ℕ → Classes → Classes
register_all [] r = r
register_all (id ∷ ids) r = register_all ids (register id r)

type_gen-register : (id : ℕ) (r : Classes) → (register id r).type_gen ≡ (r.type_gen + 1) % 2 ^ 16
unfolding register
type_gen-register id r = refl

register_all_from :
    (ids : List ℕ) (r : Classes)
    → r.type_gen + length ids < 2 ^ 16
    → IsConsistent r
    → IsConsistent (register_all ids r)
register_all_from [] r h v = v
register_all_from (id ∷ ids) r h v =
    register_all_from ids (register id r) (omega (arith, type_gen-register id r))
      (register-IsConsistent id r (omega arith) v)

-- The registry is consistent after fewer than 2 ^ 16 registrations from the start.
pub register_all-IsConsistent :
    (ids : List ℕ) → length ids < 2 ^ 16 → IsConsistent (register_all ids start)
register_all-IsConsistent ids h =
    register_all_from ids start (unfold start in omega arith) start-IsConsistent

module _ {B : Type 0} (serialize : ℕ → B → Io (Unit {0})) (deserialize : ℕ → Io B)
    (is_a : ℕ → Bool) where
  -- A message of a registered class goes out with its type in front, and is built from what the
  -- body is read as.
  pub message_arrives :
      (r : Classes) (id t : ℕ) (body other : B) (bytes : List ℕ)
      → IsConsistent r
      → r.type_map id ≡ some t
      → is_a id ≡ true
      → Writes (serialize id body) bytes
      → Reads (deserialize id) bytes other
      → (sent : List ℕ) × Writes (put_message serialize deserialize is_a r (id, body)) sent
        × Reads (get_message serialize deserialize is_a r) sent (some (id, other))
  unfolding put_message get_message
  message_arrives r id t body other bytes v e a w d =
      let type = put_unsigned_short-Carries t (omega (arith, v.below id t e, v.no_wrap)) in
      (
        type.bytes ++ bytes,
        rw (put_message, type_of, e) (>>-Writes _ _ type.written w),
        >>=-Reads _ _ type.read_back
            (rw (v.made id t e, a) (map-Reads (deserialize id) (λ b. some (id, b)) d refl)),
      )

  -- A message of a registered class comes back as an object of its class with its body, if the
  -- body survives the way over the wire.
  pub get_message-put_message :
      (r : Classes) (id t : ℕ) (body : B)
      → IsConsistent r
      → r.type_map id ≡ some t
      → is_a id ≡ true
      → Carries (serialize id) (deserialize id) body
      → (bytes : List ℕ) × Writes (put_message serialize deserialize is_a r (id, body)) bytes
        × Reads (get_message serialize deserialize is_a r) bytes (some (id, body))
  get_message-put_message r id t body v e a c =
      message_arrives r id t body body c.bytes v e a c.written c.read_back

  -- A message of a class that was never registered goes out under the type 0, and comes back as an
  -- object of the class that was registered first.
  pub put_message_unregistered :
      (r : Classes) (id first : ℕ) (body other : B) (bytes : List ℕ)
      → r.type_map id ≡ none
      → r.fact_map 0 ≡ some first
      → is_a first ≡ true
      → Writes (serialize id body) bytes
      → Reads (deserialize first) bytes other
      → Writes (put_message serialize deserialize is_a r (id, body)) (0 ∷ 0 ∷ bytes)
        × Reads (get_message serialize deserialize is_a r) (0 ∷ 0 ∷ bytes) (some (first, other))
  unfolding put_message get_message
  put_message_unregistered r id first body other bytes e f a w c =
      let (typed, read_back) = put_unsigned_short_bytes 0 (omega arith) in
      (
        rw (put_message, type_of, e) (>>-Writes _ _ typed w),
        >>=-Reads _ _ read_back
            (rw (f, a) (map-Reads (deserialize first) (λ b. some (first, b)) c refl)),
      )
