-- ===== src/Data.antt =====
-- class data of scaling/src/main.cpp: a message that holds a std::unordered_map<int, std::string>.
pub mod Arrival
use networking.Prelude.{
  ℕ, zero, suc, ◌%◌, ◌^◌, ◌≡◌, List, [], ◌∷◌, Bool, true, false, ◌==◌, if◌then◌else◌, Option, none,
  some, length, ℤ, pos, negsuc,
}
use networking.Stream.Io.{Io, ◌>>=◌, ◌>>◌, pure}
use networking.Stream.Numbers.{put_int, get_int, put_unsigned_int, get_unsigned_int}
use networking.Stream.Text.{put_string, get_string}
use networking.Stream.Containers.{put_pair, get_pair, put_each}

abbrev pub same_int : ℤ → ℤ → Bool
same_int (pos m) (pos n) = m == n
same_int (pos m) (negsuc n) = false
same_int (negsuc m) (pos n) = false
same_int (negsuc m) (negsuc n) = m == n

abbrev pub look : ℤ → List (ℤ × List ℕ) → Option (List ℕ)
look k [] = none
look k (e ∷ es) = if same_int k e.0 then some e.1 else look k es

-- The library's map: its entries in the order in which it is walked through, which nothing promises,
-- and the assignment `map[key] = val`.
pub record UnorderedMap : Type 1 where
  pub Table : Type 0
  pub empty : Table
  pub entries : Table → List (ℤ × List ℕ)
  pub assign : ℤ → List ℕ → Table → Table
  pub look-empty : (k : ℤ) → look k (entries empty) ≡ none
  pub look-assign :
      (k j : ℤ) (val : List ℕ) (m : Table)
      → look k (entries (assign j val m)) ≡ (if same_int k j then some val else look k (entries m))

module _ (lib : UnorderedMap) where
  -- Serialize
  unfoldable pub serialize : lib.Table → Io (Unit {0})
  unfolding put_each put_pair
  serialize map =
      (put_unsigned_int (length (lib.entries map) % 2 ^ 32)
        >> put_each (put_pair put_int put_string) (lib.entries map))

  -- The loop of Deserialize. The map keeps what it had.
  unfoldable pub read_entries : ℕ → lib.Table → Io lib.Table
  unfolding get_pair
  read_entries zero map = pure map
  read_entries (suc size) map = do
    curr ← get_pair get_int get_string
    read_entries size (lib.assign curr.0 curr.1 map)

  -- Deserialize, for the object with this map.
  unfoldable pub deserialize : lib.Table → Io lib.Table
  unfolding read_entries
  deserialize map = do size ← get_unsigned_int; read_entries size map
