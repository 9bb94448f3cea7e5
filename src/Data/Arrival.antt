-- ===== src/Data/Arrival.antt =====
-- What arrives of a map that class data of scaling/src/main.cpp sends.
use networking.Prelude.{
  ℕ, ◌%◌, ◌^◌, ◌<◌, ◌≡◌, refl, ap, ◌∙◌, sym, subst, List, [], ◌∷◌, ◌++◌, Bool, true, ==_iff, Option,
  none, some, length, ℤ, pos, negsuc, InRange, All, arith, Bool-cases, inl, inr,
}
use networking.Stream.Io.{Writes, Reads, >>-Writes, >>=-Reads, map-Reads, pure-Reads, pure-Writes}
use networking.Stream.Numbers.{put_int, get_int, put_int-Carries, put_unsigned_int-Carries}
use networking.Stream.Text.{put_string, get_string, c_string, get_string-put_string}
use networking.Stream.Containers.{put_pair, get_pair, put_each}
use networking.Message.{Classes, put_message, get_message}
use networking.Message.Registry.{IsConsistent, message_arrives}
use networking.Data.{same_int, look, UnorderedMap, serialize, read_entries, deserialize}

-- The key is an int, and the string is shorter than 2 ^ 31.
abbrev pub Fits : ℤ × List ℕ → Type 0
Fits e = InRange (2 ^ 31) e.0 × (length e.1 < 2 ^ 31)

-- No key comes twice.
abbrev pub IsDistinct : List (ℤ × List ℕ) → Type 0
IsDistinct [] = Unit {0}
IsDistinct (e ∷ es) = (look e.0 es ≡ none) × IsDistinct es

-- What a key has after the arrival: the string that was sent, up to its first NUL, or what it had.
abbrev pub arrived : Option (List ℕ) → Option (List ℕ) → Option (List ℕ)
arrived none old = old
arrived (some val) old = some (c_string val)

pub same_int_equal : (k j : ℤ) → same_int k j ≡ true → k ≡ j
same_int_equal (pos m) (pos n) h = ap pos ((==_iff m n).0 h)
same_int_equal (pos m) (negsuc n) h = absurd (ground arith)
same_int_equal (negsuc m) (pos n) h = absurd (ground arith)
same_int_equal (negsuc m) (negsuc n) h = ap negsuc ((==_iff m n).0 h)

record EntryArrives (e : ℤ × List ℕ) : Type 0 where
  pub bytes : List ℕ
  pub written : Writes (put_pair put_int put_string e) bytes
  pub read_back : Reads (get_pair get_int get_string) bytes (e.0, c_string e.1)

entry_arrives : (e : ℤ × List ℕ) → Fits e → EntryArrives e
unfolding put_pair get_pair
entry_arrives e (k, v) =
    let key = put_int-Carries e.0 k in
    let (bytes, w, r) = get_string-put_string e.1 v in
    record {
      bytes = key.bytes ++ bytes;
      written = >>-Writes (put_int e.0) (put_string e.1) key.written w;
      read_back = >>=-Reads get_int _ key.read_back (map-Reads get_string (λ y. (e.0, y)) r refl);
    }

module _ (lib : UnorderedMap) where
  record Arrives (es : List (ℤ × List ℕ)) : Type 0 where
    pub bytes : List ℕ
    pub written : Writes (put_each (put_pair put_int put_string) es) bytes
    pub reads :
        (t : lib.Table)
        → (new : lib.Table) × Reads (read_entries lib (length es) t) bytes new
          × ((k : ℤ) → look k (lib.entries new) ≡ arrived (look k es) (look k (lib.entries t)))

  step_arrived :
      (k : ℤ) (e : ℤ × List ℕ) (es : List (ℤ × List ℕ)) (t : lib.Table)
      → look e.0 es ≡ none
      → arrived (look k es) (look k (lib.entries (lib.assign e.0 (c_string e.1) t)))
        ≡ arrived (look k (e ∷ es)) (look k (lib.entries t))
  step_arrived k e es t h = elim (Bool-cases (same_int k e.0)) [
    | inl same ↦
        let missing : look k es ≡ none =
          subst (λ j. look j es ≡ none) (sym (same_int_equal k e.0 same)) h in
        rw (lib.look-assign k e.0 (c_string e.1) t, same, missing) refl
    | inr other ↦ rw (lib.look-assign k e.0 (c_string e.1) t, other) refl
  ]

  each-Arrives : (es : List (ℤ × List ℕ)) → All Fits es → IsDistinct es → Arrives es
  unfolding put_each read_entries
  each-Arrives [] f d = record {
    bytes = [];
    written = pure-Writes;
    reads = λ t. (t, pure-Reads t, λ k. refl);
  }
  each-Arrives (e ∷ es) (f, fs) (d, ds) =
      let first = entry_arrives e f in
      let later = each-Arrives es fs ds in
      record {
        bytes = first.bytes ++ later.bytes;
        written = >>-Writes _ _ first.written later.written;
        reads = λ t.
            let (new, r, same) = later.reads (lib.assign e.0 (c_string e.1) t) in
            (
              new,
              >>=-Reads (get_pair get_int get_string) _ first.read_back r,
              λ k. same k ∙ step_arrived k e es t d,
            );
      }

  small_size : (n : ℕ) → n < 2 ^ 31 → n % 2 ^ 32 ≡ n
  small_size n h = omega arith

  -- A map with fewer than 2 ^ 31 entries, whose strings are shorter than that, is sent whole, in
  -- whatever order it is walked through; an object that reads it has, for each key that was sent, the
  -- string up to its first NUL, and keeps what it had for the other keys.
  pub deserialize-serialize :
      (sent old : lib.Table)
      → All Fits (lib.entries sent)
      → IsDistinct (lib.entries sent)
      → length (lib.entries sent) < 2 ^ 31
      → (bytes : List ℕ) × Writes (serialize lib sent) bytes
        × ((new : lib.Table) × Reads (deserialize lib old) bytes new
            × ((k : ℤ)
                → look k (lib.entries new)
                  ≡ arrived (look k (lib.entries sent)) (look k (lib.entries old))))
  unfolding serialize deserialize
  deserialize-serialize sent old f d h =
      let size = put_unsigned_int-Carries (length (lib.entries sent) % 2 ^ 32) (omega arith) in
      let each = each-Arrives (lib.entries sent) f d in
      let (new, r, same) = each.reads old in
      (
        size.bytes ++ each.bytes,
        >>-Writes _ _ size.written each.written,
        (new, >>=-Reads _ _ size.read_back (rw (small_size (length (lib.entries sent)) h) r), same),
      )

  -- A map that is sent as a message of a class that has a type, within these bounds, comes back as an
  -- object of this class, in which each key has the string that was sent, up to its first NUL, and
  -- the others have none.
  pub get_data-put_data :
      (is_a : ℕ → Bool) (r : Classes) (id t : ℕ) (sent : lib.Table)
      → IsConsistent r
      → r.type_map id ≡ some t
      → is_a id ≡ true
      → All Fits (lib.entries sent)
      → IsDistinct (lib.entries sent)
      → length (lib.entries sent) < 2 ^ 31
      → (bytes : List ℕ) × Writes
          (put_message (λ _. serialize lib) (λ _. deserialize lib lib.empty) is_a r (id, sent))
          bytes
        × ((new : lib.Table) × Reads
              (get_message (λ _. serialize lib) (λ _. deserialize lib lib.empty) is_a r)
              bytes
              (some (id, new))
            × ((k : ℤ) → look k (lib.entries new) ≡ arrived (look k (lib.entries sent)) none))
  get_data-put_data is_a r id t sent v e a f d h =
      let (body, written, (new, read_back, same)) = deserialize-serialize sent lib.empty f d h in
      let (bytes, sends, gets) =
        message_arrives (λ _. serialize lib) (λ _. deserialize lib lib.empty) is_a r id t sent new
          body v e a written read_back in
      (
        bytes,
        sends,
        (new, gets, λ k. same k ∙ ap (arrived (look k (lib.entries sent))) (lib.look-empty k)),
      )
