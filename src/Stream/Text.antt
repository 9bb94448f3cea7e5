-- ===== src/Stream/Text.antt =====
-- The operators of Stream for std::string: the length, then the bytes.
use networking.Prelude.{
  ℕ, ◌%◌, ◌^◌, ◌<◌, ◌≡◌, ◌≢◌, ◌↔◌, refl, ap, ◌∙◌, sym, subst, List, [], ◌∷◌, ◌++◌, length, take,
  ◌==◌, if◌then◌else◌, arith, All, append-nil, take-append,
}
use networking.Stream.Io.{
  Io, ◌>>=◌, ◌>>◌, pure, write, read, Writes, Reads, Carries, write-Writes, read-Reads, >>-Writes,
  >>=-Reads, map-Reads,
}
use networking.Stream.Numbers.{put_unsigned_int, get_unsigned_int, put_unsigned_int-Carries}

-- What `append` takes of a buffer that is read as a C string: the bytes in front of the first NUL.
abbrev pub c_string : List ℕ → List ℕ
c_string [] = []
c_string (b ∷ bs) = if b == 0 then [] else b ∷ c_string bs

-- `len` has 32 bits.
unfoldable pub put_string : List ℕ → Io (Unit {0})
put_string val = let len = length val % 2 ^ 32 in (put_unsigned_int len >> write (take len val))

unfoldable pub get_string : Io (List ℕ)
get_string = do len ← get_unsigned_int; buf ← read len; pure (c_string buf)

take_all : (xs : List ℕ) → take (length xs) xs ≡ xs
take_all xs = ap (take (length xs)) (sym (append-nil xs)) ∙ take-append xs []

-- A string below 2 ^ 31 bytes is sent whole, and received up to its first NUL.
pub get_string-put_string :
    (val : List ℕ)
    → length val < 2 ^ 31
    → (bytes : List ℕ) × Writes (put_string val) bytes × Reads get_string bytes (c_string val)
unfolding put_string get_string
get_string-put_string val h = (
  len.bytes ++ val,
  rw (small, take_all val) (>>-Writes _ _ len.written (write-Writes val h)),
  >>=-Reads _ _ len.read_back (map-Reads (read (length val)) c_string (read-Reads val h) refl),
)
  where
    small : length val % 2 ^ 32 ≡ length val
    small = omega arith

    len : Carries put_unsigned_int get_unsigned_int (length val)
    len = put_unsigned_int-Carries (length val) (omega arith)

abbrev pub IsText : List ℕ → Type 0
IsText = All (λ b. b ≢ 0)

c_string-text : (val : List ℕ) → IsText val → c_string val ≡ val
c_string-text [] v = refl
c_string-text (b ∷ bs) (v, vs) = ground (arith, c_string-text bs vs)

IsText-c_string : (val : List ℕ) → c_string val ≡ val → IsText val
IsText-c_string [] e = tt
IsText-c_string (b ∷ bs) e = ((λ z. ground arith), IsText-c_string bs (ground arith))

-- A string comes back as it was exactly when it has no NUL.
pub c_string_iff : (val : List ℕ) → (c_string val ≡ val) ↔ IsText val
c_string_iff val = (IsText-c_string val, c_string-text val)

-- A string without a NUL survives the way over the wire.
pub put_string-Carries :
    (val : List ℕ) → length val < 2 ^ 31 → IsText val → Carries put_string get_string val
put_string-Carries val h v =
    let (bytes, w, r) = get_string-put_string val h in
    record {
      bytes = bytes;
      written = w;
      read_back = subst (Reads get_string bytes) (c_string-text val v) r;
    }
