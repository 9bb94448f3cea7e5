-- ===== src/Chain/Client/Lines.antt =====
-- The lines of the chain file of proj2/awget.c, in the format that proj2/README describes.
use networking.Prelude.{
  ℕ, zero, suc, ◌+◌, ◌≤◌, ◌<◌, ◌≡◌, ◌≢◌, refl, ap, ◌∙◌, sym, List, [], ◌∷◌, ◌++◌, true, false, none,
  some, length, length-append, lt→ltb, ◌==◌, All, All-append, arith, append_assoc, codes, decimal,
}
use networking.Chain.{ListElement, filename_max, strncpy}
use networking.Chain.Calls.{Ends, ok}
use networking.Chain.Client.{
  cut_line, fgets, first_split, last_split, text_of, but_last, parse_pair, parse_line,
  read_elements, read_chain,
}
use networking.Chain.Client.Digits.{IsDigit, decimal-IsDigit, decimal-length, atoi-decimal}

-- The byte does not occur.
abbrev pub IsFree : ℕ → List ℕ → Type 0
IsFree c bytes = All (λ b. b ≢ c) bytes

pub other_byte : (b c : ℕ) → b ≢ c → (b == c) ≡ false
other_byte b c h = ground arith

same_byte : (c : ℕ) → (c == c) ≡ true
same_byte c = ground arith

first_split-append :
    (c : ℕ) (xs ys : List ℕ) → IsFree c xs → first_split c (xs ++ c ∷ ys) ≡ some (xs, ys)
unfolding first_split
first_split-append c [] ys v = rw (same_byte c) refl
first_split-append c (x ∷ xs) ys (v, vs) = rw (other_byte x c v, first_split-append c xs ys vs) refl

first_split-none : (c : ℕ) (xs : List ℕ) → IsFree c xs → first_split c xs ≡ none
unfolding first_split
first_split-none c [] v = refl
first_split-none c (x ∷ xs) (v, vs) = rw (other_byte x c v, first_split-none c xs vs) refl

last_split-none : (c : ℕ) (xs : List ℕ) → IsFree c xs → last_split c xs ≡ none
unfolding last_split
last_split-none c [] v = refl
last_split-none c (x ∷ xs) (v, vs) = rw (last_split-none c xs vs, other_byte x c v) refl

last_split-append :
    (c : ℕ) (xs ys : List ℕ) → IsFree c ys → last_split c (xs ++ c ∷ ys) ≡ some (xs, ys)
unfolding last_split
last_split-append c [] ys v = rw (last_split-none c ys v, same_byte c) refl
last_split-append c (x ∷ xs) ys v = rw (last_split-append c xs ys v) refl

but_last-append : (xs : List ℕ) (c : ℕ) → but_last (xs ++ c ∷ []) ≡ xs
but_last-append [] c = refl
but_last-append (x ∷ []) c = refl
but_last-append (x ∷ y ∷ xs) c = ap (◌∷◌ x) (but_last-append (y ∷ xs) c)

cut_line-append :
    (n : ℕ) (xs ys : List ℕ)
    → IsFree b'\n' xs
    → length xs < n
    → cut_line n (xs ++ b'\n' ∷ ys) ≡ (xs ++ b'\n' ∷ [], ys)
unfolding cut_line
cut_line-append zero xs ys v h = absurd (omega arith)
cut_line-append (suc n) [] ys v h = refl
cut_line-append (suc n) (x ∷ xs) ys (v, vs) h =
    rw (other_byte x b'\n' v, cut_line-append n xs ys vs (omega arith)) refl

-- fgets takes a line off that fits its buffer.
fgets-append :
    (xs ys : List ℕ)
    → IsFree b'\n' xs
    → length xs < 8191
    → fgets (xs ++ b'\n' ∷ ys) ≡ some (xs ++ b'\n' ∷ [], ys)
fgets-append [] ys v h = ap some (cut_line-append 8191 [] ys v h)
fgets-append (x ∷ xs) ys v h = ap some (cut_line-append 8191 (x ∷ xs) ys v h)

text_of-free : (xs : List ℕ) → IsFree 0 xs → text_of xs ≡ xs
text_of-free xs v = rw (text_of, first_split-none 0 xs v) refl

-- A host and a port as the README has them: no comma in the host, no space in the port, and both
-- short enough for their arrays.
pub record IsEntry (host port : List ℕ) : Type 0 where
  pub host_text : IsFree 0 host
  pub host_line : IsFree b'\n' host
  pub host_comma : IsFree b',' host
  pub port_text : IsFree 0 port
  pub port_line : IsFree b'\n' port
  pub port_space : IsFree b' ' port
  pub host_short : length host < 256
  pub port_short : length port < 8

abbrev pub entry : List ℕ → List ℕ → List ℕ
entry host port = host ++ (codes ", " ++ port)

entry-IsFree :
    (c : ℕ) (host port : List ℕ)
    → IsFree c host
    → IsFree c port
    → c < b' '
    → IsFree c (entry host port)
entry-IsFree c host port v w h =
    All-append (λ b. b ≢ c) host (codes ", " ++ port) v (omega arith, (omega arith, w))

parse_pair_lem :
    (front port host back : List ℕ)
    → first_split b',' front ≡ some (host, back)
    → parse_pair front port ≡ some (host, port)
parse_pair_lem front port host back h = rw (parse_pair, h) refl

-- A line is read as the host and the port that it was written from.
pub parse_line-entry :
    (host port : List ℕ)
    → IsEntry host port
    → parse_line (text_of (entry host port ++ b'\n' ∷ [])) ≡ some (host, port)
unfolding parse_line
parse_line-entry host port v =
    rw
      (
        text_of-free (entry host port ++ b'\n' ∷ []) (
            All-append _ (entry host port) (b'\n' ∷ [])
              (entry-IsFree 0 host port v.host_text v.port_text (omega arith)) (omega arith, tt)),
        same host port,
        parse_line,
        last_split-append b' ' (host ++ b',' ∷ []) (port ++ b'\n' ∷ [])
            (All-append _ port (b'\n' ∷ []) v.port_space (omega arith, tt)),
        but_last-append port b'\n',
      )
      (parse_pair_lem (host ++ b',' ∷ []) port host []
        (first_split-append b',' host [] v.host_comma))
  where
    same :
        (host port : List ℕ)
        → entry host port ++ b'\n' ∷ [] ≡ (host ++ b',' ∷ []) ++ b' ' ∷ (port ++ b'\n' ∷ [])
    same host port =
        append_assoc host (codes ", " ++ port) (b'\n' ∷ [])
        ∙ sym (append_assoc host (b',' ∷ []) (b' ' ∷ (port ++ b'\n' ∷ [])))

-- The bytes of an element that the client makes of an entry, and of its chain file.
abbrev pub packed : List ℕ × List ℕ → ListElement
packed p = record { version = 0; host = strncpy 256 p.0; port = strncpy 8 p.1 }

abbrev pub packed_all : List (List ℕ × List ℕ) → List ListElement
packed_all [] = []
packed_all (p ∷ ps) = packed p ∷ packed_all ps

abbrev pub entries_text : List (List ℕ × List ℕ) → List ℕ
entries_text [] = []
entries_text (p ∷ ps) = entry p.0 p.1 ++ b'\n' ∷ entries_text ps

abbrev pub chain_text : List (List ℕ × List ℕ) → List ℕ
chain_text ps = decimal (length ps) ++ b'\n' ∷ entries_text ps

length-entry : (host port : List ℕ) → IsEntry host port → length (entry host port) < 8191
length-entry host port v =
    omega (arith, length-append host (codes ", " ++ port), v.host_short, v.port_short)

-- All lines are read, and fill the array from the index on.
read_elements_lem :
    (ps : List (List ℕ × List ℕ)) (i : ℕ) (e : Ends)
    → All (λ p. IsEntry p.0 p.1) ps
    → i + length ps ≤ 8192
    → read_elements (length ps) i (entries_text ps) e ≡ ok (packed_all ps) e
unfolding read_elements
read_elements_lem [] i e v h = refl
read_elements_lem (p ∷ ps) i e (v, vs) h =
    rw
      (
        fgets-append (entry p.0 p.1) (entries_text ps)
            (entry-IsFree b'\n' p.0 p.1 v.host_line v.port_line (omega arith))
            (length-entry p.0 p.1 v),
        parse_line-entry p.0 p.1 v,
        lt→ltb i 8192 (omega arith),
        read_elements_lem ps (i + 1) e vs (omega arith),
      )
      refl

digits-IsFree : (c : ℕ) (ds : List ℕ) → c < b'0' → All IsDigit ds → IsFree c ds
digits-IsFree c [] h v = tt
digits-IsFree c (d ∷ ds) h (v, vs) = (omega (arith, v), digits-IsFree c ds h vs)

-- A chain file of at most 8192 entries in the README's format, whose texts fit their arrays, is read
-- as the list of hosts and ports that it was written from.
pub read_chain-chain_text :
    (url : List ℕ) (ps : List (List ℕ × List ℕ)) (e : Ends)
    → All (λ p. IsEntry p.0 p.1) ps
    → length ps ≤ 8192
    → read_chain url (chain_text ps) e
      ≡ ok
          (
            record { version = 1; l_size = length ps; f_name = strncpy filename_max url },
            packed_all ps,
          )
          e
unfolding read_chain
read_chain-chain_text url ps e v h =
    let ds = decimal (length ps) in
    let digits = decimal-IsDigit (length ps) in
    rw
      (
        fgets-append ds (entries_text ps) (digits-IsFree b'\n' ds (omega arith) digits)
            (omega (arith, decimal-length (length ps))),
        text_of-free (ds ++ b'\n' ∷ []) (
            All-append _ ds (b'\n' ∷ []) (digits-IsFree 0 ds (omega arith) digits)
              (omega arith, tt)),
        atoi-decimal (length ps) [] (omega arith),
        read_elements_lem ps 0 e v (omega arith),
      )
      refl
