-- ===== src/Chain/Client.antt =====
-- The client, proj2/awget.c: `next` is its socket, and `file` what it writes to foo. The text on the
-- standard streams is left out.
pub mod Exchange
pub mod Digits
pub mod Lines
pub mod Whole
pub mod Options
use networking.Prelude.{
  ℕ, zero, suc, ◌+◌, ◌-◌, ◌*◌, ◌/◌, ◌%◌, ◌^◌, List, [], ◌∷◌, ◌++◌, Bool, true, false, ◌&&◌, ◌||◌,
  ltb, leb, ◌==◌, if◌then◌else◌, Option, none, some, length, ℤ, pos, negsuc,
}
use networking.Transfer.{Conn}
use networking.Socket.Candidates.{Peer}
use networking.Chain.{
  ListHeader, ListElement, filename_max, header_size, file_header_size, strncpy, header_bytes,
  element_bytes,
}
use networking.Chain.Calls.{
  Ends, Result, ok, exited, waiting, undefined, Act, pure, ◌>>=◌, ◌>>◌, crash, recv_next, send_next,
  close_next, or_crash,
}
use networking.Chain.Stone.{next_ss, text, to_file_header, pick}

-- `return -1` and `exit(-1)`.
abbrev pub leave : {A : Type 0} → Act A
leave e = exited e

abbrev pub or_leave : {A : Type 0} → Option A → Act A
or_leave none = leave
or_leave (some a) = pure a

-- fgets: a line with its end, of 8191 bytes at most, and what is left.
unfoldable pub cut_line : ℕ → List ℕ → List ℕ × List ℕ
cut_line zero bs = ([], bs)
cut_line (suc n) [] = ([], [])
cut_line (suc n) (b ∷ bs) =
    let rest = cut_line n bs in if b == b'\n' then (b ∷ [], bs) else (b ∷ rest.0, rest.1)

abbrev pub fgets : List ℕ → Option (List ℕ × List ℕ)
fgets [] = none
fgets (b ∷ bs) = some (cut_line 8191 (b ∷ bs))

-- The text in front of a byte and behind it: its first occurrence, as strchr finds it.
unfoldable pub first_split : ℕ → List ℕ → Option (List ℕ × List ℕ)
first_split c [] = none
first_split c (b ∷ bs) =
    let rest = first_split c bs in
    if b == c
    then some ([], bs)
    else elim rest [ none ↦ none | some (front, back) ↦ some (b ∷ front, back) ]

-- Its last, as strrchr does.
unfoldable pub last_split : ℕ → List ℕ → Option (List ℕ × List ℕ)
last_split c [] = none
last_split c (b ∷ bs) = elim (last_split c bs) [
  | none ↦ if b == c then some ([], bs) else none
  | some (front, back) ↦ some (b ∷ front, back)
]

-- A buffer's text, up to its NUL.
abbrev pub text_of : List ℕ → List ℕ
text_of bytes = elim (first_split 0 bytes) [ none ↦ bytes | some (front, _) ↦ front ]

-- `curr[strlen(curr) - 1] = '\0'`; in an empty text this meets the space in front of it.
abbrev pub but_last : List ℕ → List ℕ
but_last [] = []
but_last (b ∷ []) = []
but_last (b ∷ c ∷ bs) = b ∷ but_last (c ∷ bs)

-- The host and the port of a line. A comma behind the last space cuts the port too.
abbrev pub parse_pair : List ℕ → List ℕ → Option (List ℕ × List ℕ)
parse_pair front port = elim (first_split b',' front) [
  | some (host, _) ↦ some (host, port)
  | none ↦ elim (first_split b',' port) [
    | none ↦ none
    | some (cut, _) ↦ some (front ++ b' ' ∷ cut, cut)
  ]
]

unfoldable pub parse_line : List ℕ → Option (List ℕ × List ℕ)
unfolding last_split first_split
parse_line line = elim (last_split b' ' line) [
  | none ↦ none
  | some (front, back) ↦ parse_pair front (but_last back)
]

-- atoi, as a number of 32 bits; a number that does not fit into an int has no defined value.
abbrev pub is_digit : ℕ → Bool
is_digit c = leb b'0' c && leb c b'9'

abbrev pub is_space : ℕ → Bool
is_space c = c == b' ' || leb 9 c && leb c 13

unfoldable pub read_digits : ℕ → List ℕ → ℕ
read_digits acc [] = acc
read_digits acc (c ∷ cs) =
    let more = read_digits (acc * 10 + (c - b'0')) cs in if is_digit c then more else acc

abbrev pub skip_space : List ℕ → List ℕ
skip_space [] = []
skip_space (c ∷ cs) = let rest = skip_space cs in if is_space c then rest else c ∷ cs

abbrev pub positive : ℕ → Option ℕ
positive n = if ltb n (2 ^ 31) then some n else none

abbrev pub negative : ℕ → Option ℕ
negative n = if leb n (2 ^ 31) then some ((2 ^ 32 - n) % 2 ^ 32) else none

abbrev pub signed : List ℕ → Option ℕ
signed [] = some 0
signed (c ∷ cs) =
    if c == b'-'
    then negative (read_digits 0 cs)
    else if c == b'+'
    then positive (read_digits 0 cs)
    else positive (read_digits 0 (c ∷ cs))

unfoldable pub atoi : List ℕ → Option ℕ
unfolding read_digits
atoi bytes = signed (skip_space bytes)

-- The loop that packs the elements, of which the array has 8192.
unfoldable pub read_elements : ℕ → ℕ → List ℕ → Act (List ListElement)
unfolding cut_line first_split parse_line
read_elements zero i fp = pure []
read_elements (suc left) i fp = do
  (line, rest) ← or_leave (fgets fp)
  (host, port) ← or_crash (parse_line (text_of line))
  element ←
      (if ltb i 8192
        then pure (record { version = 0; host = strncpy 256 host; port = strncpy 8 port })
        else crash)
  more ← read_elements left (i + 1) rest
  pure (element ∷ more)

-- The header and the elements from the chain file.
unfoldable pub read_chain : List ℕ → List ℕ → Act (ListHeader × List ListElement)
unfolding read_elements atoi cut_line first_split
read_chain url fp = do
  (line, rest) ← or_leave (fgets fp)
  size ← or_crash (atoi (text_of line))
  elements ← read_elements size 0 rest
  pure (record { version = 1; l_size = size; f_name = strncpy filename_max url }, elements)

-- socketSetup, with the loop of next_ss.
unfoldable pub socket_setup : (List ℕ → List ℕ → ℤ × List Peer) → List ℕ → List ℕ → Act (Unit {0})
unfolding next_ss
socket_setup connects host port e =
    let found = connects host port in
    elim (next_ss found.0 found.1) [
      | none ↦ undefined
      | some (none, left) ↦ exited (record e { leaked = e.leaked ++ left })
      | some (some fd, left) ↦ ok tt (record e { opened = true; leaked = e.leaked ++ left })
    ]

-- The loop that sends the elements but the one at `r`.
unfoldable pub send_others : List ListElement → ℕ → ℕ → Act (Unit {0})
send_others [] c r = pure tt
send_others (x ∷ xs) c r = do
  let rest = send_others xs (c + 1) r
  let this = (do sent ← send_next (element_bytes x); n ← or_leave sent; rest)
  if c == r then rest else this

-- The loop that receives the file, with `c` bytes so far, an int, and `missing` bytes to go; each
-- round is a call of the schedule.
unfoldable pub receive_file : (calls c missing : ℕ) → Act (Unit {0})
receive_file calls c zero e = ok tt e
receive_file zero c (suc missing) e = waiting
receive_file (suc calls) c (suc missing) e =
    (do
      received ← recv_next 8192
      bytes ← or_leave received
      (λ e. ok tt (record e { file = e.file ++ bytes }))
      let more = receive_file calls (c + length bytes) (suc missing - length bytes)
      if ltb (c + length bytes) (2 ^ 31) then more else crash)
      e

-- The rest of main. `writable`: foo could be opened.
unfoldable pub request_file :
    (List ℕ → List ℕ → ℤ × List Peer) → ℕ → ListHeader → List ListElement → Act (Unit {0})
unfolding socket_setup send_others text
request_file connects rand header elements = do
  element ← if header.l_size == 0 then crash else or_crash (pick elements (rand % header.l_size))
  host ← text element.host
  port ← text element.port
  socket_setup connects host port
  sent ← send_next (header_bytes (record header { l_size = header.l_size - 1 }))
  n ← or_leave sent
  if n == header_size then pure tt else leave
  send_others elements 0 (rand % header.l_size)

unfoldable pub take_reply : Bool → Act (Unit {0})
unfolding to_file_header receive_file
take_reply writable = do
  received ← recv_next file_header_size
  bytes ← or_leave received
  (version, f_size) ← to_file_header bytes
  if writable then pure tt else leave
  (λ e. receive_file (length e.next.recvs) 0 f_size e)
  close_next

-- main behind its options, with the chain file, if it could be opened.
unfoldable pub awget :
    (List ℕ → List ℕ → ℤ × List Peer) → ℕ → Bool → List ℕ → Option (List ℕ) → Act (Unit {0})
unfolding read_chain request_file take_reply
awget connects rand writable url chain_file = do
  fp ← or_leave chain_file
  (header, elements) ← read_chain url fp
  request_file connects rand header elements
  take_reply writable
