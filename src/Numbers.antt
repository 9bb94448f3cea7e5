-- ===== src/Numbers.antt =====
-- proj1_client.cpp, proj1_server.cpp and common.hpp of proj1, and class net::sync_service of
-- proj1/service.hpp: a client sends a number, the server prints it and answers. A struct is the bytes
-- of its memory on a little-endian host, with `padding` for the three bytes that no one sets.
pub mod Server
pub mod Client
pub mod Mains
pub mod Answers
pub mod Endings
pub mod Choices
use networking.Prelude.{
  ℕ, Bool, true, false, ◌==◌, ◌&&◌, List, [], ◌∷◌, ◌++◌, Option, none, some, length, take, drop,
  codes, if◌then◌else◌,
}
use networking.Chain.{write32, read32}

-- `message(htonl(num))`
abbrev pub message_bytes : List ℕ → ℕ → List ℕ
message_bytes padding num = 1 ∷ (padding ++ write32 num [])

-- `reply()`
abbrev pub reply_bytes : List ℕ
reply_bytes = 1 ∷ []

-- `ntohl` of four bytes.
abbrev pub word_of : List ℕ → ℕ
word_of (a ∷ b ∷ c ∷ d ∷ rest) = read32 a b c d
word_of _ = 0

-- What `recv` leaves in a buffer: nothing new where it returns -1.
abbrev pub overwrite : Option (List ℕ) → List ℕ → List ℕ
overwrite none old = old
overwrite (some got) old = take (length old) got ++ drop (length got) old

-- `strcmp(a, b) == 0`
abbrev pub same_text : List ℕ → List ℕ → Bool
same_text [] [] = true
same_text [] (b ∷ bs) = false
same_text (a ∷ as') [] = false
same_text (a ∷ as') (b ∷ bs) = (a == b) && same_text as' bs

-- An option that getopt has found, with its argument.
pub record Choice : Type 0 where
  pub letter : ℕ
  pub optarg : List ℕ

-- The text after -t: whether it is `tcp`, or none for any other text but `udp`.
abbrev pub transport : Bool → List ℕ → Option Bool
transport tcp optarg =
    if same_text optarg (codes "udp")
    then some tcp
    else if same_text optarg (codes "tcp")
    then some true
    else none
