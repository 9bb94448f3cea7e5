-- ===== src/Resolver/Response.antt =====
-- parse of proj3/myresolver.cpp: what to do with a reply.
pub mod Referral
pub mod Answered
use networking.Prelude.{
  ℕ, ◌+◌, ◌%◌, List, [], ◌∷◌, Bool, true, false, not, ◌&&◌, ◌==◌, if◌then◌else◌, codes,
}
use networking.Resolver.Run.{Run, ok, exits, ◌>>=◌, at}
use networking.Resolver.Bytes.{widen16}
use networking.Resolver.Name.{bit}
use networking.Resolver.Records.{Server, next_parse}
use networking.Resolver.Answer.{success_parse}

-- enum RCODE_t
abbrev pub success : ℕ
success = 0

abbrev pub format : ℕ
format = 1

abbrev pub name_error : ℕ
name_error = 3

-- FATAL prints to the standard error stream and exits with -1.
abbrev pub fatal : {A : Type 0} → Run A
fatal = exits 255 []

module _ (base64 present : List ℕ → List ℕ) (depth : ℕ) (query_name : List ℕ) where
  -- The cases of the switch. Those that are not named here leave it with no server.
  unfoldable pub on_rcode : ℕ → Bool → ℕ → ℕ → ℕ → List ℕ → ℕ → Run (List Server)
  on_rcode rcode aa ancount nscount arcount response q_size =
      if rcode == success
      then (if aa && not (ancount == 0)
          then success_parse base64 present depth query_name response q_size
          else next_parse depth response q_size ancount nscount arcount)
      else if rcode == format
      then fatal
      else if rcode == name_error && (aa && ancount == 0)
      then exits 0 (codes "Sorry, no record found\n")
      else ok []

  -- The counts are one `char` each, widened to 16 bits.
  unfoldable pub parse : List ℕ → ℕ → Run (List Server)
  unfolding on_rcode
  parse response q_size = do
    flags ← at response 2
    status ← at response 3
    an ← at response 7
    ns ← at response 9
    ar ← at response 11
    on_rcode (status % 16) (bit flags 2) (widen16 an) (widen16 ns) (widen16 ar) response q_size
