-- ===== src/Chain/Client/Options.antt =====
-- The options of the client: main of proj2/awget.c from the command line on. What getopt returns is
-- a parameter.
use mathlib.Core.List.{Perm}
use networking.Prelude.{
  ℕ, suc, ◌-◌, ◌%◌, ◌^◌, ◌≤◌, ◌<◌, ◌≡◌, refl, ap, ◌∙◌, List, [], ◌∷◌, Bool, true, Option, none,
  some, Option-cases, inl, inr, arith, length, All, ℤ, codes,
}
use networking.Transfer.{Outcome, moved, Steady}
use networking.Socket.Candidates.{Peer}
use networking.Chain.{ListElement, filename_max, header_size, file_header_size}
use networking.Chain.Calls.{Ends, ok, Act, ◌>>=◌, crash, or_crash}
use networking.Chain.Ready.{Ready}
use networking.Chain.Stone.{pick}
use networking.Chain.Stone.Request.{remove}
use networking.Chain.Stone.Forward.{IsReachable}
use networking.Chain.Stone.Connection.{request_bytes, reply_bytes}
use networking.Chain.Relay.{Serves, Site, ArePrepared, shorten}
use networking.Chain.Client.{awget, fgets, text_of, atoi, or_leave}
use networking.Chain.Client.Lines.{IsFree, IsEntry, packed_all, chain_text}
use networking.Chain.Client.Whole.{asking, Fetched, awget-Serves}

-- What getopt returns for an argument, with `optarg`.
pub data Flag : Type 0 where
  chain_flag : List ℕ → Flag
  other_flag : Flag

-- The loop over the options.
unfoldable pub filename_of : List ℕ → List Flag → List ℕ
filename_of filename [] = filename
filename_of filename (chain_flag optarg ∷ flags) = filename_of optarg flags
filename_of filename (other_flag ∷ flags) = filename_of filename flags

abbrev default_name : List ℕ
default_name = codes "chaingang.txt"

-- main, with `argv[optind]` and the contents of the files that can be opened. Without a URL, strncpy
-- reads through NULL when the count of the stones has been read.
unfoldable pub awget_main :
    (List ℕ → List ℕ → ℤ × List Peer)
    → ℕ
    → Bool
    → List Flag
    → Option (List ℕ)
    → (List ℕ → Option (List ℕ))
    → Act (Unit {0})
unfolding awget filename_of
awget_main connects rand writable flags (some url) fopen =
    awget connects rand writable url (fopen (filename_of default_name flags))
awget_main connects rand writable flags none fopen = do
  fp ← or_leave (fopen (filename_of default_name flags))
  (line, rest) ← or_leave (fgets fp)
  size ← or_crash (atoi (text_of line))
  crash

-- The name behind the last -c.
abbrev pub last_chain : List Flag → Option (List ℕ)
last_chain [] = none
last_chain (chain_flag name ∷ flags) = elim (last_chain flags) [
  | none ↦ some name
  | some later ↦ some later
]
last_chain (other_flag ∷ flags) = last_chain flags

abbrev or_else : List ℕ → Option (List ℕ) → List ℕ
or_else name none = name
or_else name (some other) = other

abbrev pub or_default : Option (List ℕ) → List ℕ
or_default = or_else default_name

filename_of_lem :
    (name : List ℕ) (flags : List Flag) → filename_of name flags ≡ or_else name (last_chain flags)
unfolding filename_of
filename_of_lem name [] = refl
filename_of_lem name (chain_flag new ∷ flags) = elim (Option-cases (last_chain flags)) [
  | inl e ↦ rw e (filename_of_lem new flags ∙ rw e refl)
  | inr (later, e) ↦ rw e (filename_of_lem new flags ∙ rw e refl)
]
filename_of_lem name (other_flag ∷ flags) = filename_of_lem name flags

-- If the file behind the last -c, or chaingang.txt without one, lists 1 to 30 stones in the format of
-- the README (with more, a stone's printed list would not fit its buffer of 8192 bytes), with a URL
-- that fits its array, stones that can be reached and are prepared wherever they stand in the chain, a
-- file of 1 to 2 ^ 31 - 1 bytes, and schedules on which no call of the client fails: the client sends
-- its request to one of the stones, the stones pass it on until each element has served it once, and
-- the file that the last one fetches, which comes back as the client's reply, is what the client
-- writes.
pub awget_main-Serves :
    (net : ListElement → ℕ → Site) (connects : List ℕ → List ℕ → ℤ × List Peer) (rand m b : ℕ)
    (url bs : List ℕ) (flags : List Flag) (fopen : List ℕ → Option (List ℕ))
    (ps : List (List ℕ × List ℕ)) (recvs : List Outcome) (e : Ends)
    → All (λ p. IsEntry p.0 p.1) ps
    → 0 < length ps
    → length ps ≤ 30
    → IsFree 0 url
    → length url < filename_max
    → length (b ∷ bs) < 2 ^ 31
    → All (IsReachable connects) (packed_all ps)
    → ArePrepared net url (b ∷ bs) (packed_all ps) (packed_all ps)
    → Ready (suc (length ps)) header_size e.next.sends
    → e.next.recvs ≡ moved m ∷ recvs
    → file_header_size ≤ m
    → Steady (length (b ∷ bs)) recvs
    → e.next.incoming ≡ reply_bytes 1 (b ∷ bs)
    → fopen (or_default (last_chain flags)) ≡ some (chain_text ps)
    → (e' : Ends) × (awget_main connects rand true flags (some url) fopen e ≡ ok tt e')
      × Fetched e
          (request_bytes
            (shorten (asking url (length ps)))
            (remove (packed_all ps) (rand % length ps)))
          (b ∷ bs)
          e'
      × (x : ListElement) × (path : List ListElement) × (pick (packed_all ps) (rand % length ps)
          ≡ some x)
      × Serves net
          (reply_bytes 1 (b ∷ bs))
          (net x (length (packed_all ps) - 1))
          (shorten (asking url (length ps)))
          (remove (packed_all ps) (rand % length ps))
          path
      × Perm (x ∷ path) (packed_all ps)
unfolding awget_main
awget_main-Serves net connects rand m b url bs flags fopen ps recvs e v some_left few u short f
      reach ready r o w st i named =
    let (e', run, fetched, x, path, picked, serves, perm) =
      awget-Serves net connects rand m b url bs ps recvs e v some_left (omega (arith, few)) u short
        f reach ready r o w st i in
    (
      e',
      ap (λ file. awget connects rand true url file e)
            (ap fopen (filename_of_lem default_name flags) ∙ named)
          ∙ run,
      fetched,
      x,
      path,
      picked,
      serves,
      perm,
    )
