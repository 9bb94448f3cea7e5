-- ===== src/Chain/Client/Whole.antt =====
-- A whole run of the client of proj2/awget.c, with the chain of stones behind it.
use mathlib.Core.List.{Perm}
use networking.Prelude.{
  ℕ, zero, suc, ◌-◌, ◌%◌, ◌^◌, ◌≤◌, ◌<◌, ◌≡◌, refl, ap, sym, List, [], ◌∷◌, ◌++◌, true, some,
  length, length-append, length-take, take, All, arith, ℤ,
}
use networking.Transfer.{Outcome, moved, Steady}
use networking.Socket.Candidates.{Peer}
use networking.Chain.{
  ListHeader, ListElement, filename_max, header_size, file_header_size, zeros, strncpy, text_in,
}
use networking.Chain.Calls.{Ends, ok}
use networking.Chain.Ready.{Ready}
use networking.Chain.Stone.{pick}
use networking.Chain.Stone.Request.{IsHeader, IsElement, remove}
use networking.Chain.Stone.Forward.{IsReachable}
use networking.Chain.Stone.Connection.{request_bytes, reply_bytes}
use networking.Chain.Relay.{Site, Serves, ArePrepared, shorten, first-Serves}
use networking.Chain.Client.{read_chain, request_file, take_reply, awget}
use networking.Chain.Client.Exchange.{asked, request_file_lem, take_reply_lem}
use networking.Chain.Client.Lines.{
  IsFree, other_byte, IsEntry, packed, packed_all, chain_text, read_chain-chain_text,
}

length-zeros : (n : ℕ) → length (zeros n) ≡ n
length-zeros zero = refl
length-zeros (suc n) = ap suc (length-zeros n)

length-strncpy : (n : ℕ) (t : List ℕ) → length (strncpy n t) ≡ n
length-strncpy n t =
    omega (arith, length-take n (t ++ zeros n), length-append t (zeros n), length-zeros n)

-- A text that leaves room for its NUL is found in the array again.
pub text_in-take :
    (n m : ℕ) (t : List ℕ)
    → IsFree 0 t
    → length t < n
    → length t < m
    → text_in (take n (t ++ zeros m)) ≡ some t
unfolding text_in
text_in-take zero m t v h k = absurd (omega arith)
text_in-take (suc n) zero t v h k = absurd (omega arith)
text_in-take (suc n) (suc m) [] v h k = refl
text_in-take (suc n) (suc m) (b ∷ t) (v, vs) h k =
    rw (other_byte b 0 v, text_in-take n (suc m) t vs (omega arith) (omega arith)) refl

packed-IsElement : (host port : List ℕ) → IsEntry host port → IsElement (packed (host, port))
packed-IsElement host port v = record {
  host_full = length-strncpy 256 host;
  port_full = length-strncpy 8 port;
  host = host;
  port = port;
  host_ends = text_in-take 256 256 host v.host_text v.host_short v.host_short;
  port_ends = text_in-take 8 8 port v.port_text v.port_short v.port_short;
}

pub packed_all-IsElement :
    (ps : List (List ℕ × List ℕ)) → All (λ p. IsEntry p.0 p.1) ps → All IsElement (packed_all ps)
packed_all-IsElement [] v = tt
packed_all-IsElement (p ∷ ps) (v, vs) = (packed-IsElement p.0 p.1 v, packed_all-IsElement ps vs)

length-packed_all : (ps : List (List ℕ × List ℕ)) → length (packed_all ps) ≡ length ps
length-packed_all [] = refl
length-packed_all (p ∷ ps) = ap suc (length-packed_all ps)

-- The header that the client makes of a URL and a number of stones.
abbrev pub asking : List ℕ → ℕ → ListHeader
asking url n = record { version = 1; l_size = n; f_name = strncpy filename_max url }

pub asking-IsHeader : (url : List ℕ) (n : ℕ) → n < 2 ^ 32 → IsHeader (asking url n)
asking-IsHeader url n h = record { fits = h; full = length-strncpy filename_max url }

awget_steps :
    (connects : List ℕ → List ℕ → ℤ × List Peer) (rand : ℕ) (url fp : List ℕ) (h : ListHeader)
    (list : List ListElement) (e e₁ e₂ : Ends)
    → read_chain url fp e ≡ ok (h, list) e
    → request_file connects rand h list e ≡ ok tt e₁
    → take_reply true e₁ ≡ ok tt e₂
    → awget connects rand true url (some fp) e ≡ ok tt e₂
unfolding awget
awget_steps connects rand url fp h list e e₁ e₂ p q r = rw (p, q) r

-- What a run of the client that goes well leaves behind.
pub record Fetched (e : Ends) (request file : List ℕ) (e' : Ends) : Type 0 where
  pub sent : e'.next.outgoing ≡ e.next.outgoing ++ request
  pub written : e'.file ≡ e.file ++ file
  pub closed : e'.closed_next ≡ suc e.closed_next

-- With a chain file of 1 to 8192 lines in the format of the README, a URL that fits its array, stones
-- that can be reached and are prepared wherever they stand in the chain, a file of 1 to 2 ^ 31 - 1
-- bytes, and schedules on which no call of the client fails: the client sends its request to one of
-- the stones, the stones pass it on until each element has served it once, and the file that the last
-- one fetches, which comes back as the client's reply, is what the client writes.
pub awget-Serves :
    (net : ListElement → ℕ → Site) (connects : List ℕ → List ℕ → ℤ × List Peer) (rand m b : ℕ)
    (url bs : List ℕ) (ps : List (List ℕ × List ℕ)) (recvs : List Outcome) (e : Ends)
    → All (λ p. IsEntry p.0 p.1) ps
    → 0 < length ps
    → length ps ≤ 8192
    → IsFree 0 url
    → length url < filename_max
    → length (b ∷ bs) < 2 ^ 31
    → All (IsReachable connects) (packed_all ps)
    → ArePrepared net url (b ∷ bs) (packed_all ps) (packed_all ps)
    → Ready (suc (length ps)) header_size e.next.sends
    → e.next.recvs ≡ moved m ∷ recvs
    → file_header_size ≤ m
    → Steady (length (b ∷ bs)) recvs
    → e.next.incoming ≡ reply_bytes 1 (b ∷ bs)
    → (e' : Ends) × (awget connects rand true url (some (chain_text ps)) e ≡ ok tt e')
      × Fetched e
          (request_bytes
            (shorten (asking url (length ps)))
            (remove (packed_all ps) (rand % length ps)))
          (b ∷ bs)
          e'
      × (x : ListElement) × (path : List ListElement) × (pick (packed_all ps) (rand % length ps)
          ≡ some x)
      × Serves net
          (reply_bytes 1 (b ∷ bs))
          (net x (length (packed_all ps) - 1))
          (shorten (asking url (length ps)))
          (remove (packed_all ps) (rand % length ps))
          path
      × Perm (x ∷ path) (packed_all ps)
awget-Serves net connects rand m b url bs ps recvs e v some_left few u short f reach ready r o w st
      i =
    let list = packed_all ps in
    let h = asking url (length ps) in
    let same = length-packed_all ps in
    let elements = packed_all-IsElement ps v in
    let header = asking-IsHeader url (length ps) (omega (arith, few)) in
    let k = rand % length ps in
    let inside : k < length list = grind (arith, same, some_left) in
    let (lost, sends, p) =
      request_file_lem connects rand h list e header (sym same) (omega (arith, same)) elements reach
        (omega (arith, same, r.0), r.1) in
    let (recvs', q) =
      take_reply_lem m 1 recvs (b ∷ bs)
        (asked e lost sends (request_bytes (shorten h) (remove list k))) w o i f st in
    let (x, path, picked, serves, perm) =
      first-Serves net url bs b k h list header (sym same)
        (text_in-take filename_max filename_max url u short short) elements (omega (arith, f)) ready
        inside in
    (
      _,
      awget_steps connects rand url (chain_text ps) h list e _ _
          (read_chain-chain_text url ps e v few) p q,
      record { sent = refl; written = refl; closed = refl },
      x,
      path,
      picked,
      serves,
      perm,
    )
