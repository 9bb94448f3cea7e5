-- ===== src/Numbers/Choices.antt =====
-- What the options of the server of proj1 come to.
use networking.Prelude.{
  ℕ, ◌≡◌, refl, ap, ap₂, ◌∙◌, sym, List, [], ◌∷◌, Bool, true, false, ◌==◌, ◌&&◌, ◌||◌,
  if◌then◌else◌, Option, none, some, codes, ℤ, arith, Bool-cases, inl, inr,
}
use networking.Numbers.{same_text, Choice, transport}
use networking.Numbers.Mains.{Chosen, Parsed, used, thrown, parsed, is_port, choose, parse}

or_false : (b : Bool) → (b || false) ≡ b
or_false true = refl
or_false false = refl

or_true : (b : Bool) → (b || true) ≡ true
or_true true = refl
or_true false = refl

or_assoc : (a b c : Bool) → ((a || b) || c) ≡ (a || (b || c))
or_assoc true b c = refl
or_assoc false b c = refl

-- Whether an option names a transport, and whether it is TCP.
abbrev is_transport : Choice → Bool
is_transport c = same_text c.optarg (codes "udp") || same_text c.optarg (codes "tcp")

abbrev is_tcp : Choice → Bool
is_tcp c = if same_text c.optarg (codes "udp") then false else same_text c.optarg (codes "tcp")

transport_lem :
    (tcp : Bool) (c : Choice)
    → transport tcp c.optarg ≡ (if is_transport c then some (tcp || is_tcp c) else none)
transport_lem tcp c = elim (Bool-cases (same_text c.optarg (codes "udp"))) [
  | inl udp ↦ rw (udp, or_false tcp) refl
  | inr other ↦ elim (Bool-cases (same_text c.optarg (codes "tcp"))) [
    | inl same ↦ rw (other, same, or_true tcp) refl
    | inr differs ↦ rw (other, differs) refl
  ]
]

module _ (atoi : List ℕ → ℤ) where
  -- What the first option that the program does not take leads to.
  abbrev pub first_bad : List Choice → Option Parsed
  first_bad [] = none
  first_bad (c ∷ cs) =
      if c.letter == b't'
      then if is_transport c then first_bad cs else some used
      else if c.letter == b'p'
      then if is_port (atoi c.optarg) then first_bad cs else some thrown
      else some used

  abbrev pub has : ℕ → List Choice → Bool
  has letter [] = false
  has letter (c ∷ cs) = (c.letter == letter) || has letter cs

  -- Whether some -t says TCP.
  abbrev pub any_tcp : List Choice → Bool
  any_tcp [] = false
  any_tcp (c ∷ cs) = ((c.letter == b't') && is_tcp c) || any_tcp cs

  -- The number after the last -p.
  abbrev pub last_port : ℤ → List Choice → ℤ
  last_port n [] = n
  last_port n (c ∷ cs) = last_port (if c.letter == b'p' then atoi c.optarg else n) cs

  abbrev pub taken : Chosen → List Choice → Chosen
  taken o cs = record {
    tcp = o.tcp || any_tcp cs;
    t = o.t || has b't' cs;
    p = o.p || has b'p' cs;
    port = last_port o.port cs;
  }

  abbrev pub accepted : Chosen → Parsed
  accepted o = if o.p && o.t then parsed o else used

  abbrev pub or_accepted : Option Parsed → Chosen → Parsed
  or_accepted none o = accepted o
  or_accepted (some r) o = r

  taken-nil : (o : Chosen) → o ≡ taken o []
  taken-nil o =
      ap₂
        (λ (tcp : Bool) (tp : Bool × Bool). record { tcp = tcp; t = tp.0; p = tp.1; port = o.port })
        (sym (or_false o.tcp))
        (ap₂ (λ (t p : Bool). (t, p)) (sym (or_false o.t)) (sym (or_false o.p)))

  after_t : Choice → Chosen → Chosen
  after_t c o = record o { tcp = o.tcp || is_tcp c; t = true }

  after_p : Choice → Chosen → Chosen
  after_p c o = record o { p = true; port = atoi c.optarg }

  not_p : (c : Choice) → (c.letter == b't') ≡ true → (c.letter == b'p') ≡ false
  not_p c h = ground arith

  not_t : (c : Choice) → (c.letter == b'p') ≡ true → (c.letter == b't') ≡ false
  not_t c h = ground arith

  taken-after_t :
      (c : Choice) (cs : List Choice) (o : Chosen)
      → (c.letter == b't') ≡ true
      → taken (after_t c o) cs ≡ taken o (c ∷ cs)
  unfolding after_t
  taken-after_t c cs o h =
      rw (h, not_p c h, or_true o.t)
        (ap
          (λ tcp. record {
            tcp = tcp;
            t = true;
            p = o.p || has b'p' cs;
            port = last_port o.port cs;
          })
          (or_assoc o.tcp (is_tcp c) (any_tcp cs)))

  taken-after_p :
      (c : Choice) (cs : List Choice) (o : Chosen)
      → (c.letter == b'p') ≡ true
      → taken (after_p c o) cs ≡ taken o (c ∷ cs)
  unfolding after_p
  taken-after_p c cs o h = rw (h, not_t c h, or_true o.p) refl

  parse_t :
      (c : Choice) (cs : List Choice) (o : Chosen)
      → (c.letter == b't') ≡ true
      → is_transport c ≡ true
      → parse atoi (c ∷ cs) o ≡ parse atoi cs (after_t c o)
  unfolding parse choose after_t
  parse_t c cs o h good = rw (parse, choose, h, transport_lem o.tcp c, good) refl

  first_bad_t :
      (c : Choice) (cs : List Choice)
      → (c.letter == b't') ≡ true
      → is_transport c ≡ true
      → first_bad (c ∷ cs) ≡ first_bad cs
  first_bad_t c cs h good = rw (h, good) refl

  parse_p :
      (c : Choice) (cs : List Choice) (o : Chosen)
      → (c.letter == b'p') ≡ true
      → is_port (atoi c.optarg) ≡ true
      → parse atoi (c ∷ cs) o ≡ parse atoi cs (after_p c o)
  unfolding parse choose after_p
  parse_p c cs o h good = rw (parse, choose, not_t c h, h, good) refl

  first_bad_p :
      (c : Choice) (cs : List Choice)
      → (c.letter == b'p') ≡ true
      → is_port (atoi c.optarg) ≡ true
      → first_bad (c ∷ cs) ≡ first_bad cs
  first_bad_p c cs h good = rw (not_t c h, h, good) refl

  -- The first option that the program does not take decides: it ends in usage, for another letter than
  -- t and p and for a transport that is neither tcp nor udp, or in an exception, for a number that is
  -- no port. Without one, the program goes on if there is a -t and a -p, or ends in usage; it then
  -- takes the number of the last -p, but TCP if any -t says so, also one in front of a `-t udp`.
  pub parse_decides :
      (cs : List Choice) (o : Chosen) → parse atoi cs o ≡ or_accepted (first_bad cs) (taken o cs)
  unfolding parse choose
  parse_decides [] o = ap accepted (taken-nil o)
  parse_decides (c ∷ cs) o = elim (Bool-cases (c.letter == b't')) [
    | inl t ↦ elim (Bool-cases (is_transport c)) [
      | inl good ↦
          parse_t c cs o t good
          ∙ parse_decides cs (after_t c o)
          ∙ ap₂ or_accepted (sym (first_bad_t c cs t good)) (taken-after_t c cs o t)
      | inr bad ↦ rw (parse, choose, t, transport_lem o.tcp c, bad) refl
    ]
    | inr other ↦ elim (Bool-cases (c.letter == b'p')) [
      | inl p ↦ elim (Bool-cases (is_port (atoi c.optarg))) [
        | inl good ↦
            parse_p c cs o p good
            ∙ parse_decides cs (after_p c o)
            ∙ ap₂ or_accepted (sym (first_bad_p c cs p good)) (taken-after_p c cs o p)
        | inr bad ↦ rw (parse, choose, other, p, bad) refl
      ]
      | inr neither ↦ rw (parse, choose, other, neither) refl
    ]
  ]
