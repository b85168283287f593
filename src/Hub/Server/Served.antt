-- ===== src/Hub/Server/Served.antt =====
-- Connections that are served and not closed: the lists that hub/server.py keeps of them.
use tsanet.Prelude.{
  ℕ, ◌≡◌, ◌≢◌, refl, ap, ◌⊎◌, inl, inr, Bool, true, false, ◌||◌, Option, none, some, List, [], ◌∷◌,
  ◌++◌, ◌==◌, arith, Bool-cases, ==_iff,
}
use tsanet.Hub.Session.{Session}
use tsanet.Hub.Server.{owns, without}

-- Whether a connection is in the list.
unfoldable pub listed : ℕ → List ℕ → Bool
listed c [] = false
listed c (d ∷ rest) = d == c || listed c rest

-- The owner of the session, if there is one, is served and was not hung up on.
abbrev pub Served : Option ℕ → List ℕ → List ℕ → Type 0
Served none serving closed = Unit
Served (some c) serving closed = (listed c serving ≡ true) × (listed c closed ≡ false)

pub listed-append : (c : ℕ) (xs ys : List ℕ) → listed c (xs ++ ys) ≡ (listed c xs || listed c ys)
unfolding listed
listed-append c [] ys = refl
listed-append c (x ∷ xs) ys = ground (arith, listed-append c xs ys)

pub listed-without : (c d : ℕ) (xs : List ℕ) → c ≢ d → listed c (without d xs) ≡ listed c xs
unfolding listed
listed-without c d [] ne = refl
listed-without c d (x ∷ xs) ne = ground (arith, listed-without c d xs ne)

pub Served-moves :
    (o o' : Option ℕ) (serving closed closed' : List ℕ)
    → (o' ≡ o) ⊎ (o' ≡ none)
    → closed' ≡ closed
    → Served o serving closed
    → Served o' serving closed'
Served-moves o o' serving closed closed' (inl e) same h = rw (e, same) h
Served-moves o o' serving closed closed' (inr e) same h = rw e tt

-- Another connection's end.
pub Served-other :
    (o : Option Session) (c : ℕ) (serving closed : List ℕ)
    → owns c o ≡ false
    → Served (elim o [ none ↦ none | some s ↦ some s.connection ]) serving closed
    → Served
        (elim o [ none ↦ none | some s ↦ some s.connection ])
        (without c serving)
        (closed ++ c ∷ [])
unfolding listed
Served-other none c serving closed o h = tt
Served-other (some s) c serving closed o h =
    ground
      (arith, listed-append s.connection closed (c ∷ []), listed-without s.connection c serving)

pub Served-none : (o : Option ℕ) (serving closed : List ℕ) → o ≡ none → Served o serving closed
Served-none o serving closed e = rw e tt

pub Served-rejected :
    (o : Option ℕ) (c : ℕ) (serving closed : List ℕ)
    → listed c serving ≡ false
    → Served o serving closed
    → Served o serving (closed ++ c ∷ [])
unfolding listed
Served-rejected none c serving closed unserved h = tt
Served-rejected (some d) c serving closed unserved h = elim (Bool-cases (d == c)) [
  | inl e ↦ ground (arith, ap (λ x. listed x serving) ((==_iff d c).0 e))
  | inr ne ↦ ground (arith, listed-append d closed (c ∷ []))
]

pub Served-added :
    (o : Option ℕ) (c : ℕ) (serving closed : List ℕ)
    → o ≡ some c
    → listed c closed ≡ false
    → Served o (serving ++ c ∷ []) closed
unfolding listed
Served-added o c serving closed e unclosed =
    rw e (ground (arith, listed-append c serving (c ∷ [])), unclosed)

-- The incumbent, which is served, is not the new connection, which is not.
pub unclosed-evicted :
    (c d : ℕ) (serving closed : List ℕ)
    → listed d serving ≡ true
    → listed c serving ≡ false
    → listed c closed ≡ false
    → listed c (closed ++ d ∷ []) ≡ false
unfolding listed
unclosed-evicted c d serving closed served unserved unclosed = elim (Bool-cases (d == c)) [
  | inl e ↦ ground (arith, ap (λ x. listed x serving) ((==_iff d c).0 e))
  | inr ne ↦ ground (arith, listed-append c closed (d ∷ []))
]

pub Served-owner :
    (o : Option Session) (t : Session) (serving closed : List ℕ)
    → o ≡ some t
    → Served (elim o [ none ↦ none | some s ↦ some s.connection ]) serving closed
    → listed t.connection serving ≡ true
Served-owner (some s) t serving closed e h = ground (arith, e, h.0)
Served-owner none t serving closed e h = ground (arith, e)
