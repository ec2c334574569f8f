-- ===== src/Pauli/Text.antt =====
-- src/tableau/pauli_rotation.cpp: a PauliProduct from a list of Paulis and from a string, and its
-- text. A character is its byte. `dvlab::str::toupper` passes on to the C library's function, which
-- is the parameter `toupper`.
use qsyn.Prelude.{
  ℕ, ◌≡◌, ◌≢◌, ◌∙◌, refl, ap, Bool, true, false, Option, none, some, List, [], ◌∷◌, ◌++◌, map, ◌==◌,
  if◌then◌else◌, if_ind, ==_iff,
}
use qsyn.Pauli.Product.{Pauli, Site, PauliProduct, no_site, pauli_of}

abbrev pub site_of : Pauli → Site
site_of Pauli.i = no_site
site_of Pauli.z = record { z_set = true; x_set = false }
site_of Pauli.y = record { z_set = true; x_set = true }
site_of Pauli.x = record { z_set = false; x_set = true }

-- `PauliProduct(std::initializer_list<Pauli> const&, bool)`.
unfoldable pub of_paulis : List Pauli → Bool → PauliProduct
of_paulis paulis is_neg = record { sites = map site_of paulis; neg = is_neg }

abbrev pub letter : Pauli → ℕ
letter Pauli.i = b'I'
letter Pauli.x = b'X'
letter Pauli.y = b'Y'
letter Pauli.z = b'Z'

-- `to_string(signedness)`.
abbrev pub sign_text : ℕ → Bool → List ℕ
sign_text signedness true = b'-' ∷ []
sign_text signedness false =
    if signedness == b'+' then b'+' ∷ [] else if signedness == b' ' then b' ' ∷ [] else []

unfoldable pub to_string : ℕ → PauliProduct → List ℕ
to_string signedness p = sign_text signedness p.neg ++ map (λ s. letter (pauli_of s)) p.sites

-- `to_bit_string()`.
abbrev pub digit : Bool → ℕ
digit true = b'1'
digit false = b'0'

unfoldable pub to_bit_string : PauliProduct → List ℕ
to_bit_string p =
    map (λ s. digit s.z_set) p.sites
    ++ (b' ' ∷ map (λ s. digit s.x_set) p.sites ++ (b' ' ∷ digit p.neg ∷ []))

letters-of_paulis :
    (paulis : List Pauli) → map (λ s. letter (pauli_of s)) (map site_of paulis) ≡ map letter paulis
letters-of_paulis [] = refl
letters-of_paulis (Pauli.i ∷ ps) = ap (◌∷◌ b'I') (letters-of_paulis ps)
letters-of_paulis (Pauli.x ∷ ps) = ap (◌∷◌ b'X') (letters-of_paulis ps)
letters-of_paulis (Pauli.y ∷ ps) = ap (◌∷◌ b'Y') (letters-of_paulis ps)
letters-of_paulis (Pauli.z ∷ ps) = ap (◌∷◌ b'Z') (letters-of_paulis ps)

-- The text, with a sign in front, of a product that was made from a list of Paulis is the sign and
-- their letters.
pub to_string-of_paulis :
    (paulis : List Pauli) (n : Bool)
    → to_string b'+' (of_paulis paulis n) ≡ (if n then b'-' else b'+') ∷ map letter paulis
unfolding to_string of_paulis
to_string-of_paulis paulis true = ap (◌∷◌ b'-') (letters-of_paulis paulis)
to_string-of_paulis paulis false = ap (◌∷◌ b'+') (letters-of_paulis paulis)

module _ (toupper : ℕ → ℕ) where
  -- The `switch` on a character: an unknown one leaves the bits of its qubit clear.
  abbrev pub site_of_letter : ℕ → Site
  site_of_letter c =
      if c == b'Z'
      then site_of Pauli.z
      else if c == b'Y'
      then site_of Pauli.y
      else if c == b'X'
      then site_of Pauli.x
      else no_site

  abbrev pub of_letters : Bool → List ℕ → PauliProduct
  of_letters is_neg cs = record { sites = map (λ c. site_of_letter (toupper c)) cs; neg = is_neg }

  -- `PauliProduct(std::string_view)`. `none` on an empty string, of which the source reads the first
  -- character.
  unfoldable pub of_string : List ℕ → Option PauliProduct
  of_string [] = none
  of_string (c ∷ cs) =
      if c == b'+'
      then some (of_letters false cs)
      else if c == b'-'
      then some (of_letters true cs)
      else some (of_letters false (c ∷ cs))

  -- What the parser relies on: upper-case letters stay.
  pub record KeepsLetters : Type 0 where
    pub keeps : (p : Pauli) → toupper (letter p) ≡ letter p

  site_of_letter-bits :
      KeepsLetters
      → (z x : Bool)
      → let bits : Site = record { z_set = z; x_set = x } in
        site_of_letter (toupper (letter (pauli_of bits))) ≡ bits
  site_of_letter-bits k true true = rw (k.keeps Pauli.y) refl
  site_of_letter-bits k true false = rw (k.keeps Pauli.z) refl
  site_of_letter-bits k false true = rw (k.keeps Pauli.x) refl
  site_of_letter-bits k false false = rw (k.keeps Pauli.i) refl

  letters_lem :
      KeepsLetters
      → (sites : List Site)
      → map (λ c. site_of_letter (toupper c)) (map (λ s. letter (pauli_of s)) sites) ≡ sites
  letters_lem k [] = refl
  letters_lem k (s ∷ sites) =
      ap (λ t. t ∷ map (λ c. site_of_letter (toupper c)) (map (λ s. letter (pauli_of s)) sites))
        (site_of_letter-bits k s.z_set s.x_set)
      ∙ ap (◌∷◌ s) (letters_lem k sites)

  first_letter :
      (q : Pauli) (cs : List ℕ)
      → of_string (letter q ∷ cs) ≡ some (of_letters false (letter q ∷ cs))
  unfolding of_string
  first_letter Pauli.i cs = refl
  first_letter Pauli.x cs = refl
  first_letter Pauli.y cs = refl
  first_letter Pauli.z cs = refl

  read_back :
      KeepsLetters
      → (sites : List Site) (n : Bool)
      → of_letters n (map (λ s. letter (pauli_of s)) sites) ≡ record { sites = sites; neg = n }
  read_back k sites n = ap (λ t. record { sites = t; neg = n }) (letters_lem k sites)

  unsigned :
      KeepsLetters
      → (sites : List Site) → map (λ s. letter (pauli_of s)) sites ≢ []
      → of_string (map (λ s. letter (pauli_of s)) sites)
        ≡ some (record { sites = sites; neg = false })
  unsigned k [] shown = absurd (shown refl)
  unsigned k (s ∷ sites) shown =
      first_letter (pauli_of s) _ ∙ ap some (read_back k (s ∷ sites) false)

  signed :
      KeepsLetters
      → (signedness : ℕ) (sites : List Site) (n : Bool) → signedness ≢ b' '
      → sign_text signedness n ++ map (λ s. letter (pauli_of s)) sites ≢ []
      → of_string (sign_text signedness n ++ map (λ s. letter (pauli_of s)) sites)
        ≡ some (record { sites = sites; neg = n })
  unfolding of_string
  signed k signedness sites true visible shown = ap some (read_back k sites true)
  signed k signedness sites false visible shown =
      let letters = map (λ s. letter (pauli_of s)) sites in
      let Goal : List ℕ → Type 0 = λ t.
        t ++ letters ≢ []
        → of_string (t ++ letters) ≡ some (record { sites = sites; neg = false }) in
      if_ind Goal (signedness == b'+') (λ e _. ap some (read_back k sites false))
        (λ e.
          if_ind Goal (signedness == b' ')
            (λ blank _. absurd (visible ((==_iff signedness b' ').0 blank)))
            (λ e' seen. unsigned k sites seen))
        shown

  -- With a `toupper` that keeps the upper-case letters of the Paulis, a product is read back from its
  -- text, in every form but the one that writes a blank for the sign, unless that text is empty.
  pub of_string-to_string :
      KeepsLetters
      → (signedness : ℕ) (p : PauliProduct) → signedness ≢ b' '
      → to_string signedness p ≢ []
      → of_string (to_string signedness p) ≡ some p
  unfolding to_string
  of_string-to_string k signedness p visible shown = signed k signedness p.sites p.neg visible shown
