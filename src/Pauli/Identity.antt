-- ===== src/Pauli/Identity.antt =====
-- A gate makes no product the identity that was not.
use qsyn.Prelude.{
  ℕ, zero, suc, ◌<◌, ◌≡◌, ◌≢◌, refl, sym, subst, Bool, true, false, not, ◌&&◌, List, [], ◌∷◌,
  length, get_or, set, get_or-set_self, get_or-set_ne, ◌∙◌, length-set, lt_cases, Bool-cases, inl,
  inr, arith, eq_cases,
}
use qsyn.Pauli.Gates.{
  h_inside, h_outside, s_inside, s_outside, cx_inside, cx_outside, h_site, s_site, cx_control,
  cx_target,
}
use qsyn.Pauli.Product
use qsyn.Pauli.Product.{PauliProduct, Site, no_site, site, n_qubits, all_sites, is_identity}

abbrev clear : Site → Bool
clear a = not a.z_set && not a.x_set

abbrev IsClear : Site → Type 0
IsClear a = clear a ≡ true

get_or-clear :
    (as' : List Site) (k : ℕ) → all_sites clear as' ≡ true → clear (get_or as' k no_site) ≡ true
get_or-clear [] k h = refl
get_or-clear (a ∷ as') zero h = ground (arith, h)
get_or-clear (a ∷ as') (suc k) h = get_or-clear as' k (ground (arith, h))

all-clear :
    (as' : List Site) → ((k : ℕ) → clear (get_or as' k no_site) ≡ true) → all_sites clear as' ≡ true
all-clear [] h = refl
all-clear (a ∷ as') h =
    let first = h 0 in let rest = all-clear as' (λ k. h (suc k)) in ground (arith, first, rest)

-- If every qubit that the gate leaves clear was clear, the gate keeps products with a letter.
some_letter :
    (p q : PauliProduct)
    → (((k : ℕ) → clear (site q k) ≡ true) → (k : ℕ) → clear (site p k) ≡ true)
    → is_identity p ≡ false
    → is_identity q ≡ false
unfolding is_identity
some_letter p q back some = elim (Bool-cases (all_sites clear q.sites)) [
  | inl e ↦
      let none = all-clear p.sites (back (λ k. get_or-clear q.sites k e)) in
      ground (arith, none, some)
  | inr e ↦ e
]

clear-h : (a : Site) → clear (h_site a) ≡ true → clear a ≡ true
clear-h a h = ground (arith, h)

clear-s : (a : Site) → clear (s_site a) ≡ true → clear a ≡ true
clear-s a h = ground (arith, h)

clear-cx_control :
    (a b : Site)
    → clear (cx_control a b) ≡ true
    → clear (cx_target a b) ≡ true
    → (clear a ≡ true) × (clear b ≡ true)
clear-cx_control a b h g = ground (arith, h, g)

-- One qubit is written.
written_one :
    (as' : List Site) (q : ℕ) (b : Site)
    → q < length as'
    → (clear b ≡ true → clear (get_or as' q no_site) ≡ true)
    → ((k : ℕ) → clear (get_or (set as' q b) k no_site) ≡ true)
    → (k : ℕ) → clear (get_or as' k no_site) ≡ true
written_one as' q b inside back h k =
    let at = h k in
    elim (eq_cases k q) [
      | inl e ↦
          subst (λ j. clear (get_or as' j no_site) ≡ true) (sym e)
            (back (subst IsClear (get_or-set_self as' q b no_site inside) (h q)))
      | inr e ↦ subst IsClear (get_or-set_ne as' q k b no_site (λ d. e (sym d))) at
    ]

pub is_identity-h :
    (p : PauliProduct) (q : ℕ) → is_identity p ≡ false → is_identity (Product.h p q) ≡ false
is_identity-h p q some = elim (lt_cases q (n_qubits p)) [
  | inl inside ↦
      some_letter p (Product.h p q)
        (λ all.
          written_one p.sites q (h_site (site p q)) inside (clear-h (site p q))
            (λ k. subst (λ r. IsClear (site r k)) (h_inside p q inside) (all k)))
        some
  | inr out ↦ subst (λ r. is_identity r ≡ false) (sym (h_outside p q out)) some
]

pub is_identity-s :
    (p : PauliProduct) (q : ℕ) → is_identity p ≡ false → is_identity (Product.s p q) ≡ false
is_identity-s p q some = elim (lt_cases q (n_qubits p)) [
  | inl inside ↦
      some_letter p (Product.s p q)
        (λ all.
          written_one p.sites q (s_site (site p q)) inside (clear-s (site p q))
            (λ k. subst (λ r. IsClear (site r k)) (s_inside p q inside) (all k)))
        some
  | inr out ↦ subst (λ r. is_identity r ≡ false) (sym (s_outside p q out)) some
]

-- Two qubits are written.
module _ (as' : List Site) (c t : ℕ) (c_in : c < length as') (t_in : t < length as')
    (c_t : c ≢ t) where
  abbrev control : Site
  control = cx_control (get_or as' c no_site) (get_or as' t no_site)

  abbrev target : Site
  target = cx_target (get_or as' c no_site) (get_or as' t no_site)

  written_two :
      ((k : ℕ) → IsClear (get_or (set (set as' t target) c control) k no_site))
      → (k : ℕ) → IsClear (get_or as' k no_site)
  written_two h =
      written_one as' t target t_in (λ e. both.1)
        (written_one (set as' t target) c control c_in'
          (λ e.
            subst IsClear (sym (get_or-set_ne as' t c target no_site (λ d. c_t (sym d)))) both.0)
          h)
    where
      c_in' : c < length (set as' t target)
      c_in' = omega (arith, length-set as' t target)

      t_in' : t < length (set as' t target)
      t_in' = omega (arith, length-set as' t target)

      target_clear : IsClear target
      target_clear =
          subst IsClear
            (get_or-set_ne (set as' t target) c t control no_site c_t
              ∙ get_or-set_self as' t target no_site t_in)
            (h t)

      control_clear : IsClear control
      control_clear =
          subst IsClear (get_or-set_self (set as' t target) c control no_site c_in') (h c)

      both : IsClear (get_or as' c no_site) × IsClear (get_or as' t no_site)
      both =
          clear-cx_control (get_or as' c no_site) (get_or as' t no_site) control_clear target_clear

pub is_identity-cx :
    (p : PauliProduct) (c t : ℕ)
    → c ≢ t
    → is_identity p ≡ false
    → is_identity (Product.cx p c t) ≡ false
is_identity-cx p c t c_t some = elim (lt_cases c (n_qubits p)) [
  | inl c_in ↦ elim (lt_cases t (n_qubits p)) [
    | inl t_in ↦
        some_letter p (Product.cx p c t)
          (λ all.
            written_two p.sites c t c_in t_in c_t
              (λ k. subst (λ r. IsClear (site r k)) (cx_inside p c t c_in t_in c_t) (all k)))
          some
    | inr out ↦ subst (λ r. is_identity r ≡ false) (sym (cx_outside p c t (inr out))) some
  ]
  | inr out ↦ subst (λ r. is_identity r ≡ false) (sym (cx_outside p c t (inl out))) some
]
