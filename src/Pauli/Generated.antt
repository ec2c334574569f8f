-- ===== src/Pauli/Generated.antt =====
-- Every operator is a chain of h, s and cx, so what these three keep, every operator keeps. The
-- principle is stated for a relation between three implementations of the trait.
use qsyn.Prelude.{ℕ, ◌≢◌, sym, [], ◌∷◌}
use qsyn.Pauli.Operator.{CliffordOperatorType, CliffordOperatorString}
use qsyn.Pauli.Trait.{PauliProductTrait, dispatch, apply, apply_operator}

-- The two qubits of an operator that takes two are distinct.
abbrev pub AreDistinct : CliffordOperatorType → ℕ → ℕ → Type 0
AreDistinct CliffordOperatorType.cx i j = i ≢ j
AreDistinct CliffordOperatorType.cz i j = i ≢ j
AreDistinct CliffordOperatorType.swap i j = i ≢ j
AreDistinct CliffordOperatorType.ecr i j = i ≢ j
AreDistinct _ i j = Unit

abbrev pub AllDistinct : CliffordOperatorString → Type 0
AllDistinct [] = Unit
AllDistinct (op ∷ ops) = AreDistinct op.type op.qubit₀ op.qubit₁ × AllDistinct ops

module _ {ℓ κ} {T U V : Type ℓ} ⦃t : PauliProductTrait T⦄ ⦃u : PauliProductTrait U⦄
    ⦃v : PauliProductTrait V⦄ (R : T → U → V → Type κ)
    (keep_h : (a : T) (b : U) (c : V) (i : ℕ) → R a b c → R (t.h a i) (u.h b i) (v.h c i))
    (keep_s : (a : T) (b : U) (c : V) (i : ℕ) → R a b c → R (t.s a i) (u.s b i) (v.s c i))
    (keep_cx : (a : T) (b : U) (c : V) (i j : ℕ)
      → i ≢ j
      → R a b c
      → R (t.cx a i j) (u.cx b i j) (v.cx c i j)) where
  hh : {a : T} {b : U} {c : V} (i : ℕ) → R a b c → R (t.h a i) (u.h b i) (v.h c i)
  hh i r = keep_h _ _ _ i r

  ss : {a : T} {b : U} {c : V} (i : ℕ) → R a b c → R (t.s a i) (u.s b i) (v.s c i)
  ss i r = keep_s _ _ _ i r

  pub keep_dispatch :
      (ty : CliffordOperatorType) (a : T) (b : U) (c : V) (i j : ℕ)
      → AreDistinct ty i j
      → R a b c
      → R (dispatch ty a i j) (dispatch ty b i j) (dispatch ty c i j)
  keep_dispatch CliffordOperatorType.h a b c i j d r = hh i r
  keep_dispatch CliffordOperatorType.s a b c i j d r = ss i r
  keep_dispatch CliffordOperatorType.cx a b c i j d r = keep_cx _ _ _ i j d r
  keep_dispatch CliffordOperatorType.sdg a b c i j d r = ss i (ss i (ss i r))
  keep_dispatch CliffordOperatorType.v a b c i j d r = hh i (ss i (hh i r))
  keep_dispatch CliffordOperatorType.vdg a b c i j d r = hh i (ss i (ss i (ss i (hh i r))))
  keep_dispatch CliffordOperatorType.x a b c i j d r = hh i (ss i (ss i (hh i r)))
  keep_dispatch CliffordOperatorType.y a b c i j d r = ss i (ss i (hh i (ss i (ss i (hh i r)))))
  keep_dispatch CliffordOperatorType.z a b c i j d r = ss i (ss i r)
  keep_dispatch CliffordOperatorType.cz a b c i j d r = hh j (keep_cx _ _ _ i j d (hh j r))
  keep_dispatch CliffordOperatorType.swap a b c i j d r =
      keep_cx _ _ _ i j d (keep_cx _ _ _ j i (λ e. d (sym e)) (keep_cx _ _ _ i j d r))
  keep_dispatch CliffordOperatorType.ecr a b c i j d r =
      hh j (ss j (hh j (hh i (ss i (ss i (hh i (ss i (keep_cx _ _ _ i j d r))))))))

  pub keep_apply :
      (ops : CliffordOperatorString) (a : T) (b : U) (c : V)
      → AllDistinct ops
      → R a b c
      → R (apply a ops) (apply b ops) (apply c ops)
  unfolding apply apply_operator
  keep_apply [] a b c d r = r
  keep_apply (op ∷ ops) a b c d r =
      keep_apply ops _ _ _ d.1 (keep_dispatch op.type a b c op.qubit₀ op.qubit₁ d.0 r)
