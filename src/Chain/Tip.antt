-- ===== src/Chain/Tip.antt =====
-- SetTip (main.cpp) makes the chain of the blocks from the genesis block to the tip.
use darcoin.Common.{
  le_or_lt, ℕ, zero, suc, ◌+◌, ◌-◌, ◌≤◌, ◌<◌, ◌≡◌, ◌≢◌, refl, sym, ap, subst, ◌∙◌, true, false,
  Bool-cases, Option-cases, Option, none, some, inl, inr, [], ◌∷◌, ◌==◌, ==_iff, ==_self, length,
  set, length-set, get_elem?-set_self, get_elem?-set_ne, arith,
}
use darcoin.Chain.{
  BlockIndex, Chain, entry, block_at, is_block, contains, tip, resize, set_tip_loop, set_tip,
}

-- The block before the height h.
abbrev pub below : Chain → ℕ → Option ℕ
below c zero = none
below c (suc h) = block_at c h

tip_lem : (c : Chain) (k p : ℕ) → length c ≡ k + 1 → block_at c k ≡ some p → tip c ≡ some p
tip_lem [] k p e h = absurd (omega (arith, e))
tip_lem (x ∷ c) k p e h =
    let some_left : (length (x ∷ c) == 0) ≡ false = ground arith in
    let last : length (x ∷ c) - 1 ≡ k = omega (arith, e) in rw (some_left, last) h

module _ (blocks : ℕ → BlockIndex) where
  -- A block has the height of the one before it plus one, the genesis block 0.
  pub record IsTree : Type 0 where
    pub parent : (p q : ℕ) → (blocks p).pprev ≡ some q → (blocks p).height ≡ suc ((blocks q).height)
    pub root : (p : ℕ) → (blocks p).pprev ≡ none → (blocks p).height ≡ 0

  -- At the height h the chain has a block of this height that stands on the one below.
  abbrev pub IsLinked : Chain → ℕ → Type 0
  IsLinked c h =
      (p : ℕ) × (block_at c h ≡ some p) × ((blocks p).height ≡ h) × ((blocks p).pprev ≡ below c h)

  abbrev pub IsChain : Chain → Type 0
  IsChain c = (h : ℕ) → h < length c → IsLinked c h

  -- The loop has set the blocks above p, and left those below.
  record Above (c₀ c : Chain) (p : ℕ) : Type 0 where
    inside : (blocks p).height < length c
    linked :
        (h : ℕ)
        → (blocks p).height < h
        → h < length c
        → IsLinked (set c ((blocks p).height) (some p)) h
    kept : (h : ℕ) → h ≤ (blocks p).height → block_at c h ≡ block_at c₀ h

  -- The block, if there is one, was in the chain, and both chains have the same blocks up to its
  -- height.
  abbrev pub IsFork : Chain → Chain → Option ℕ → Type 0
  IsFork c₀ c none = Unit {0}
  IsFork c₀ c (some q) =
      (contains blocks c₀ q ≡ true)
      × ((h : ℕ) → h ≤ (blocks q).height → block_at c h ≡ block_at c₀ h)

  -- What the loop leaves, from the block p and the chain c on: the block that it ends with was in
  -- the chain c₀ before.
  pub record IsReplaced (c₀ c : Chain) (p : ℕ) (r : Option ℕ × Chain) : Type 0 where
    pub chain : IsChain r.1
    pub ends : length r.1 ≡ length c
    pub top : block_at r.1 ((blocks p).height) ≡ some p
    pub above : (h : ℕ) → (blocks p).height < h → block_at r.1 h ≡ block_at c h
    pub fork : IsFork c₀ r.1 r.0

  block_at-set_self : (c : Chain) (h : ℕ) (p : Option ℕ) → h < length c → block_at (set c h p) h ≡ p
  block_at-set_self c h p l = ap entry (get_elem?-set_self c h p l)

  block_at-set_ne :
      (c : Chain) (h k : ℕ) (p : Option ℕ) → h ≢ k → block_at (set c h p) k ≡ block_at c k
  block_at-set_ne c h k p n = ap entry (get_elem?-set_ne c h k p n)

  below-set_ne : (c : Chain) (h k : ℕ) (p : Option ℕ) → suc h ≢ k → below (set c h p) k ≡ below c k
  below-set_ne c h zero p n = refl
  below-set_ne c h (suc k) p n = block_at-set_ne c h k p (λ e. n (ap suc e))

  below-same :
      (c d : Chain) (k : ℕ)
      → ((h : ℕ) → suc h ≡ k → block_at c h ≡ block_at d h)
      → below c k ≡ below d k
  below-same c d zero e = refl
  below-same c d (suc k) e = e k refl

  IsLinked-same :
      (c d : Chain) (h : ℕ)
      → block_at c h ≡ block_at d h
      → below c h ≡ below d h
      → IsLinked c h
      → IsLinked d h
  IsLinked-same c d h e b (p, at, height, prev) = (p, sym e ∙ at, height, prev ∙ b)

  pub block_at-inside : (c : Chain) (h p : ℕ) → block_at c h ≡ some p → h < length c
  block_at-inside [] h p e = cc
  block_at-inside (x ∷ c) zero p e = omega arith
  block_at-inside (x ∷ c) (suc h) p e = omega (arith, block_at-inside c h p e)

  set-block_at : (c : Chain) (h p : ℕ) → block_at c h ≡ some p → set c h (some p) ≡ c
  set-block_at [] h p e = refl
  set-block_at (x ∷ c) zero p e = ap (λ y. y ∷ c) (sym e)
  set-block_at (x ∷ c) (suc h) p e = ap (λ d. x ∷ d) (set-block_at c h p e)

  pub is_block_lem : (x : Option ℕ) (p : ℕ) → is_block x p ≡ true → x ≡ some p
  is_block_lem none p e = cc
  is_block_lem (some q) p e = ap some ((==_iff q p).0 e)

  pub contains_lem :
      (c : Chain) (q : ℕ) → block_at c ((blocks q).height) ≡ some q → contains blocks c q ≡ true
  contains_lem c q e = rw e (==_self q)

  -- The loop ends at a block that the chain has.
  IsReplaced-contained :
      (c₀ c : Chain) (p : ℕ)
      → IsChain c₀
      → Above c₀ c p
      → block_at c ((blocks p).height) ≡ some p
      → IsReplaced c₀ c p (some p, c)
  IsReplaced-contained c₀ c p v a e =
      let k : ℕ = (blocks p).height in
      let was : block_at c₀ k ≡ some p = sym (a.kept k (omega arith)) ∙ e in
      record {
        chain = λ h l. elim (le_or_lt h k) [
          | inl low ↦
              IsLinked-same c₀ c h (sym (a.kept h low))
                (below-same c₀ c h (λ j s. sym (a.kept j (omega (arith, s, low)))))
                (v h (omega (arith, block_at-inside c₀ k p was, low)))
          | inr high ↦ subst (λ d. IsLinked d h) (set-block_at c k p e) (a.linked h high l)
        ];
        ends = refl;
        top = e;
        above = λ h l. refl;
        fork = (contains_lem c₀ p was, a.kept);
      }

  -- The loop ends behind the genesis block.
  IsReplaced-genesis :
      (c₀ c : Chain) (p : ℕ)
      → IsTree
      → Above c₀ c p
      → (blocks p).pprev ≡ none
      → IsReplaced c₀ c p (none, set c ((blocks p).height) (some p))
  IsReplaced-genesis c₀ c p t a e =
      let k : ℕ = (blocks p).height in
      let bottom : k ≡ 0 = t.root p e in
      record {
        chain = λ h l. elim (le_or_lt h k) [
          | inl low ↦
              let here : h ≡ k = omega (arith, low, bottom) in
              let d : Chain = set c k (some p) in
              subst (λ j. IsLinked d j) (sym here)
                (p, block_at-set_self c k (some p) a.inside, refl, e ∙ sym (ap (below d) bottom))
          | inr high ↦ a.linked h high (omega (arith, l, length-set c k (some p)))
        ];
        ends = length-set c k (some p);
        top = block_at-set_self c k (some p) a.inside;
        above = λ h l. block_at-set_ne c k h (some p) (omega (arith, l));
        fork = tt;
      }

  -- A round moves down to the block before.
  Above-parent :
      (c₀ c : Chain) (p q : ℕ)
      → IsTree
      → Above c₀ c p
      → (blocks p).pprev ≡ some q
      → Above c₀ (set c ((blocks p).height) (some p)) q
  Above-parent c₀ c p q t a e =
      let k : ℕ = (blocks p).height in
      let m : ℕ = (blocks q).height in
      let d : Chain = set c k (some p) in
      let d' : Chain = set d m (some q) in
      let step : k ≡ suc m = t.parent p q e in
      let size : length d ≡ length c = length-set c k (some p) in
      let size' : length d' ≡ length d = length-set d m (some q) in
      let there : m < length d = omega (arith, size, step, a.inside) in
      record {
        inside = there;
        linked = λ h g l. elim (le_or_lt h k) [
          | inl low ↦
              let here : h ≡ k = omega (arith, low, g, step) in
              subst (λ j. IsLinked d' j) (sym here)
                (
                  p,
                  block_at-set_ne d m k (some q) (omega (arith, step))
                      ∙ block_at-set_self c k (some p) a.inside,
                  refl,
                  e ∙ sym (ap (below d') step ∙ block_at-set_self d m (some q) there),
                )
          | inr high ↦
              IsLinked-same d d' h
                (sym (block_at-set_ne d m h (some q) (omega (arith, high, step))))
                (sym (below-set_ne d m h (some q) (omega (arith, high, step))))
                (a.linked h high (omega (arith, l, size, size')))
        ];
        kept = λ h low.
            block_at-set_ne c k h (some p) (omega (arith, low, step))
            ∙ a.kept h (omega (arith, low, step));
      }

  IsReplaced-parent :
      (c₀ c : Chain) (p q : ℕ) (r : Option ℕ × Chain)
      → IsTree
      → Above c₀ c p
      → (blocks p).pprev ≡ some q
      → IsReplaced c₀ (set c ((blocks p).height) (some p)) q r
      → IsReplaced c₀ c p r
  IsReplaced-parent c₀ c p q r t a e x =
      let k : ℕ = (blocks p).height in
      let step : k ≡ suc ((blocks q).height) = t.parent p q e in
      record {
        chain = x.chain;
        ends = x.ends ∙ length-set c k (some p);
        top = x.above k (omega (arith, step)) ∙ block_at-set_self c k (some p) a.inside;
        above = λ h l.
            x.above h (omega (arith, step, l)) ∙ block_at-set_ne c k h (some p) (omega (arith, l));
        fork = x.fork;
      }

  set_tip_loop-IsReplaced :
      (fuel : ℕ) (c₀ c : Chain) (p : ℕ)
      → IsTree
      → IsChain c₀
      → Above c₀ c p
      → (blocks p).height < fuel
      → IsReplaced c₀ c p (set_tip_loop blocks fuel (some p) c)
  unfolding set_tip_loop
  set_tip_loop-IsReplaced zero c₀ c p t v a h = absurd (omega (arith, h))
  set_tip_loop-IsReplaced (suc fuel) c₀ c p t v a h = elim (Bool-cases (contains blocks c p)) [
    | inl y ↦ rw y (IsReplaced-contained c₀ c p v a (is_block_lem _ p y))
    | inr n ↦ elim (Option-cases ((blocks p).pprev)) [
      | inl e ↦ rw (n, e) (IsReplaced-genesis c₀ c p t a e)
      | inr (q, e) ↦
          rw (n, e)
            (IsReplaced-parent c₀ c p q _ t a e (
              set_tip_loop-IsReplaced fuel c₀ (set c ((blocks p).height) (some p)) q t v
                (Above-parent c₀ c p q t a e) (omega (arith, h, t.parent p q e))))
    ]
  ]

  length-resize : (n : ℕ) (c : Chain) → length (resize n c) ≡ n
  unfolding resize
  length-resize zero c = refl
  length-resize (suc n) [] = ap suc (length-resize n [])
  length-resize (suc n) (x ∷ c) = ap suc (length-resize n c)

  block_at-resize : (n h : ℕ) (c : Chain) → h < n → block_at (resize n c) h ≡ block_at c h
  unfolding resize
  block_at-resize zero h c l = absurd (omega (arith, l))
  block_at-resize (suc n) zero [] l = refl
  block_at-resize (suc n) (suc h) [] l = block_at-resize n h [] (omega (arith, l))
  block_at-resize (suc n) zero (x ∷ c) l = refl
  block_at-resize (suc n) (suc h) (x ∷ c) l = block_at-resize n h c (omega (arith, l))

  -- Where every block stands one above the one before it, SetTip makes of a chain from the genesis
  -- block on, each block linked to the one below, such a chain that ends in the new tip at its
  -- height. The block that it returns, if any, was in the chain, and the two chains are the same up
  -- to it.
  pub set_tip-IsChain :
      (c : Chain) (p : ℕ)
      → IsTree
      → IsChain c
      → IsChain ((set_tip blocks (some p) c).1)
        × (length ((set_tip blocks (some p) c).1) ≡ (blocks p).height + 1)
        × (tip ((set_tip blocks (some p) c).1) ≡ some p)
        × IsFork c ((set_tip blocks (some p) c).1) ((set_tip blocks (some p) c).0)
  unfolding set_tip
  set_tip-IsChain c p t v =
      let k : ℕ = (blocks p).height in
      let start : Above c (resize (k + 1) c) p = record {
        inside = omega (arith, length-resize (k + 1) c);
        linked = λ h g l. absurd (omega (arith, g, l, length-resize (k + 1) c));
        kept = λ h low. block_at-resize (k + 1) h c (omega (arith, low));
      } in
      let r = set_tip_loop-IsReplaced (k + 1) c (resize (k + 1) c) p t v start (omega arith) in
      let size = r.ends ∙ length-resize (k + 1) c in
      (r.chain, size, tip_lem _ k p (size) r.top, r.fork)
