-- ===== src/Chain/Locator.antt =====
-- GetLocator and FindFork (main.cpp): the locator of a block, and the block that a chain finds for it.
use native.Mathlib.Nat.{pow-suc}
use mathlib.Core.Option.{some-injective}
use darcoin.Common.{
  ℕ, zero, suc, ◌+◌, ◌-◌, ◌*◌, ◌^◌, map, ◌≤◌, ◌<◌, ◌≡◌, ◌⊎◌, refl, sym, ap, subst, ◌∙◌, true,
  Bool-cases, Option-cases, Option, some, inl, inr, List, [], ◌∷◌, ◌==◌, ltb, ltb→lt, ltb-false→le,
  if◌then◌else◌, length, lookup, All, arith,
}
use darcoin.Chain.{
  BlockIndex, Chain, block_at, contains, genesis, walk_back, jump, push, go_on, while_block,
  locator_loop, get_locator, find_fork,
}
use darcoin.Common.Bits.{pow-pos}
use darcoin.Chain.Tip.{IsTree, IsChain, is_block_lem, contains_lem, block_at-inside}

-- The first block is the second one or stands below it.
pub data IsAncestor (blocks : ℕ → BlockIndex) (q : ℕ) : ℕ → Type 0 where
  self : IsAncestor blocks q q
  parent : (r p : ℕ) → (blocks p).pprev ≡ some r → IsAncestor blocks q r → IsAncestor blocks q p

-- The blocks of a locator, where n of them stand before: p, then the block below it by 1 where n is
-- at most 10, by 2, 4, 8 and so on from there, but not below height 0, and so on down to a block of
-- height 0.
pub data Descent (blocks : ℕ → BlockIndex) : ℕ → ℕ → List ℕ → Type 0 where
  at_genesis : {n p : ℕ} → (blocks p).height ≡ 0 → Descent blocks n p (p ∷ [])
  step_back :
      {n p : ℕ}
      → (q : ℕ) (qs : List ℕ) → 0 < (blocks p).height
      → IsAncestor blocks q p
      → (blocks q).height ≡ (blocks p).height - 2 ^ (n - 10)
      → Descent blocks (n + 1) q qs
      → Descent blocks n p (p ∷ qs)

gap :
    (step n : ℕ)
    → step ≡ 2 ^ (n - 10)
    → (if ltb 10 (n + 1) then step * 2 else step) ≡ 2 ^ (n + 1 - 10)
gap step n e = elim (Bool-cases (ltb 10 (n + 1))) [
  | inl y ↦
      let next : suc (n - 10) ≡ n + 1 - 10 = omega (arith, ltb→lt _ _ y) in
      rw y (ap (λ k. k * 2) e ∙ sym (pow-suc 2 (n - 10)) ∙ ap (λ k. 2 ^ k) next)
  | inr k ↦
      let same : n - 10 ≡ n + 1 - 10 = omega (arith, ltb-false→le _ _ k) in
      rw k (e ∙ ap (λ j. 2 ^ j) same)
]

module _ (blocks : ℕ → BlockIndex) (t : IsTree blocks) where
  IsAncestor-trans :
      (a b c : ℕ) → IsAncestor blocks a b → IsAncestor blocks b c → IsAncestor blocks a c
  IsAncestor-trans a b c x self = x
  IsAncestor-trans a b c x (parent r k e y) = parent r k e (IsAncestor-trans a b r x y)

  -- Every block stands on one of height 0.
  bottom :
      (n p : ℕ) → (blocks p).height ≡ n → (g : ℕ) × ((blocks g).height ≡ 0) × IsAncestor blocks g p
  bottom zero p e = (p, e, self)
  bottom (suc n) p e = elim (Option-cases ((blocks p).pprev)) [
    | inl root ↦ absurd (omega (arith, t.root p root, e))
    | inr (r, up) ↦
        let (g, low, above) = bottom n r (omega (arith, t.parent p r up, e)) in
        (g, low, parent r p up above)
  ]

  -- What the inner loop ends with.
  record IsWalked (c : Chain) (target p : ℕ) (o : Option ℕ) : Type 0 where
    block : ℕ
    found : o ≡ some block
    ancestor : IsAncestor blocks block p
    low : ((blocks block).height ≤ target) ⊎ (contains blocks c block ≡ true)
    above : target ≤ (blocks p).height → target ≤ (blocks block).height

  IsWalked-here :
      (c : Chain) (target p : ℕ)
      → ((blocks p).height ≤ target) ⊎ (contains blocks c p ≡ true)
      → IsWalked c target p (some p)
  IsWalked-here c target p low = record {
    block = p;
    found = refl;
    ancestor = self;
    low = low;
    above = λ l. l;
  }

  walk_back-IsWalked :
      (c : Chain) (target fuel p : ℕ)
      → (blocks p).height < fuel
      → IsWalked c target p (walk_back blocks c target fuel p)
  unfolding walk_back
  walk_back-IsWalked c target zero p l = absurd (omega (arith, l))
  walk_back-IsWalked c target (suc fuel) p l = elim (Bool-cases (ltb target ((blocks p).height))) [
    | inr low ↦ rw low (IsWalked-here c target p (inl (ltb-false→le _ _ low)))
    | inl high ↦ elim (Bool-cases (contains blocks c p)) [
      | inl inside ↦ rw (high, inside) (IsWalked-here c target p (inr inside))
      | inr outside ↦ elim (Option-cases ((blocks p).pprev)) [
        | inl root ↦ absurd (omega (arith, t.root p root, ltb→lt _ _ high))
        | inr (r, up) ↦
            let step : (blocks p).height ≡ suc ((blocks r).height) = t.parent p r up in
            let over : target < (blocks p).height = ltb→lt _ _ high in
            let w = walk_back-IsWalked c target fuel r (omega (arith, l, step)) in
            rw (high, outside, up)
              (record {
                block = w.block;
                found = w.found;
                ancestor = parent r p up w.ancestor;
                low = w.low;
                above = λ k. w.above (omega (arith, over, step));
              })
      ]
    ]
  ]

  -- The blocks of a chain are ancestors of those above them.
  chain-IsAncestor :
      (c : Chain) (k d p : ℕ)
      → IsChain blocks c
      → k + d < length c
      → block_at c (k + d) ≡ some p
      → (q : ℕ) × (block_at c k ≡ some q) × ((blocks q).height ≡ k) × IsAncestor blocks q p
  chain-IsAncestor c k zero p v l e =
      let (q, at, height, up) = v k (omega (arith, l)) in
      let same : q ≡ p = some-injective _ _ (sym at ∙ ap (block_at c) (omega arith) ∙ e) in
      (q, at, height, subst (IsAncestor blocks q) same self)
  chain-IsAncestor c k (suc d) p v l e =
      let here : k + suc d ≡ suc (k + d) = omega arith in
      let (q, at, height, up) = v (suc (k + d)) (omega (arith, l)) in
      let same : q ≡ p = some-injective _ _ (sym at ∙ ap (block_at c) (sym here) ∙ e) in
      let (r, at_r, height_r, up_r) = v (k + d) (omega (arith, l)) in
      let (a, at_a, height_a, anc) = chain-IsAncestor c k d r v (omega (arith, l)) at_r in
      let prev : (blocks p).pprev ≡ some r = ap (λ j. (blocks j).pprev) (sym same) ∙ up ∙ at_r in
      (a, at_a, height_a, parent r p prev anc)

  jump_lem :
      (c : Chain) (target q : ℕ)
      → IsChain blocks c
      → ((blocks q).height ≤ target) ⊎ (contains blocks c q ≡ true)
      → target ≤ (blocks q).height
      → (r : ℕ) × (jump blocks c target q ≡ some r)
        × IsAncestor blocks r q
        × ((blocks r).height ≡ target)
  jump_lem c target q v w k = elim (Bool-cases (ltb target ((blocks q).height))) [
    | inr low ↦ rw low (q, refl, self, omega (arith, k, ltb-false→le _ _ low))
    | inl high ↦ elim w [
      | inl low ↦ absurd (omega (arith, low, ltb→lt _ _ high))
      | inr inside ↦
          let at : block_at c ((blocks q).height) ≡ some q = is_block_lem blocks _ q inside in
          let over : target < (blocks q).height = ltb→lt _ _ high in
          let split : target + ((blocks q).height - target) ≡ (blocks q).height =
            omega (arith, over) in
          let (r, at_r, height, above) =
            chain-IsAncestor c target ((blocks q).height - target) q v
              (omega (arith, split, block_at-inside blocks c _ q at))
              (ap (block_at c) split ∙ at) in
          rw high (r, at_r, above, height)
    ]
  ]

  module _ (hash : ℕ → ℕ) where
    -- The hash of a block that the block is or stands on.
    abbrev pub IsFrom : ℕ → ℕ → Type 0
    IsFrom p x = (q : ℕ) × IsAncestor blocks q p × (x ≡ hash q)

    IsFrom-below :
        (r p : ℕ) → IsAncestor blocks r p → (xs : List ℕ) → All (IsFrom r) xs → All (IsFrom p) xs
    IsFrom-below r p a [] h = tt
    IsFrom-below r p a (x ∷ xs) ((q, b, e), h) =
        ((q, IsAncestor-trans q r p b a, e), IsFrom-below r p a xs h)

    IsFrom-Descent : (n p : ℕ) (qs : List ℕ) → Descent blocks n p qs → All (IsFrom p) (map hash qs)
    IsFrom-Descent n p qs (at_genesis e) = ((p, self, refl), tt)
    IsFrom-Descent n p qs (step_back q rest h a l d) =
        ((p, self, refl), IsFrom-below q p a (map hash rest) (IsFrom-Descent (n + 1) q rest d))

    abbrev IsLocator : ℕ → ℕ → Option (List ℕ) → Type 0
    IsLocator n p o = (qs : List ℕ) × (o ≡ some (map hash qs)) × Descent blocks n p qs

    locator_loop-IsLocator :
        (c : Chain) (fuel p step count : ℕ)
        → IsChain blocks c
        → (blocks p).height < fuel
        → step ≡ 2 ^ (count - 10)
        → IsLocator count p (locator_loop blocks hash c fuel p step count)
    unfolding locator_loop
    locator_loop-IsLocator c zero p step count v l s = absurd (omega (arith, l))
    locator_loop-IsLocator c (suc fuel) p step count v l s =
        elim (Bool-cases ((blocks p).height == 0)) [
          | inl root ↦ rw root (p ∷ [], refl, at_genesis (ground (arith, root)))
          | inr over ↦
              let target : ℕ = (blocks p).height - step in
              let step' : ℕ = if ltb 10 (count + 1) then step * 2 else step in
              let w = walk_back-IsWalked c target ((blocks p).height + 1) p (omega arith) in
              let (r, there, below_w, low) =
                jump_lem c target w.block v w.low (w.above (omega arith)) in
              let high : 0 < (blocks p).height = ground (arith, over) in
              let positive : 1 ≤ step = subst (λ k. 1 ≤ k) (sym s) (pow-pos (count - 10)) in
              let (qs, e, d) =
                locator_loop-IsLocator c fuel r step' (count + 1) v
                  (omega (arith, low, high, positive, l)) (gap step count s) in
              let above : IsAncestor blocks r p = IsAncestor-trans r w.block p below_w w.ancestor in
              let whole : go_on (walk_back blocks c target ((blocks p).height + 1) p) (λ q.
                while_block (jump blocks c target q)
                  (λ u. locator_loop blocks hash c fuel u step' (count + 1)))
                  ≡ some (map hash qs) =
                ap
                  (λ o. go_on o (λ q.
                    while_block (jump blocks c target q)
                      (λ u. locator_loop blocks hash c fuel u step' (count + 1))))
                  w.found
                ∙ ap (λ o. while_block o (λ u. locator_loop blocks hash c fuel u step' (count + 1)))
                    there
                ∙ e in
              rw over (
                p ∷ qs,
                ap (push (hash p)) whole,
                step_back r qs high above (low ∙ ap (λ k. (blocks p).height - k) s) d,
              )
        ]

    -- What mapBlockIndex has for a hash is the block with this hash, and it has the blocks of the
    -- chain.
    pub record IsIndex (index : List (ℕ × ℕ)) (c : Chain) : Type 0 where
      pub right : (q r : ℕ) → lookup (hash q) index ≡ some r → r ≡ q
      pub has_chain : (q : ℕ) → contains blocks c q ≡ true → lookup (hash q) index ≡ some q

    -- A block of the chain that the block is or stands on.
    abbrev pub IsFork : Chain → ℕ → Option ℕ → Type 0
    IsFork c p o = (q : ℕ) × (o ≡ some q) × (contains blocks c q ≡ true) × IsAncestor blocks q p

    find_fork-IsFork :
        (index : List (ℕ × ℕ)) (c : Chain) (p : ℕ) (have : List ℕ)
        → IsIndex index c
        → IsFork c p (genesis c)
        → All (IsFrom p) have
        → IsFork c p (find_fork blocks index c have)
    unfolding find_fork
    find_fork-IsFork index c p [] i g h = g
    find_fork-IsFork index c p (x ∷ have) i g ((q, a, e), h) =
        let rest = find_fork-IsFork index c p have i g h in
        elim (Option-cases (lookup x index)) [
          | inl unknown ↦ rw unknown rest
          | inr (r, known) ↦ elim (Bool-cases (contains blocks c r)) [
            | inl inside ↦
                let same : r ≡ q = i.right q r (ap (λ y. lookup y index) (sym e) ∙ known) in
                rw (known, inside)
                  (r, refl, inside, subst (λ u. IsAncestor blocks u p) (sym same) a)
            | inr outside ↦ rw (known, outside) rest
          ]
        ]

    found_first :
        (index : List (ℕ × ℕ)) (c : Chain) (p : ℕ) (qs : List ℕ) (n : ℕ)
        → IsIndex index c
        → Descent blocks n p qs
        → contains blocks c p ≡ true
        → find_fork blocks index c (map hash qs) ≡ some p
    unfolding find_fork
    found_first index c p qs n i (at_genesis e) inside = rw (i.has_chain p inside, inside) refl
    found_first index c p qs n i (step_back q rest h a l d) inside =
        rw (i.has_chain p inside, inside) refl

    -- GetLocator on a chain of blocks that are linked, for any block of the tree, ends without
    -- following a pprev that is NULL. It gives the hashes of this block and of blocks that it stands
    -- on, down to one of height 0: each is below the one before it, by 1 where at most ten stand
    -- before that one, by 2 where eleven do, and by twice as much for each one more, but not below
    -- height 0. Where the other chain is linked too and has a genesis block, which is the only block
    -- of height 0, and the index maps the hash of a block to nothing else and has the blocks of this
    -- chain, FindFork on it gives for these hashes a block of the other chain that the block is or
    -- stands on, and the block itself where the other chain contains it.
    pub find_fork-get_locator :
        (c c' : Chain) (index : List (ℕ × ℕ)) (p : ℕ)
        → IsChain blocks c
        → IsChain blocks c'
        → 0 < length c'
        → ((a b : ℕ) → (blocks a).height ≡ 0 → (blocks b).height ≡ 0 → a ≡ b)
        → IsIndex index c'
        → (qs : List ℕ) × (get_locator blocks hash c (some p) ≡ some (map hash qs))
          × Descent blocks 0 p qs
          × IsFork c' p (find_fork blocks index c' (map hash qs))
          × (contains blocks c' p ≡ true → find_fork blocks index c' (map hash qs) ≡ some p)
    unfolding get_locator
    find_fork-get_locator c c' index p v v' l one i =
        let (qs, e, d) =
          locator_loop-IsLocator c ((blocks p).height + 1) p 1 0 v (omega arith) refl in
        let (g, at, height, prev) = v' 0 l in
        let (b, low, above) = bottom ((blocks p).height) p refl in
        let same : b ≡ g = one b g low height in
        let first : contains blocks c' g ≡ true =
          contains_lem blocks c' g (ap (block_at c') height ∙ at) in
        (
          qs,
          e,
          d,
          find_fork-IsFork index c' p (map hash qs) i
              (g, at, first, subst (λ u. IsAncestor blocks u p) same above)
              (IsFrom-Descent 0 p qs d),
          λ inside. found_first index c' p qs 0 i d inside,
        )
