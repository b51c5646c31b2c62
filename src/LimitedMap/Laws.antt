-- ===== src/LimitedMap/Laws.antt =====
-- The two maps of limitedmap (limitedmap.h) belong together, and an insert that evicts nothing.
use darcoin.Common.{
  ℕ, ◌+◌, ◌≤◌, ◌≡◌, ◌≢◌, inl, inr, refl, sym, ap, ◌∙◌, subst, true, false, not, ◌&&◌, ◌||◌,
  Bool-cases, Option-cases, Option, none, some, List, [], ◌∷◌, ltb, ◌==◌, ==_self, if◌then◌else◌,
  lookup, insert, erase, lookup-insert, lookup-erase, length, arith,
}
use darcoin.LimitedMap.{
  LimitedMap, put, has, drop_pair, evict_first, then_put, insert_absent, insert_at, insert_pair,
  erase_at, erase_key, update_at, update_key,
}

has-put : (v k w j : ℕ) (m : List (ℕ × ℕ)) → has v k (put w j m) ≡ ((w == v && j == k) || has v k m)
unfolding has put
has-put v k w j [] = refl
has-put v k w j ((x, i) ∷ m) = ground (arith, has-put v k w j m)

-- No key stands more than once.
abbrev pub IsOnce : List (ℕ × ℕ) → Type 0
IsOnce [] = Unit {0}
IsOnce (e ∷ m) = ((v : ℕ) → has v e.1 m ≡ false) × IsOnce m

put-IsOnce :
    (w j : ℕ) (m : List (ℕ × ℕ)) → IsOnce m → ((v : ℕ) → has v j m ≡ false) → IsOnce (put w j m)
unfolding has put
put-IsOnce w j [] o n = ((λ v. refl), tt)
put-IsOnce w j ((x, i) ∷ m) o n = elim (Bool-cases (ltb w x)) [
  | inl low ↦ rw low (n, o)
  | inr high ↦ rw high (
    (λ v. has-put v i w j m ∙ ground (arith, n x, o.0 v)),
    put-IsOnce w j m o.1 (λ v. ground (arith, n v)),
  )
]

has-drop_pair :
    (v k w j : ℕ) (m : List (ℕ × ℕ))
    → IsOnce m
    → has v k m ≡ true
    → has w j (drop_pair v k m) ≡ (has w j m && not (j == k))
unfolding has drop_pair
has-drop_pair v k w j [] o h = absurd (ground (arith, h))
has-drop_pair v k w j ((x, i) ∷ m) o h = elim (Bool-cases (x == v && i == k)) [
  | inl here ↦
      let at : i ≡ k = ground (arith, here) in
      let clear : has w k m ≡ false = subst (λ u. has w u m ≡ false) at (o.0 w) in
      rw (here, at)
        (elim (Bool-cases (j == k)) [
          | inl same ↦
              let e : j ≡ k = ground (arith, same) in rw e (ground (arith, clear, ==_self k))
          | inr other ↦ ground (arith, other)
        ])
  | inr there ↦
      let rest : has v k m ≡ true = rw there at h in
      rw there (elim (Bool-cases (i == k)) [
        | inl same ↦
            let e : i ≡ k = ground (arith, same) in
            absurd (cc (sym (subst (λ u. has v u m ≡ false) e (o.0 v)) ∙ rest))
        | inr other ↦ ground (arith, other, has-drop_pair v k w j m o.1 rest)
      ])
]

drop_pair-IsOnce :
    (v k : ℕ) (m : List (ℕ × ℕ)) → IsOnce m → has v k m ≡ true → IsOnce (drop_pair v k m)
unfolding has drop_pair
drop_pair-IsOnce v k [] o h = tt
drop_pair-IsOnce v k ((x, i) ∷ m) o h = elim (Bool-cases (x == v && i == k)) [
  | inl here ↦ rw here o.1
  | inr there ↦
      let rest : has v k m ≡ true = rw there at h in
      rw there (
        (λ w. has-drop_pair v k w i m o.1 rest ∙ ground (arith, o.0 w)),
        drop_pair-IsOnce v k m o.1 rest,
      )
]

-- The maps have the same pairs, each key once.
pub record IsPaired (s : LimitedMap) : Type 0 where
  pub there : (k v : ℕ) → lookup k s.entries ≡ some v → has v k s.rmap ≡ true
  pub back : (k v : ℕ) → has v k s.rmap ≡ true → lookup k s.entries ≡ some v
  pub once : IsOnce s.rmap

absent :
    (s : LimitedMap) (k : ℕ)
    → IsPaired s
    → lookup k s.entries ≡ none
    → (v : ℕ) → has v k s.rmap ≡ false
absent s k p e v = elim (Bool-cases (has v k s.rmap)) [
  | inr n ↦ n
  | inl y ↦ absurd (cc (sym e ∙ p.back k v y))
]

-- A new pair in both maps.
put_new-IsPaired :
    (s : LimitedMap) (k v : ℕ)
    → IsPaired s
    → lookup k s.entries ≡ none
    → IsPaired (record s { entries = insert k v s.entries; rmap = put v k s.rmap })
put_new-IsPaired s k v p e = record {
  there = λ j w l.
      let cut : (if k == j then some v else lookup j s.entries) ≡ some w =
        sym (lookup-insert k j v s.entries) ∙ l in
      has-put w j v k s.rmap ∙ ground (arith, cut, p.there j w);
  back = λ j w h.
      lookup-insert k j v s.entries
      ∙ ground (arith, sym (has-put w j v k s.rmap) ∙ h, p.back j w, absent s k p e w);
  once = put-IsOnce v k s.rmap p.once (absent s k p e);
}

-- A pair goes from both maps.
drop-IsPaired :
    (s : LimitedMap) (k v : ℕ)
    → IsPaired s
    → has v k s.rmap ≡ true
    → IsPaired (record s { entries = erase k s.entries; rmap = drop_pair v k s.rmap })
drop-IsPaired s k v p h = record {
  there = λ j w l.
      let cut : (if k == j then none else lookup j s.entries) ≡ some w =
        sym (lookup-erase k j s.entries) ∙ l in
      has-drop_pair v k w j s.rmap p.once h ∙ ground (arith, cut, p.there j w);
  back = λ j w g.
      let cut : (has w j s.rmap && not (j == k)) ≡ true =
        sym (has-drop_pair v k w j s.rmap p.once h) ∙ g in
      lookup-erase k j s.entries ∙ ground (arith, cut, p.back j w);
  once = drop_pair-IsOnce v k s.rmap p.once h;
}

-- Only what lookup finds counts.
same-IsPaired :
    (s : LimitedMap) (es : List (ℕ × ℕ))
    → ((i : ℕ) → lookup i es ≡ lookup i s.entries)
    → IsPaired s
    → IsPaired (record s { entries = es })
same-IsPaired s es same p = record {
  there = λ k v l. p.there k v (sym (same k) ∙ l);
  back = λ k v h. same k ∙ p.back k v h;
  once = p.once;
}

length-insert :
    (k v : ℕ) (m : List (ℕ × ℕ)) → lookup k m ≡ none → length (insert k v m) ≡ length m + 1
unfolding lookup insert
length-insert k v [] e = refl
length-insert k v ((j, w) ∷ m) e = ground (arith, e, length-insert k v m)

has-first : (w j : ℕ) (r : List (ℕ × ℕ)) → has w j ((w, j) ∷ r) ≡ true
unfolding has
has-first w j r = rw (==_self w, ==_self j) refl

drop_pair-first : (w j : ℕ) (r : List (ℕ × ℕ)) → drop_pair w j ((w, j) ∷ r) ≡ r
unfolding drop_pair
drop_pair-first w j r = rw (==_self w, ==_self j) refl

swap :
    (es : List (ℕ × ℕ)) (k v j i : ℕ)
    → (j == k) ≡ false
    → lookup i (erase j (insert k v es)) ≡ lookup i (insert k v (erase j es))
swap es k v j i n =
    rw
      (
        lookup-erase j i (insert k v es),
        lookup-insert k i v es,
        lookup-insert k i v (erase j es),
        lookup-erase j i es,
      )
      (ground (arith, n))

over :
    (es : List (ℕ × ℕ)) (k v i : ℕ) → lookup i (insert k v es) ≡ lookup i (insert k v (erase k es))
over es k v i =
    rw (lookup-insert k i v es, lookup-insert k i v (erase k es), lookup-erase k i es)
      (ground arith)

-- An insert that evicts the lowest value.
evict_lowest-IsPaired :
    (s : LimitedMap) (k v j w : ℕ) (r : List (ℕ × ℕ))
    → IsPaired s
    → lookup k s.entries ≡ none
    → s.rmap ≡ (w, j) ∷ r
    → IsPaired (record s { entries = erase j (insert k v s.entries); rmap = put v k r })
evict_lowest-IsPaired s k v j w r p e at =
    let es : List (ℕ × ℕ) = s.entries in
    let head : has w j s.rmap ≡ true = subst (λ m. has w j m ≡ true) (sym at) (has-first w j r) in
    let dropped : drop_pair w j s.rmap ≡ r = ap (drop_pair w j) at ∙ drop_pair-first w j r in
    let shorter : IsPaired (record s { entries = erase j es; rmap = r }) =
      subst (λ m. IsPaired (record s { entries = erase j es; rmap = m })) dropped
        (drop-IsPaired s j w p head) in
    let gone : lookup k (erase j es) ≡ none = lookup-erase j k es ∙ ground (arith, e) in
    let old : lookup j es ≡ some w = p.back j w head in
    let other : (j == k) ≡ false = elim (Bool-cases (j == k)) [
      | inr n ↦ n
      | inl y ↦
          let u : j ≡ k = ground (arith, y) in absurd (cc (sym old ∙ ap (λ i. lookup i es) u ∙ e))
    ] in
    same-IsPaired (record s { entries = insert k v (erase j es); rmap = put v k r })
      (erase j (insert k v es)) (λ i. swap es k v j i other)
      (put_new-IsPaired (record s { entries = erase j es; rmap = r }) k v shorter gone)

-- The maps of an operation that does not fail belong together.
abbrev pub Keeps : Option LimitedMap → Type 0
Keeps o = (s' : LimitedMap) × (o ≡ some s') × IsPaired s'

rmap_empty : (s : LimitedMap) → IsPaired s → s.rmap ≡ [] → length s.entries ≡ 0
unfolding has lookup
rmap_empty s p e =
    no_entries s.entries (λ k v l. ground (arith, sym (p.there k v l) ∙ ap (has v k) e))
  where
    no_entries : (es : List (ℕ × ℕ)) → ((k v : ℕ) → lookup k es ≡ some v → ⊥) → length es ≡ 0
    no_entries [] n = refl
    no_entries ((k, v) ∷ es) n = absurd (n k v (rw (==_self k) refl))

evict_first-Keeps :
    (s : LimitedMap) (k v : ℕ)
    → IsPaired s
    → s.n_max_size ≢ 1
    → lookup k s.entries ≡ none
    → length (insert k v s.entries) ≡ s.n_max_size
    → (m : List (ℕ × ℕ)) → s.rmap ≡ m
    → Keeps (then_put k v (evict_first m (record s { entries = insert k v s.entries })))
evict_first-Keeps s k v p one e size [] at =
    absurd (one (omega (arith, size, length-insert k v s.entries e, rmap_empty s p at)))
evict_first-Keeps s k v p one e size ((w, j) ∷ r) at = (
  record s { entries = erase j (insert k v s.entries); rmap = put v k r },
  refl,
  evict_lowest-IsPaired s k v j w r p e at,
)

insert_absent-Keeps :
    (s : LimitedMap) (k v : ℕ)
    → IsPaired s
    → s.n_max_size ≢ 1
    → lookup k s.entries ≡ none
    → Keeps (insert_absent k v s)
insert_absent-Keeps s k v p one e =
    elim (Bool-cases (not (s.n_max_size == 0) && length (insert k v s.entries) == s.n_max_size)) [
      | inr room ↦ (
        record s { entries = insert k v s.entries; rmap = put v k s.rmap },
        rw room refl,
        put_new-IsPaired s k v p e,
      )
      | inl full ↦
          let size : length (insert k v s.entries) ≡ s.n_max_size = ground (arith, full) in
          let (s', evicted, paired) = evict_first-Keeps s k v p one e size s.rmap refl in
          (s', rw full evicted, paired)
    ]

erase_key-Keeps : (s : LimitedMap) (k : ℕ) → IsPaired s → Keeps (erase_key k s)
erase_key-Keeps s k p = elim (Option-cases (lookup k s.entries)) [
  | inl none_there ↦ (s, ap (λ o. erase_at o k s) none_there, p)
  | inr (v, at) ↦
      let found : has v k s.rmap ≡ true = p.there k v at in
      (
        record s { entries = erase k s.entries; rmap = drop_pair v k s.rmap },
        ap (λ o. erase_at o k s) at ∙ rw found refl,
        drop-IsPaired s k v p found,
      )
]

update_key-Keeps : (s : LimitedMap) (k v : ℕ) → IsPaired s → Keeps (update_key k v s)
update_key-Keeps s k v p = elim (Option-cases (lookup k s.entries)) [
  | inl none_there ↦ (s, ap (λ o. update_at o k v s) none_there, p)
  | inr (w, at) ↦
      let found : has w k s.rmap ≡ true = p.there k w at in
      let gone : lookup k (erase k s.entries) ≡ none =
        lookup-erase k k s.entries ∙ rw (==_self k) refl in
      (
        record s { entries = insert k v s.entries; rmap = put v k (drop_pair w k s.rmap) },
        ap (λ o. update_at o k v s) at ∙ rw found refl,
        same-IsPaired
            (record s {
              entries = insert k v (erase k s.entries);
              rmap = put v k (drop_pair w k s.rmap);
            })
            (insert k v s.entries) (λ i. over s.entries k v i)
            (put_new-IsPaired
              (record s { entries = erase k s.entries; rmap = drop_pair w k s.rmap }) k v
              (drop-IsPaired s k w p found) gone),
      )
]

-- The two maps of a limitedmap have the same pairs, each key once, and insert, erase and update
-- neither fail nor change that, if the limit is not 1.
pub operations-IsPaired :
    (s : LimitedMap) (k v : ℕ)
    → IsPaired s
    → s.n_max_size ≢ 1
    → Keeps (insert_pair k v s) × Keeps (erase_key k s) × Keeps (update_key k v s)
operations-IsPaired s k v p one = (
  (elim (Option-cases (lookup k s.entries)) [
    | inr (w, at) ↦ (s, ap (λ o. insert_at o k v s) at, p)
    | inl new ↦
        let (s', e, paired) = insert_absent-Keeps s k v p one new in
        (s', ap (λ o. insert_at o k v s) new ∙ e, paired)
  ]),
  erase_key-Keeps s k p,
  update_key-Keeps s k v p,
)

kept :
    (k j v w : ℕ) (es : List (ℕ × ℕ))
    → lookup k es ≡ none
    → lookup j es ≡ some w
    → (if k == j then some v else lookup j es) ≡ some w
kept k j v w es e at = elim (Bool-cases (k == j)) [
  | inr n ↦ rw n at
  | inl y ↦ let u : k ≡ j = ground (arith, y) in absurd (cc (sym e ∙ ap (λ i. lookup i es) u ∙ at))
]

-- Where a limitedmap already has its limit of entries or more, insert of a new key evicts none.
pub insert_pair-grows :
    (s : LimitedMap) (k v : ℕ)
    → s.n_max_size ≤ length s.entries
    → lookup k s.entries ≡ none
    → (s' : LimitedMap) × (insert_pair k v s ≡ some s')
      × (length s'.entries ≡ length s.entries + 1)
      × ((j w : ℕ) → lookup j s.entries ≡ some w → lookup j s'.entries ≡ some w)
insert_pair-grows s k v l e =
    let size : length (insert k v s.entries) ≡ length s.entries + 1 =
      length-insert k v s.entries e in
    let past : (not (s.n_max_size == 0) && length (insert k v s.entries) == s.n_max_size) ≡ false =
      ground (arith, size, l) in
    (
      record s { entries = insert k v s.entries; rmap = put v k s.rmap },
      ap (λ o. insert_at o k v s) e ∙ rw past refl,
      size,
      λ j w at. lookup-insert k j v s.entries ∙ kept k j v w s.entries e at,
    )
