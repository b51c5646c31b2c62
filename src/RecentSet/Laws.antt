-- ===== src/RecentSet/Laws.antt =====
-- The set and the queue hold the same elements, each once, and no more than the limit.
use darcoin.Common.{
  ℕ, suc, ◌≤◌, ◌≡◌, ◌≢◌, refl, sym, ◌∙◌, ◌⊎◌, inl, inr, Bool, Bool-cases, false, not, ◌&&◌, ◌||◌,
  List, [], ◌∷◌, ◌++◌, ltb, ◌==◌, length, length-append, arith,
}
use darcoin.RecentSet.{
  RecentSet, recent_set, member, remove, pop_oldest, is_full, insert_new, insert, clear, shrink,
  set_max_size,
}

-- No element stands twice.
abbrev pub IsUnique : List ℕ → Type 0
IsUnique [] = Unit {0}
IsUnique (x ∷ r) = (member x r ≡ false) × IsUnique r

-- The class invariant.
pub record IsValid (s : RecentSet) : Type 0 where
  pub same : (x : ℕ) → member x s.elements ≡ member x s.queue
  pub unique : IsUnique s.queue
  pub bounded : (s.n_max_size ≡ 0) ⊎ (length s.queue ≤ s.n_max_size)

member-append : (x : ℕ) (xs ys : List ℕ) → member x (xs ++ ys) ≡ (member x xs || member x ys)
unfolding member
member-append x [] ys = refl
member-append x (y ∷ r) ys = ground (arith, member-append x r ys)

pub member-remove : (x y : ℕ) (xs : List ℕ) → member x (remove y xs) ≡ (member x xs && not (x == y))
unfolding member remove
member-remove x y [] = refl
member-remove x y (z ∷ r) = ground (arith, member-remove x y r)

IsUnique-append :
    (x : ℕ) (xs : List ℕ) → IsUnique xs → member x xs ≡ false → IsUnique (xs ++ x ∷ [])
unfolding member
IsUnique-append x [] u m = (refl, tt)
IsUnique-append x (y ∷ r) u m = (
  ground (arith, member-append y r (x ∷ []), u.0, m),
  IsUnique-append x r u.1 (ground (arith, m)),
)

-- The three parts, for a set and a queue.
abbrev Same : List ℕ → List ℕ → Type 0
Same elements queue = (x : ℕ) → member x elements ≡ member x queue

Same-remove :
    (elements queue : List ℕ) (x : ℕ)
    → Same elements (x ∷ queue)
    → member x queue ≡ false
    → Same (remove x elements) queue
unfolding member
Same-remove elements queue x h u y = elim (Bool-cases (x == y)) [
  | inl same ↦ ground (arith, member-remove y x elements, h y, u)
  | inr other ↦ ground (arith, member-remove y x elements, h y)
]

push-IsValid :
    (x limit : ℕ) (elements queue : List ℕ)
    → Same elements (queue ++ x ∷ [])
    → IsUnique queue
    → member x queue ≡ false
    → (limit ≡ 0) ⊎ (suc (length queue) ≤ limit)
    → IsValid (record { elements = elements; queue = queue ++ x ∷ []; n_max_size = limit })
push-IsValid x limit elements queue h u m b = record {
  same = h;
  unique = IsUnique-append x queue u m;
  bounded = ground (arith, length-append queue (x ∷ []), b);
}

Same-push :
    (x : ℕ) (elements queue : List ℕ) → Same elements queue → Same (x ∷ elements) (queue ++ x ∷ [])
unfolding member
Same-push x elements queue h y = ground (arith, member-append y queue (x ∷ []), h y)

pop-IsValid :
    (x limit : ℕ) (elements queue : List ℕ)
    → Same elements queue
    → IsUnique queue
    → member x queue ≡ false
    → length queue ≡ limit
    → limit ≢ 0
    → IsValid (record {
      elements = (pop_oldest (x ∷ elements) queue).0;
      queue = (pop_oldest (x ∷ elements) queue).1 ++ x ∷ [];
      n_max_size = limit;
    })
unfolding member
pop-IsValid x limit elements [] h u m l z = absurd (z (sym l))
pop-IsValid x limit elements (o ∷ queue) h u m l z =
    let fresh : member x queue ≡ false = ground (arith, m) in
    let away : member o (queue ++ x ∷ []) ≡ false =
      ground (arith, member-append o queue (x ∷ []), u.0, m) in
    push-IsValid x limit (remove o (x ∷ elements)) queue
      (Same-remove (x ∷ elements) (queue ++ x ∷ []) o (Same-push x elements (o ∷ queue) h) away) u.1
      fresh (inr (omega (arith, l)))

insert-IsValid : (x : ℕ) (s : RecentSet) → IsValid s → IsValid (insert x s).1
unfolding insert insert_new
insert-IsValid x s v = elim (Bool-cases (member x s.elements)) [
  | inl old ↦ rw old v
  | inr new ↦
      let fresh : member x s.queue ≡ false = sym (v.same x) ∙ new in
      rw new (elim (Bool-cases (is_full s)) [
        | inl full ↦ rw full (
            pop-IsValid x s.n_max_size s.elements s.queue v.same v.unique fresh
              (ground (arith, full)) (ground (arith, full)))
        | inr room ↦ rw room (
            push-IsValid x s.n_max_size (x ∷ s.elements) s.queue
              (Same-push x s.elements s.queue v.same) v.unique fresh
              (ground (arith, room, v.bounded)))
      ])
]

record Shrunk (limit : ℕ) (r : List ℕ × List ℕ) : Type 0 where
  same : Same r.0 r.1
  unique : IsUnique r.1
  bounded : length r.1 ≤ limit

shrink-Shrunk :
    (limit : ℕ) (elements queue : List ℕ)
    → Same elements queue
    → IsUnique queue
    → Shrunk limit (shrink limit elements queue)
unfolding shrink
shrink-Shrunk limit elements [] h u = record { same = h; unique = u; bounded = omega arith }
shrink-Shrunk limit elements (x ∷ queue) h u = elim (Bool-cases (ltb limit (length (x ∷ queue)))) [
  | inl long ↦
      rw long
        (shrink-Shrunk limit (remove x elements) queue (Same-remove elements queue x h u.0) u.1)
  | inr fits ↦ rw fits (record { same = h; unique = u; bounded = ground (arith, fits) })
]

set_max_size-IsValid : (limit : ℕ) (s : RecentSet) → IsValid s → IsValid (set_max_size limit s)
unfolding set_max_size
set_max_size-IsValid limit s v = elim (Bool-cases (limit == 0)) [
  | inl z ↦ rw z (record { same = v.same; unique = v.unique; bounded = inl (ground (arith, z)) })
  | inr n ↦
      let k : Shrunk limit (shrink limit s.elements s.queue) =
        shrink-Shrunk limit s.elements s.queue v.same v.unique in
      rw n (record { same = k.same; unique = k.unique; bounded = inr k.bounded })
]

-- A new set is valid, and every operation keeps it so: the set and the queue have the same elements,
-- each once, and no more than the limit where there is one.
pub operations-IsValid :
    (s : RecentSet) (x limit : ℕ)
    → IsValid s
    → IsValid (recent_set limit)
      × IsValid (insert x s).1
      × IsValid (clear s)
      × IsValid (set_max_size limit s)
unfolding member
operations-IsValid s x limit v = (
  record { same = λ y. refl; unique = tt; bounded = inr (omega arith) },
  insert-IsValid x s v,
  record { same = λ y. refl; unique = tt; bounded = inr (omega arith) },
  set_max_size-IsValid limit s v,
)

abbrev pub is_head : ℕ → List ℕ → Bool
is_head y [] = false
is_head y (o ∷ r) = o == y

pop_member :
    (x y : ℕ) (elements queue : List ℕ)
    → Same elements queue
    → member x queue ≡ false
    → member y (pop_oldest (x ∷ elements) queue).0
      ≡ (x == y || (member y elements && not (is_head y queue)))
unfolding member
pop_member x y elements [] h m = ground arith
pop_member x y elements (o ∷ queue) h m = ground (arith, member-remove y o (x ∷ elements), m)

-- A valid set has, after an insert, the new element and those that it had, but for the oldest one
-- where it was full and the element was not yet in it.
pub member-insert :
    (s : RecentSet) (x y : ℕ)
    → IsValid s
    → member y (insert x s).1.elements ≡ (
        x == y
        || (member y s.elements
            && not (not (member x s.elements) && (is_full s && is_head y s.queue))))
unfolding insert insert_new
member-insert s x y v = elim (Bool-cases (member x s.elements)) [
  | inl old ↦ rw old (ground (arith, old))
  | inr new ↦ rw new (elim (Bool-cases (is_full s)) [
    | inl full ↦ rw full (pop_member x y s.elements s.queue v.same (sym (v.same x) ∙ new))
    | inr room ↦ rw room (unfold member in ground arith)
  ])
]
