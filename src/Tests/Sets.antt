-- ===== src/Tests/Sets.antt =====
-- The set of the most recent elements, with room for two, and a map with a limit.
use darcoin.Common.{ℕ, ◌≡◌, refl, some, lookup, length, inr, [], ◌∷◌, arith}
use darcoin.RecentSet.{RecentSet, recent_set, member, insert, clear, set_max_size}
use darcoin.LimitedMap.{LimitedMap, has, insert_pair, erase_key, update_key}
use darcoin.LimitedMap.Laws.{IsPaired, Keeps, operations-IsPaired, insert_pair-grows}
use darcoin.RecentSet.Laws.{IsValid, operations-IsValid}

abbrev recent : RecentSet
recent = record { elements = 4 ∷ 3 ∷ []; queue = 3 ∷ 4 ∷ []; n_max_size = 2 }

recent-IsValid : IsValid recent
unfolding member
recent-IsValid = record {
  same = λ x. ground arith;
  unique = ground arith;
  bounded = inr (omega arith);
}

operations-IsValid_example :
    IsValid (recent_set 1)
    × IsValid (insert 5 recent).1
    × IsValid (clear recent)
    × IsValid (set_max_size 1 recent)
operations-IsValid_example = operations-IsValid recent 5 1 recent-IsValid

abbrev limited : LimitedMap
limited = record { entries = (4, 9) ∷ (7, 3) ∷ []; rmap = (3, 7) ∷ (9, 4) ∷ []; n_max_size = 3 }

limited-IsPaired : IsPaired limited
unfolding lookup has
limited-IsPaired = record {
  there = λ k v l. ground (arith, l);
  back = λ k v h. ground (arith, h);
  once = ((λ v. ground arith), ((λ v. ground arith), tt));
}

operations-IsPaired_example :
    Keeps (insert_pair 5 6 limited) × Keeps (erase_key 5 limited) × Keeps (update_key 5 6 limited)
operations-IsPaired_example =
    operations-IsPaired limited 5 6 limited-IsPaired (λ e. omega (arith, e))

insert_pair-grows_example :
    (s : LimitedMap) × (insert_pair 5 6 (record limited { n_max_size = 2 }) ≡ some s)
    × (length s.entries ≡ 3)
    × ((j w : ℕ) → lookup j limited.entries ≡ some w → lookup j s.entries ≡ some w)
unfolding lookup
insert_pair-grows_example =
    insert_pair-grows (record limited { n_max_size = 2 }) 5 6 (omega arith) refl
