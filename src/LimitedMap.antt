-- ===== src/LimitedMap.antt =====
-- limitedmap of limitedmap.h, a map with a limit, whose insert can evict an entry of the lowest
-- value. Keys and values are numbers, and an iterator of the map is the key that it stands at.
-- `none` is a failed assertion, or rmap.begin() where rmap is empty.
pub mod Laws
use darcoin.Common.{
  ℕ, ◌+◌, Bool, true, false, not, ◌&&◌, ◌||◌, Option, none, some, List, [], ◌∷◌, ltb, ◌==◌,
  if◌then◌else◌, lookup, insert, erase, length,
}

pub record LimitedMap : Type 0 where
  pub entries : List (ℕ × ℕ)
  pub rmap : List (ℕ × ℕ)
  pub n_max_size : ℕ

-- limitedmap(nMaxSizeIn)
abbrev pub limited_map : ℕ → LimitedMap
limited_map n = record { entries = []; rmap = []; n_max_size = n }

-- rmap.insert(make_pair(v, k)): rmap is ordered by the values, and an equal value comes last.
unfoldable pub put : ℕ → ℕ → List (ℕ × ℕ) → List (ℕ × ℕ)
put v k [] = (v, k) ∷ []
put v k ((w, j) ∷ r) =
    let rest = put v k r in if ltb v w then (v, k) ∷ (w, j) ∷ r else (w, j) ∷ rest

-- Whether the search through equal_range finds the iterator.
unfoldable pub has : ℕ → ℕ → List (ℕ × ℕ) → Bool
has v k [] = false
has v k ((w, j) ∷ r) = (w == v && j == k) || has v k r

-- rmap.erase(it), where `it` is the first with this value and iterator
unfoldable pub drop_pair : ℕ → ℕ → List (ℕ × ℕ) → List (ℕ × ℕ)
drop_pair v k [] = []
drop_pair v k ((w, j) ∷ r) =
    let rest = drop_pair v k r in if w == v && j == k then r else (w, j) ∷ rest

-- map.erase(rmap.begin()->second); rmap.erase(rmap.begin())
abbrev pub evict_first : List (ℕ × ℕ) → LimitedMap → Option LimitedMap
evict_first [] s = none
evict_first (e ∷ r) s = some (record s { entries = erase e.1 s.entries; rmap = r })

abbrev pub evict_lowest : LimitedMap → Option LimitedMap
evict_lowest s = evict_first s.rmap s

abbrev pub then_put : ℕ → ℕ → Option LimitedMap → Option LimitedMap
then_put k v none = none
then_put k v (some s) = some (record s { rmap = put v k s.rmap })

-- What insert does with a key that is new.
abbrev pub insert_absent : ℕ → ℕ → LimitedMap → Option LimitedMap
insert_absent k v s =
    let added = record s { entries = insert k v s.entries } in
    let evicted = evict_lowest added in
    then_put k v (
      if not (s.n_max_size == 0) && length added.entries == s.n_max_size
      then evicted
      else some added)

-- insert
abbrev pub insert_at : Option ℕ → ℕ → ℕ → LimitedMap → Option LimitedMap
insert_at none k v s = insert_absent k v s
insert_at (some w) k v s = some s

abbrev pub insert_pair : ℕ → ℕ → LimitedMap → Option LimitedMap
insert_pair k v s = insert_at (lookup k s.entries) k v s

-- erase
abbrev pub erase_at : Option ℕ → ℕ → LimitedMap → Option LimitedMap
erase_at none k s = some s
erase_at (some v) k s =
    if has v k s.rmap
    then some (record s { entries = erase k s.entries; rmap = drop_pair v k s.rmap })
    else none

abbrev pub erase_key : ℕ → LimitedMap → Option LimitedMap
erase_key k s = erase_at (lookup k s.entries) k s

-- update
abbrev pub update_at : Option ℕ → ℕ → ℕ → LimitedMap → Option LimitedMap
update_at none k v s = some s
update_at (some w) k v s =
    if has w k s.rmap
    then some (record s { entries = insert k v s.entries; rmap = put v k (drop_pair w k s.rmap) })
    else none

abbrev pub update_key : ℕ → ℕ → LimitedMap → Option LimitedMap
update_key k v s = update_at (lookup k s.entries) k v s
