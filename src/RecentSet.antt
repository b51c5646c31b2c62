-- ===== src/RecentSet.antt =====
-- mruset of mruset.h: a set that keeps the elements that were inserted last. The elements are numbers.
pub mod Laws
use darcoin.Common.{
  ℕ, zero, suc, ◌+◌, ◌≡◌, Bool, true, false, not, ◌&&◌, ◌||◌, List, [], ◌∷◌, ◌++◌, ltb, ◌==◌,
  if◌then◌else◌, length,
}

-- The std::set is the list of its elements, in some order and each once; the front of the deque is the
-- head of its list.
pub record RecentSet : Type 0 where
  pub elements : List ℕ
  pub queue : List ℕ
  pub n_max_size : ℕ

-- mruset(nMaxSizeIn)
abbrev pub recent_set : ℕ → RecentSet
recent_set n = record { elements = []; queue = []; n_max_size = n }

-- set.count(x)
unfoldable pub member : ℕ → List ℕ → Bool
member x [] = false
member x (y ∷ r) = y == x || member x r

-- set.erase(x)
unfoldable pub remove : ℕ → List ℕ → List ℕ
remove x [] = []
remove x (y ∷ r) = let rest = remove x r in if y == x then rest else y ∷ rest

-- set.erase(queue.front()); queue.pop_front()
abbrev pub pop_oldest : List ℕ → List ℕ → List ℕ × List ℕ
pop_oldest elements [] = (elements, [])
pop_oldest elements (x ∷ queue) = (remove x elements, queue)

-- nMaxSize && queue.size() == nMaxSize
abbrev pub is_full : RecentSet → Bool
is_full s = not (s.n_max_size == 0) && length s.queue == s.n_max_size

-- What insert does with an element that is new.
pub insert_new : ℕ → RecentSet → RecentSet
insert_new x s =
    let kept =
      if is_full s then pop_oldest (x ∷ s.elements) s.queue else (x ∷ s.elements, s.queue) in
    record s { elements = kept.0; queue = kept.1 ++ x ∷ [] }

-- insert(x), with the second of the pair that it returns
pub insert : ℕ → RecentSet → Bool × RecentSet
insert x s = if member x s.elements then (false, s) else (true, insert_new x s)

-- clear
abbrev pub clear : RecentSet → RecentSet
clear s = record s { elements = []; queue = [] }

-- The loop of max_size(s): elements go while the queue is longer than `limit`.
pub shrink : ℕ → List ℕ → List ℕ → List ℕ × List ℕ
shrink limit elements [] = (elements, [])
shrink limit elements (x ∷ queue) =
    let rest = shrink limit (remove x elements) queue in
    if ltb limit (length (x ∷ queue)) then rest else (elements, x ∷ queue)

-- max_size(s)
pub set_max_size : ℕ → RecentSet → RecentSet
unfolding shrink
set_max_size limit s =
    let kept = shrink limit s.elements s.queue in
    if limit == 0
    then record s { n_max_size = limit }
    else record s { elements = kept.0; queue = kept.1; n_max_size = limit }
