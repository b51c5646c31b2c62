-- ===== src/MemPool/Next.antt =====
-- mapNextTx of CTxMemPool (txmempool.h): a std::map from outputs to the inputs that spend them.
use darcoin.Common.{ℕ, ◌≡◌, refl, Option, none, some, List, [], ◌∷◌, if◌then◌else◌, arith}
use darcoin.Tx.Prevout
use darcoin.Tx.Prevout.{OutPoint}

-- CInPoint. A pointer to the transaction of an entry is the key of the entry.
pub record InPoint : Type 0 where
  pub ptx : ℕ
  pub n : ℕ

unfoldable pub find : OutPoint → List (OutPoint × InPoint) → Option InPoint
find o [] = none
find o ((a, v) ∷ m) = if Prevout.eq a o then some v else find o m

-- m[o] = v
unfoldable pub put : OutPoint → InPoint → List (OutPoint × InPoint) → List (OutPoint × InPoint)
put o v [] = (o, v) ∷ []
put o v ((a, w) ∷ m) =
    let rest = put o v m in
    if Prevout.lt o a
    then (o, v) ∷ (a, w) ∷ m
    else if Prevout.eq a o
    then (o, v) ∷ m
    else (a, w) ∷ rest

-- Removes every entry of the key; a std::map has one at most.
unfoldable pub erase : OutPoint → List (OutPoint × InPoint) → List (OutPoint × InPoint)
erase o [] = []
erase o ((a, w) ∷ m) = if Prevout.eq a o then erase o m else (a, w) ∷ erase o m

pub find-put :
    (o asked : OutPoint) (v : InPoint) (m : List (OutPoint × InPoint))
    → find asked (put o v m) ≡ (if Prevout.eq o asked then some v else find asked m)
unfolding find put
find-put o asked v [] = refl
find-put o asked v ((a, w) ∷ m) = ground (arith, find-put o asked v m)

pub find-erase :
    (o asked : OutPoint) (m : List (OutPoint × InPoint))
    → find asked (erase o m) ≡ (if Prevout.eq o asked then none else find asked m)
unfolding find erase
find-erase o asked [] = ground arith
find-erase o asked ((a, w) ∷ m) = ground (arith, find-erase o asked m)
