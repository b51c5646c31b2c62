-- ===== src/Script/Delete.antt =====
-- FindAndDelete of script.h.
use darcoin.Common.{
  ℕ, zero, suc, ◌+◌, ◌-◌, Bool, true, false, ◌&&◌, [], ◌∷◌, ◌++◌, ◌==◌, if◌then◌else◌, length, take,
  drop, Bytes,
}
use darcoin.Script.{get_op, with_op}

-- end() - pc >= b.size() && memcmp(&pc[0], &b[0], b.size()) == 0
unfoldable pub starts_with : Bytes → Bytes → Bool
starts_with [] s = true
starts_with (b ∷ bs) [] = false
starts_with (b ∷ bs) (c ∷ s) = b == c && starts_with bs s

-- The inner loop erases `b` at pc. It is not empty, so that the length of the script is rounds enough.
unfoldable pub strip : ℕ → Bytes → Bytes → Bytes
strip zero b s = s
strip (suc fuel) b s =
    let rest = strip fuel b (drop (length b) s) in if starts_with b s then rest else s

-- The outer loop, from pc on: what stands before pc stays.
unfoldable pub delete_loop : ℕ → Bytes → Bytes → Bytes
unfolding strip
delete_loop zero b s = s
delete_loop (suc fuel) b s =
    let s' = strip (length s) b s in
    with_op (get_op s') s'
      (λ op. take (length s' - length op.rest) s' ++ delete_loop fuel b op.rest)

-- FindAndDelete, the script that is left
unfoldable pub find_and_delete : Bytes → Bytes → Bytes
unfolding delete_loop
find_and_delete [] s = s
find_and_delete (b ∷ bs) s = delete_loop (length s + 1) (b ∷ bs) s
