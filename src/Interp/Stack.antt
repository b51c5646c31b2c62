-- ===== src/Interp/Stack.antt =====
-- The stack operations of EvalScript (script.cpp). A stack is the list of its elements, the top first:
-- stacktop(-1) is the head. `none` is `return false`, or an exception, which EvalScript turns into it.
use darcoin.Common.{
  ◌+◌, Bool, true, false, Option, none, some, List, [], ◌∷◌, ◌++◌, ℤ, pos, negsuc, leb,
  if◌then◌else◌, length, get_elem?, take, drop, Bytes,
}
use darcoin.Script.Num.{serialize, script_num, getint, cast_to_bool}

abbrev pub Items : Type 0
Items = List Bytes

-- The cases under "Stack ops" that need no more than the stack.
pub data StackOp : Type 0 where
  op_2drop op_2dup op_3dup op_2over op_2rot op_2swap op_ifdup op_depth op_drop op_dup : StackOp
  op_nip op_over op_pick op_roll op_rot op_swap op_tuck op_size : StackOp

unfoldable pub drop_2 : Items → Option Items
drop_2 (b ∷ a ∷ s) = some s
drop_2 (b ∷ []) = none
drop_2 [] = none

unfoldable pub dup_2 : Items → Option Items
dup_2 (b ∷ a ∷ s) = some (b ∷ a ∷ b ∷ a ∷ s)
dup_2 (b ∷ []) = none
dup_2 [] = none

unfoldable pub dup_3 : Items → Option Items
dup_3 (c ∷ b ∷ a ∷ s) = some (c ∷ b ∷ a ∷ c ∷ b ∷ a ∷ s)
dup_3 (c ∷ b ∷ []) = none
dup_3 (c ∷ []) = none
dup_3 [] = none

unfoldable pub over_2 : Items → Option Items
over_2 (d ∷ c ∷ b ∷ a ∷ s) = some (b ∷ a ∷ d ∷ c ∷ b ∷ a ∷ s)
over_2 (d ∷ c ∷ b ∷ []) = none
over_2 (d ∷ c ∷ []) = none
over_2 (d ∷ []) = none
over_2 [] = none

unfoldable pub rot_2 : Items → Option Items
rot_2 (f ∷ e ∷ d ∷ c ∷ b ∷ a ∷ s) = some (b ∷ a ∷ f ∷ e ∷ d ∷ c ∷ s)
rot_2 (f ∷ e ∷ d ∷ c ∷ b ∷ []) = none
rot_2 (f ∷ e ∷ d ∷ c ∷ []) = none
rot_2 (f ∷ e ∷ d ∷ []) = none
rot_2 (f ∷ e ∷ []) = none
rot_2 (f ∷ []) = none
rot_2 [] = none

unfoldable pub swap_2 : Items → Option Items
swap_2 (d ∷ c ∷ b ∷ a ∷ s) = some (b ∷ a ∷ d ∷ c ∷ s)
swap_2 (d ∷ c ∷ b ∷ []) = none
swap_2 (d ∷ c ∷ []) = none
swap_2 (d ∷ []) = none
swap_2 [] = none

unfoldable pub if_dup : Items → Option Items
if_dup [] = none
if_dup (a ∷ s) = some (if cast_to_bool a then a ∷ a ∷ s else a ∷ s)

unfoldable pub drop_1 : Items → Option Items
drop_1 [] = none
drop_1 (a ∷ s) = some s

unfoldable pub dup_1 : Items → Option Items
dup_1 [] = none
dup_1 (a ∷ s) = some (a ∷ a ∷ s)

unfoldable pub nip : Items → Option Items
nip (b ∷ a ∷ s) = some (b ∷ s)
nip (b ∷ []) = none
nip [] = none

unfoldable pub over_1 : Items → Option Items
over_1 (b ∷ a ∷ s) = some (a ∷ b ∷ a ∷ s)
over_1 (b ∷ []) = none
over_1 [] = none

-- stack.at, which throws where the index is out of range
abbrev pub push_elem : Option Bytes → Items → Option Items
push_elem none s = none
push_elem (some x) s = some (x ∷ s)

abbrev pub pick_at : Bool → ℤ → Items → Option Items
pick_at roll (negsuc n) s = none
pick_at roll (pos n) s =
    if leb (length s) n
    then none
    else push_elem (get_elem? s n) (if roll then take n s ++ drop (n + 1) s else s)

abbrev pub with_num : Option ℤ → (ℤ → Option Items) → Option Items
with_num none f = none
with_num (some v) f = f v

-- OP_PICK and OP_ROLL
unfoldable pub pick : Bool → Items → Option Items
pick roll (n ∷ a ∷ s) = with_num (script_num n) (λ v. pick_at roll (getint v) (a ∷ s))
pick roll (n ∷ []) = none
pick roll [] = none

unfoldable pub rot_1 : Items → Option Items
rot_1 (c ∷ b ∷ a ∷ s) = some (a ∷ c ∷ b ∷ s)
rot_1 (c ∷ b ∷ []) = none
rot_1 (c ∷ []) = none
rot_1 [] = none

unfoldable pub swap_1 : Items → Option Items
swap_1 (b ∷ a ∷ s) = some (a ∷ b ∷ s)
swap_1 (b ∷ []) = none
swap_1 [] = none

unfoldable pub tuck : Items → Option Items
tuck (b ∷ a ∷ s) = some (b ∷ a ∷ b ∷ s)
tuck (b ∷ []) = none
tuck [] = none

unfoldable pub size_of_top : Items → Option Items
size_of_top [] = none
size_of_top (a ∷ s) = some (serialize (pos (length a)) ∷ a ∷ s)

unfoldable pub run_stack_op : StackOp → Items → Option Items
run_stack_op op_2drop s = drop_2 s
run_stack_op op_2dup s = dup_2 s
run_stack_op op_3dup s = dup_3 s
run_stack_op op_2over s = over_2 s
run_stack_op op_2rot s = rot_2 s
run_stack_op op_2swap s = swap_2 s
run_stack_op op_ifdup s = if_dup s
run_stack_op op_depth s = some (serialize (pos (length s)) ∷ s)
run_stack_op op_drop s = drop_1 s
run_stack_op op_dup s = dup_1 s
run_stack_op op_nip s = nip s
run_stack_op op_over s = over_1 s
run_stack_op op_pick s = pick false s
run_stack_op op_roll s = pick true s
run_stack_op op_rot s = rot_1 s
run_stack_op op_swap s = swap_1 s
run_stack_op op_tuck s = tuck s
run_stack_op op_size s = size_of_top s
