-- ===== src/Interp/Rounds.antt =====
-- The runs of EvalScript (script.cpp) as a relation, one step for each opcode.
use mathlib.Core.Option.{some-injective}
use darcoin.Common.{
  ℕ, zero, suc, ◌≤◌, ◌≡◌, refl, ap, subst, Bool, Bool-cases, Option-cases, some, inl, inr, List, [],
  ◌∷◌, ltb, length, Bytes, arith, ltb→lt, ltb-false→le, ◌↔◌, ◌∙◌,
}
use darcoin.Script.{Op, get_op}
use darcoin.Script.Termination.{length-get_op}
use darcoin.Interp.Stack.{Items}
use darcoin.Interp.Canonical.{Flags}
use darcoin.Interp.Signatures.{Crypto}
use darcoin.Interp.{
  Machine, step, Outcome, ended, failed, unfinished, eval_loop, finish, start, eval_script,
}
use darcoin.Interp.Bounds.{Limited, step-Limited, eval_loop-enough}

-- What is left of the script and the machine, before and after any number of rounds.
pub data Rounds (c : Crypto) (f : Flags) : Bytes → Machine → Bytes → Machine → Type 0 where
  here : {s : Bytes} → {m : Machine} → Rounds c f s m s m
  round :
      {s t : Bytes}
      → {m m₁ m₂ : Machine} → (op : Op) → get_op s ≡ some op
      → step c f op m ≡ some m₁
      → Rounds c f op.rest m₁ t m₂
      → Rounds c f s m t m₂

Limited-Rounds :
    {c : Crypto} {f : Flags} {s t : Bytes} {m m' : Machine}
    → Rounds c f s m t m'
    → Limited m
    → Limited m'
Limited-Rounds here h = h
Limited-Rounds (round op g e r) h = Limited-Rounds r (step-Limited _ _ op _ _ h.operations e)

-- Every machine that EvalScript reaches, from a stack of at most 1000 elements, has at most 1000
-- elements on its two stacks and an operation count of at most 201.
pub start-Rounds-Limited :
    (c : Crypto) (f : Flags) (s : Items) (script rest : Bytes) (m : Machine)
    → length s ≤ 1000
    → Rounds c f script (start s script) rest m
    → Limited m
start-Rounds-Limited c f s script rest m h r =
    Limited-Rounds r (record { stacks = omega (arith, h); operations = omega arith })

ended-injective : {a b : Machine} → ended a ≡ ended b → a ≡ b
ended-injective {a} e = ap machine e
  where
    machine : Outcome → Machine
    machine (ended m) = m
    machine failed = a
    machine unfinished = a

Rounds-eval_loop :
    (c : Crypto) (f : Flags) (k : ℕ) (s : Bytes) (m m' : Machine)
    → eval_loop c f k s m ≡ ended m'
    → Rounds c f s m [] m'
unfolding eval_loop
Rounds-eval_loop c f zero [] m m' e = subst (λ x. Rounds c f [] m [] x) (ended-injective e) here
Rounds-eval_loop c f (suc k) [] m m' e = subst (λ x. Rounds c f [] m [] x) (ended-injective e) here
Rounds-eval_loop c f zero (b ∷ s) m m' e = cc
Rounds-eval_loop c f (suc k) (b ∷ s) m m' e = elim (Option-cases (get_op (b ∷ s))) [
  | inl g ↦ absurd (cc (rw g at e))
  | inr (op, g) ↦ elim (Option-cases (step c f op m)) [
    | inl d ↦ absurd (cc (rw (g, d) at e))
    | inr (m₁, d) ↦ round op g d (Rounds-eval_loop c f k op.rest m₁ m' (rw (g, d) at e))
  ]
]

eval_loop-Rounds :
    {c : Crypto} {f : Flags} {s : Bytes} {m m' : Machine}
    → Rounds c f s m [] m'
    → eval_loop c f (length s) s m ≡ ended m'
unfolding eval_loop
eval_loop-Rounds here = refl
eval_loop-Rounds {s = []} (round op g e r) = absurd (omega (arith, length-get_op [] op g))
eval_loop-Rounds {c = c} {f = f} {s = b ∷ s} (round {m₁ = m₁} op g e r) =
    rw (g, e)
      (eval_loop-enough c f (length s) (length op.rest) op.rest m₁
          (omega (arith, length-get_op (b ∷ s) op g)) (omega arith)
        ∙ eval_loop-Rounds r)

finish-exec :
    (m : Machine) (s' : Items) (e : List Bool)
    → m.exec ≡ e
    → finish (ended (record m { exec = e })) ≡ some s'
    → (m' : Machine) × (ended m ≡ ended m') × (m'.stack ≡ s') × (m'.exec ≡ [])
finish-exec m s' [] q g = (m, refl, some-injective _ _ g, q)
finish-exec m s' (b ∷ r) q g = cc

finish-some :
    (o : Outcome) (s' : Items)
    → finish o ≡ some s'
    → (m : Machine) × (o ≡ ended m) × (m.stack ≡ s') × (m.exec ≡ [])
finish-some unfinished s' e = cc
finish-some failed s' e = cc
finish-some (ended m) s' e = finish-exec m s' m.exec refl e

-- EvalScript returns true and leaves the stack s' exactly where the script has at most 10000 bytes,
-- and the rounds lead from the start through the whole script to a machine with this stack and no
-- open branch.
pub eval_script_iff-Rounds :
    (c : Crypto) (f : Flags) (s s' : Items) (script : Bytes)
    → (eval_script c f s script ≡ some s') ↔ (
        (length script ≤ 10000)
        × (m : Machine) × Rounds c f script (start s script) [] m
        × (m.stack ≡ s')
        × (m.exec ≡ []))
unfolding eval_script
eval_script_iff-Rounds c f s s' script = elim (Bool-cases (ltb 10000 (length script))) [
  | inl y ↦
      rw y ((λ e. absurd (cc e)), (λ (h, m, r, p, q). absurd (omega (arith, h, ltb→lt _ _ y))))
  | inr n ↦ rw n (
    (λ e.
        let (m, g, p, q) = finish-some _ s' e in
        (ltb-false→le _ _ n, m, Rounds-eval_loop c f (length script) script _ m g, p, q)),
    (λ (h, m, r, p, q). rw (eval_loop-Rounds r, q, p) refl),
  )
]
