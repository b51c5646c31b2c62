-- ===== src/Tx/Prevout.antt =====
-- COutPoint of core.h. A uint256 is a number below 2 ^ 256.
use darcoin.Common.{ℕ, ◌-◌, ◌^◌, ◌≡◌, ◌↔◌, Bool, true, ◌&&◌, ◌||◌, ltb, ◌==◌, arith}

-- std::numeric_limits<unsigned int>::max(), which is also (unsigned int) -1
abbrev pub uint_max : ℕ
uint_max = 2 ^ 32 - 1

pub record OutPoint : Type 0 where
  pub hash : ℕ
  pub n : ℕ

-- SetNull
abbrev pub null : OutPoint
null = record { hash = 0; n = uint_max }

-- IsNull
abbrev pub is_null : OutPoint → Bool
is_null o = o.hash == 0 && o.n == uint_max

-- operator==
abbrev pub eq : OutPoint → OutPoint → Bool
eq a b = a.hash == b.hash && a.n == b.n

-- operator<
abbrev pub lt : OutPoint → OutPoint → Bool
lt a b = ltb a.hash b.hash || (a.hash == b.hash && ltb a.n b.n)

pub eq_iff : (a b : OutPoint) → (eq a b ≡ true) ↔ (a ≡ b)
eq_iff a b = ground arith

pub is_null_iff : (a : OutPoint) → (is_null a ≡ true) ↔ (a ≡ null)
is_null_iff a = ground arith
