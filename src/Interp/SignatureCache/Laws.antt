-- ===== src/Interp/SignatureCache/Laws.antt =====
-- The signature cache (script.cpp) does not change what CheckSig returns.
use mathlib.Core.Option.{some-injective}
use darcoin.Common.{
  subst, ◌∙◌, sym, ℕ, zero, suc, ◌-◌, ◌≡◌, refl, Bool, true, Bool-cases, Option-cases, Option, none,
  some, inl, inr, List, [], ◌∷◌, ℤ, pos, negsuc, ltb, length, take, Bytes, bytes_eq_iff, arith,
}
use darcoin.Interp.Canonical.{Flags}
use darcoin.Interp.SignatureCache.{
  SigData, eq, lt, get, insert, erase_from, evict, evict_loop, set, verify_cached, check_sig,
  hash_type_of, is_valid, pub_key,
}

module _ (verify : ℕ → Bytes → Bytes → Bool) where
  -- Every entry is a signature that the key verifies.
  abbrev pub AllVerified : List SigData → Type 0
  AllVerified [] = Unit {0}
  AllVerified (x ∷ r) = (verify x.hash x.sig x.key ≡ true) × AllVerified r

  AllVerified-option : Option (List SigData) → Type 0
  AllVerified-option none = Unit {0}
  AllVerified-option (some s) = AllVerified s

  eq-verified :
      (k x : SigData)
      → eq k x ≡ true
      → verify x.hash x.sig x.key ≡ true
      → verify k.hash k.sig k.key ≡ true
  eq-verified k x e h =
      let same_hash : k.hash ≡ x.hash = ground (arith, e) in
      let same_sig : k.sig ≡ x.sig = (bytes_eq_iff _ _).0 (ground (arith, e)) in
      let same_key : k.key ≡ x.key = (bytes_eq_iff _ _).0 (ground (arith, e)) in
      rw (same_hash, same_sig, same_key) h

  get-verified :
      (k : SigData) (s : List SigData)
      → AllVerified s
      → get k s ≡ true
      → verify k.hash k.sig k.key ≡ true
  unfolding get
  get-verified k [] h e = cc
  get-verified k (x ∷ r) h e = elim (Bool-cases (eq k x)) [
    | inl y ↦ eq-verified k x y h.0
    | inr n ↦ get-verified k r h.1 (rw n at e)
  ]

  insert-AllVerified :
      (k : SigData) (s : List SigData)
      → verify k.hash k.sig k.key ≡ true
      → AllVerified s
      → AllVerified (insert k s)
  unfolding insert
  insert-AllVerified k [] v h = (v, tt)
  insert-AllVerified k (x ∷ r) v h = elim (Bool-cases (eq k x)) [
    | inl y ↦ rw y h
    | inr n ↦ elim (Bool-cases (lt k x)) [
      | inl y ↦ rw (n, y) (v, h)
      | inr m ↦ rw (n, m) (h.0, insert-AllVerified k r v h.1)
    ]
  ]

  erase_from-AllVerified :
      (n : ℕ) (s s' : List SigData) → AllVerified s → erase_from n s ≡ some s' → AllVerified s'
  unfolding erase_from
  erase_from-AllVerified n [] s' h e = cc
  erase_from-AllVerified n (x ∷ r) s' h e = elim (Bool-cases (ltb x.hash n)) [
    | inr m ↦ subst AllVerified (some-injective _ _ (rw m at e)) h.1
    | inl y ↦ elim (Option-cases (erase_from n r)) [
      | inl d ↦ absurd (cc (rw (y, d) at e))
      | inr (t, d) ↦
          subst AllVerified (some-injective _ _ (rw (y, d) at e))
            (h.0, erase_from-AllVerified n r t h.1 d)
    ]
  ]

  evict-AllVerified : (n : ℕ) (s : List SigData) → AllVerified s → AllVerified (evict n s)
  unfolding evict
  evict-AllVerified n [] h = elim (Option-cases (erase_from n [])) [
    | inl d ↦ rw d tt
    | inr (t, d) ↦ rw d (erase_from-AllVerified n [] t h d)
  ]
  evict-AllVerified n (x ∷ r) h = elim (Option-cases (erase_from n (x ∷ r))) [
    | inl d ↦ rw d h.1
    | inr (t, d) ↦ rw d (erase_from-AllVerified n (x ∷ r) t h d)
  ]

  evict_loop-AllVerified :
      (k : ℕ) (random : ℕ → ℕ) (most : ℕ) (s : List SigData)
      → AllVerified s
      → AllVerified (evict_loop k random most s)
  unfolding evict_loop
  evict_loop-AllVerified zero random most s h = h
  evict_loop-AllVerified (suc k) random most s h = elim (Bool-cases (ltb most (length s))) [
    | inl y ↦
        rw y (evict_loop-AllVerified k random most _ (evict-AllVerified (random (length s)) s h))
    | inr n ↦ rw n h
  ]

  set-AllVerified :
      (random : ℕ → ℕ) (most : ℤ) (k : SigData) (s : List SigData)
      → verify k.hash k.sig k.key ≡ true
      → AllVerified s
      → AllVerified (set random most k s)
  unfolding set
  set-AllVerified random (negsuc n) k s v h = h
  set-AllVerified random (pos zero) k s v h = h
  set-AllVerified random (pos (suc n)) k s v h =
      insert-AllVerified k _ v (evict_loop-AllVerified (length s) random (suc n) s h)

  -- The result is that of CPubKey::Verify, and the cache stays sound.
  verify_cached_lem :
      (random : ℕ → ℕ) (most : ℤ) (f : Flags) (k : SigData) (s : List SigData)
      → AllVerified s
      → ((verify_cached verify random most f k s).0 ≡ verify k.hash k.sig k.key)
        × AllVerified ((verify_cached verify random most f k s).1)
  unfolding verify_cached
  verify_cached_lem random most f k s h = elim (Bool-cases (get k s)) [
    | inl y ↦ rw (y, get-verified k s h y) (refl, h)
    | inr n ↦ elim (Bool-cases (verify k.hash k.sig k.key)) [
      | inr m ↦ rw (n, m) (refl, h)
      | inl v ↦ elim (Bool-cases f.nocache) [
        | inl y ↦ rw (n, v, y) (refl, h)
        | inr m ↦ rw (n, v, m) (refl, set-AllVerified random most k s v h)
      ]
    ]
  ]

  -- Where every entry of the cache is verified, CheckSig returns what it returns on the empty
  -- cache, and every entry of the cache that it leaves is verified.
  pub check_sig-AllVerified :
      (random : ℕ → ℕ) (most : ℤ) (f : Flags) (sighash : ℕ → ℕ) (hash_type : ℕ) (sig key : Bytes)
      (s : List SigData)
      → AllVerified s
      → ((check_sig verify random most f sighash hash_type sig key s).0
          ≡ (check_sig verify random most f sighash hash_type sig key []).0)
        × AllVerified ((check_sig verify random most f sighash hash_type sig key s).1)
  unfolding check_sig
  check_sig-AllVerified random most f sighash hash_type sig key s h =
      elim (Bool-cases (is_valid (pub_key key))) [
        | inr n ↦ rw n (refl, h)
        | inl y ↦ elim (Option-cases (hash_type_of hash_type sig)) [
          | inl e ↦ rw (y, e) (refl, h)
          | inr (t, e) ↦
              rw (y, e)
                (let k : SigData = record {
                  hash = sighash t;
                  sig = take (length sig - 1) sig;
                  key = pub_key key;
                } in
                  let full = verify_cached_lem random most f k s h in
                  let empty = verify_cached_lem random most f k [] tt in
                  (full.0 ∙ sym empty.0, full.1))
        ]
      ]
