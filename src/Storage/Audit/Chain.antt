-- ===== src/Storage/Audit/Chain.antt =====
-- The chain of hashes of backend/app/storage/audit.py, and what it gives away.
use continuous_auth.Common.{
  ◌≡◌, ◌≢◌, refl, ap, sym, ◌∙◌, subst, inl, inr, true, Option, none, some, List, [], ◌∷◌, String,
  All, lookup, remove, lookup-remove, eq_iff, arith, Option-cases,
}
use continuous_auth.Storage.Audit.{
  Json, Object, genesis_hash, has_text, fresh_id, verify_record, verify_line, verify_lines,
  verify_file,
}

module _ (N : Json) where
  has_text_unique :
      (o : Option N.J) (s t : String) → has_text N o s ≡ true → has_text N o t ≡ true → s ≡ t
  unfolding has_text
  has_text_unique none s t h k = absurd (ground (arith, h))
  has_text_unique (some j) s t h k = elim (Option-cases (N.text j)) [
    | inl e ↦ absurd (ground (arith, h, e))
    | inr (u, e) ↦ ground (arith, h, k, e, eq_iff u s, eq_iff u t)
  ]

  -- The records of a file without their own hashes, the latest first, on top of earlier ones.
  abbrev pub bodies : List (Object N) → List (Option (Object N)) → List (Object N)
  bodies earlier [] = earlier
  bodies earlier (none ∷ ls) = bodies earlier ls
  bodies earlier (some r ∷ ls) = bodies (remove "record_hash" r ∷ earlier) ls

module _ (N : Json) (digest : Object N → String) where
  -- Each record carries the hash of the one before it, and the last one has the hash given.
  abbrev pub IsChain : List (Object N) → String → Type 0
  IsChain [] h = h ≡ genesis_hash
  IsChain (r ∷ rs) h =
      (p : String) × (digest r ≡ h)
      × (has_text N (lookup "previous_hash" r) p ≡ true)
      × IsChain rs p

  -- No two records of the lists collide, and no record has the hash of the genesis.
  abbrev pub IsCollisionFree : List (Object N) → List (Object N) → Type 0
  IsCollisionFree rs rs' =
      All (λ x. All (λ y. digest x ≡ digest y → x ≡ y) rs') rs
      × All (λ x. digest x ≢ genesis_hash) rs
      × All (λ x. digest x ≢ genesis_hash) rs'

  fewer :
      (y : Object N) (rs ys : List (Object N))
      → All (λ x. All (λ z. digest x ≡ digest z → x ≡ z) (y ∷ ys)) rs
      → All (λ x. All (λ z. digest x ≡ digest z → x ≡ z) ys) rs
  fewer y [] ys h = tt
  fewer y (r ∷ rs) ys h = (h.0.1, fewer y rs ys h.1)

  -- The last hash determines the chain.
  chain_unique :
      (rs rs' : List (Object N)) (h : String)
      → IsCollisionFree rs rs'
      → IsChain rs h
      → IsChain rs' h
      → rs ≡ rs'
  chain_unique [] [] h f c c' = refl
  chain_unique [] (r ∷ rs) h (f, g, g') c c' = absurd (g'.0 (c'.1 ∙ c))
  chain_unique (r ∷ rs) [] h (f, g, g') c c' = absurd (g.0 (c.1 ∙ c'))
  chain_unique (r ∷ rs) (s ∷ ss) h (f, g, g') (p, d, t, c) (p', d', t', c') =
      let same = f.0.0 (d ∙ sym d') in
      let t'' = subst (λ x. has_text N (lookup "previous_hash" x) p' ≡ true) (sym same) t' in
      let e = has_text_unique N (lookup "previous_hash" r) p' p t'' t in
      ap (λ x. x ∷ rs) same
      ∙ ap (λ xs. s ∷ xs)
          (chain_unique rs ss p (fewer s rs ss f.1, g.1, g'.1) c (subst (IsChain ss) e c'))

  pub verify_record_lem :
      (p : String) (ids : List String) (r : Object N) (h id : String)
      → verify_record N digest p ids r ≡ some (h, id)
      → (digest (remove "record_hash" r) ≡ h)
        × (has_text N (lookup "previous_hash" r) p ≡ true)
        × (has_text N (lookup "record_hash" r) h ≡ true)
        × (fresh_id N ids (lookup "record_id" r) ≡ some id)
  unfolding verify_record
  verify_record_lem p ids r h id e = elim (Option-cases (fresh_id N ids (lookup "record_id" r))) [
    | inl n ↦ absurd (ground (arith, e, n))
    | inr (i, n) ↦ ground (arith, e, n)
  ]

  verify_lines-IsChain :
      (p : String) (ids : List String) (rs : List (Object N)) (ls : List (Option (Object N)))
      (h : String) (ids' : List String)
      → IsChain rs p
      → verify_lines N digest p ids ls ≡ some (h, ids')
      → IsChain (bodies N rs ls) h
  unfolding verify_lines verify_line
  verify_lines-IsChain p ids rs [] h ids' c e = ground (arith, e, c)
  verify_lines-IsChain p ids rs (none ∷ ls) h ids' c e = absurd (ground (arith, e))
  verify_lines-IsChain p ids rs (some r ∷ ls) h ids' c e =
      elim (Option-cases (verify_record N digest p ids r)) [
        | inl n ↦ absurd (ground (arith, e, n))
        | inr ((h', id), n) ↦
            let (d, t, _, _) = verify_record_lem p ids r h' id n in
            verify_lines-IsChain h' (id ∷ ids) (remove "record_hash" r ∷ rs) ls h ids'
              (p, d, rw (lookup-remove "previous_hash" "record_hash" r) t, c) (ground (arith, e, n))
      ]

  -- Tampering is evident: two files that pass the verification and end on the same hash hold the
  -- same records in the same order, but for the hashes that the records carry of themselves, which
  -- are the ones verified. The records of the two files are taken not to collide, among each other
  -- or with the hash that begins a chain.
  pub verify_file_unique :
      (ls ls' : List (Option (Object N))) (h : String) (ids ids' : List String)
      → IsCollisionFree (bodies N [] ls) (bodies N [] ls')
      → verify_file N digest ls ≡ some (h, ids)
      → verify_file N digest ls' ≡ some (h, ids')
      → bodies N [] ls ≡ bodies N [] ls'
  unfolding verify_file
  verify_file_unique ls ls' h ids ids' f e e' =
      chain_unique (bodies N [] ls) (bodies N [] ls') h f
        (verify_lines-IsChain genesis_hash [] [] ls h ids refl e)
        (verify_lines-IsChain genesis_hash [] [] ls' h ids' refl e')
