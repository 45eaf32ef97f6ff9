-- ===== src/Storage/Audit/Appends.antt =====
-- The record that `append` of backend/app/storage/audit.py writes, under the verification.
use continuous_auth.Common.{
  ◌≡◌, sym, ◌∙◌, subst, inl, inr, true, false, Option, none, some, List, [], ◌∷◌, ◌++◌, String,
  is_empty, eq_iff, arith, Option-cases,
}
use continuous_auth.Storage.Audit.{
  Json, Object, Entry, member, has_text, usable_id, fresh_id, verify_record, verify_line,
  verify_lines, unsigned, signed, reread,
}

module _ (N : Json) (digest : Object N → String) where
  verify_lines-next :
      (p : String) (ids : List String) (r : Object N) (ls : List (Option (Object N)))
      (h id : String)
      → verify_record N digest p ids r ≡ some (h, id)
      → verify_lines N digest p ids (some r ∷ ls) ≡ verify_lines N digest h (id ∷ ids) ls
  unfolding verify_lines verify_line
  verify_lines-next p ids r ls h id n = ground (arith, n)

  -- One more line is verified after the others.
  pub verify_lines-append :
      (l : Object N) (ls : List (Option (Object N))) (p : String) (ids : List String) (h : String)
      (ids' : List String)
      → verify_lines N digest p ids ls ≡ some (h, ids')
      → (h' id : String) → verify_record N digest h ids' l ≡ some (h', id)
      → verify_lines N digest p ids (ls ++ some l ∷ []) ≡ some (h', id ∷ ids')
  unfolding verify_lines verify_line
  verify_lines-append l [] p ids h ids' e h' id v =
      verify_lines-next p ids l [] h' id (
        subst (λ x. verify_record N digest x ids l ≡ some (h', id)) (ground (arith, e))
          (subst (λ x. verify_record N digest h x l ≡ some (h', id)) (ground (arith, e)) v))
      ∙ ground (arith, e)
  verify_lines-append l (none ∷ ls) p ids h ids' e h' id v = absurd (ground (arith, e))
  verify_lines-append l (some r ∷ ls) p ids h ids' e h' id v =
      elim (Option-cases (verify_record N digest p ids r)) [
        | inl n ↦ absurd (ground (arith, e, n))
        | inr ((g, i), n) ↦
            verify_lines-next p ids r (ls ++ some l ∷ []) g i n
            ∙ verify_lines-append l ls g (i ∷ ids) h ids'
                (sym (verify_lines-next p ids r ls g i n) ∙ e) h' id v
      ]

  has_text-of_text :
      (faithful : (s : String) → N.text (N.of_text s) ≡ some s) (s : String)
      → has_text N (some (N.of_text s)) s ≡ true
  unfolding has_text
  has_text-of_text faithful s = ground (arith, faithful s, eq_iff s s)

  -- The record that `append` writes passes the verification.
  pub verify_record-signed :
      (faithful : (s : String) → N.text (N.of_text s) ≡ some s) (e : Entry N)
      (id logged_at hash : String) (ids : List String)
      → is_empty id ≡ false
      → member id ids ≡ false
      → verify_record N digest hash ids (signed N digest (unsigned N e id logged_at hash))
        ≡ some (digest (unsigned N e id logged_at hash), id)
  unfolding verify_record signed unsigned fresh_id usable_id
  verify_record-signed faithful e id logged_at hash ids v k = ground (
    arith,
    has_text-of_text faithful hash,
    has_text-of_text faithful (digest (unsigned N e id logged_at hash)),
    faithful id,
    v,
    k,
  )

  -- A record with a payload that is read as it was written is read so as a whole.
  pub reread-signed :
      (stable : (s : String) → N.reread (N.of_text s) ≡ N.of_text s) (e : Entry N)
      (id logged_at hash : String)
      → N.reread e.payload ≡ e.payload
      → reread N (signed N digest (unsigned N e id logged_at hash))
        ≡ signed N digest (unsigned N e id logged_at hash)
  unfolding reread signed unsigned
  reread-signed stable e id logged_at hash plain = ground (
    arith,
    plain,
    stable "1.0.0",
    stable id,
    stable e.event_type,
    stable e.occurred_at_utc,
    stable logged_at,
    stable e.correlation_id,
    stable hash,
    stable (digest (unsigned N e id logged_at hash)),
  )
