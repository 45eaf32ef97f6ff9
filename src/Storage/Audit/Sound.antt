-- ===== src/Storage/Audit/Sound.antt =====
-- What `append` of backend/app/storage/audit.py keeps of the files.
use continuous_auth.Common.{
  ◌≡◌, sym, subst, refl, inl, inr, Bool, true, false, Option, none, some, List, [], ◌∷◌, All, ◌++◌,
  String, lookup, store, lookup-store, same_text, is_empty, arith, Bool-cases, Option-cases,
}
use continuous_auth.Storage.Audit.{
  Json, Object, AuditLog, Writing, complete, Entry, genesis_hash, member, verify_lines, verify_file,
  last_hash, unsigned, signed, written, lines_of, resolve_id, finish_write, write_record, path_of,
  append,
}
use continuous_auth.Storage.Audit.{refused, torn, unsynced, reread, verify_record}
use continuous_auth.Storage.Audit.Appends.{verify_lines-append, verify_record-signed, reread-signed}

abbrev Within : List String → List String → Type 0
Within ids all = (x : String) → member x ids ≡ true → member x all ≡ true

outside :
    (ids all : List String) (x : String)
    → Within ids all
    → member x all ≡ false
    → member x ids ≡ false
outside ids all x h n = elim (Bool-cases (member x ids)) [
  | inl e ↦ absurd (ground (arith, h x e, n))
  | inr e ↦ e
]

within_more : (ids all : List String) (id : String) → Within ids all → Within (id ∷ ids) (id ∷ all)
within_more ids all id h x m = elim (Bool-cases (member x ids)) [
  | inl e ↦ ground (arith, h x e)
  | inr e ↦ ground (arith, m, e)
]

-- The write comes to its end or does not begin.
abbrev pub is_settled : Writing → Bool
is_settled complete = true
is_settled refused = true
is_settled torn = false
is_settled unsynced = false

resolve_id_usable :
    (o : Option String) (minted : String)
    → is_empty minted ≡ false
    → is_empty (resolve_id o minted) ≡ false
unfolding resolve_id
resolve_id_usable none minted h = h
resolve_id_usable (some id) minted h = ground (arith, h)

module _ (N : Json) (digest : Object N → String) where
  -- Every file passes the verification, and the ids of its records are known.
  abbrev pub IsSound : AuditLog N → Type 0
  IsSound log =
      (path : String) (lines : List (Option (Object N)))
      → lookup path log.files ≡ some lines
      → (h : String) × (ids : List String) × (verify_file N digest lines ≡ some (h, ids))
        × Within ids log.record_ids

  -- The file that a record is written to, whether it exists or not.
  current :
      (log : AuditLog N) (path : String)
      → IsSound log
      → (h : String) × (ids : List String) × (last_hash N digest (lookup path log.files) ≡ some h)
        × (verify_file N digest (lines_of N (lookup path log.files)) ≡ some (h, ids))
        × Within ids log.record_ids
  unfolding last_hash lines_of verify_file verify_lines
  current log path s = elim (Option-cases (lookup path log.files)) [
    | inl e ↦ rw e (genesis_hash, [], refl, refl, λ x m. absurd (ground (arith, m)))
    | inr (lines, e) ↦ let (h, ids, v, w) = s path lines e in rw e (h, ids, ground (arith, v), v, w)
  ]

  stored-IsSound :
      (log : AuditLog N) (path : String) (new : List (Option (Object N))) (h : String)
      (ids all : List String)
      → IsSound log
      → Within log.record_ids all
      → verify_file N digest new ≡ some (h, ids)
      → Within ids all
      → IsSound (record { files = store path new log.files; record_ids = all })
  stored-IsSound log path new h ids all s m v w path' lines e =
      let split = lookup-store path' path new log.files in
      elim (Bool-cases (same_text path path')) [
        | inl t ↦ (h, ids, ground (arith, split, t, e, v), w)
        | inr t ↦
            let (h', ids', v', w') = s path' lines (ground (arith, split, t, e)) in
            (h', ids', v', λ x k. m x (w' x k))
      ]

  -- The file after a settled write.
  written-IsSound :
      (faithful : (s : String) → N.text (N.of_text s) ≡ some s)
      (stable : (s : String) → N.reread (N.of_text s) ≡ N.of_text s) (w : Writing)
      (path id : String) (e : Entry N) (logged_at h : String) (ids : List String) (log : AuditLog N)
      → is_settled w ≡ true
      → N.reread e.payload ≡ e.payload
      → is_empty id ≡ false
      → member id log.record_ids ≡ false
      → IsSound log
      → verify_file N digest (lines_of N (lookup path log.files)) ≡ some (h, ids)
      → Within ids log.record_ids
      → IsSound (write_record N w path id (signed N digest (unsigned N e id logged_at h)) log).1
  unfolding write_record written finish_write verify_file
  written-IsSound faithful stable complete path id e logged_at h ids log t plain u k s v w =
      let before = lines_of N (lookup path log.files) in
      let r = signed N digest (unsigned N e id logged_at h) in
      stored-IsSound log path (before ++ some (reread N r) ∷ [])
        (digest (unsigned N e id logged_at h)) (id ∷ ids) (id ∷ log.record_ids) s
        (λ x m. ground (arith, m))
        (verify_lines-append N digest (reread N r) before genesis_hash [] h ids v
          (digest (unsigned N e id logged_at h)) id
          (subst
            (λ x. verify_record N digest h ids x ≡ some (digest (unsigned N e id logged_at h), id))
            (sym (reread-signed N digest stable e id logged_at h plain))
            (verify_record-signed N digest faithful e id logged_at h ids u
              (outside ids log.record_ids id w k))))
        (within_more ids log.record_ids id w)
  written-IsSound faithful stable refused path id e logged_at h ids log t plain u k s v w =
      stored-IsSound log path (lines_of N (lookup path log.files)) h ids log.record_ids s (λ x m. m)
        v w
  written-IsSound faithful stable torn path id e logged_at h ids log t plain u k s v w =
      absurd (ground (arith, t))
  written-IsSound faithful stable unsynced path id e logged_at h ids log t plain u k s v w =
      absurd (ground (arith, t))

  -- A call whose write comes to its end or does not begin keeps the log sound.
  append-IsSound :
      (faithful : (s : String) → N.text (N.of_text s) ≡ some s)
      (stable : (s : String) → N.reread (N.of_text s) ≡ N.of_text s) (e : Entry N)
      (minted date logged_at : String) (w : Writing) (log : AuditLog N)
      → is_empty minted ≡ false
      → is_settled w ≡ true
      → N.reread e.payload ≡ e.payload
      → IsSound log
      → IsSound (append N digest e minted date logged_at w log).1
  unfolding append
  append-IsSound faithful stable e minted date logged_at w log u t plain s =
      let id = resolve_id e.record_id minted in
      let path = path_of date in
      let (h, ids, l, v, known) = current log path s in
      elim (Bool-cases (member id log.record_ids)) [
        | inl k ↦ rw k s
        | inr k ↦ rw k (
            rw l (
              written-IsSound faithful stable w path id e logged_at h ids log t plain
                (resolve_id_usable e.record_id minted u) k s v known))
      ]

-- The arguments of a call of `append`.
pub record Call (N : Json) : Type 0 where
  pub entry : Entry N
  pub minted : String
  pub date : String
  pub logged_at : String
  pub writing : Writing

abbrev pub IsRegular : {N : Json} → Call N → Type 0
IsRegular {N} c =
    (is_empty c.minted ≡ false)
    × (is_settled c.writing ≡ true)
    × (N.reread c.entry.payload ≡ c.entry.payload)

abbrev pub no_files : (N : Json) → AuditLog N
no_files N = record { files = []; record_ids = [] }

module _ (N : Json) (digest : Object N → String) where
  unfoldable pub append_all : List (Call N) → AuditLog N → AuditLog N
  append_all [] log = log
  append_all (c ∷ cs) log =
      append_all cs (append N digest c.entry c.minted c.date c.logged_at c.writing log).1

  append_all-IsSound :
      (faithful : (s : String) → N.text (N.of_text s) ≡ some s)
      (stable : (s : String) → N.reread (N.of_text s) ≡ N.of_text s) (cs : List (Call N))
      (log : AuditLog N)
      → All IsRegular cs
      → IsSound N digest log
      → IsSound N digest (append_all cs log)
  unfolding append_all
  append_all-IsSound faithful stable [] log a s = s
  append_all-IsSound faithful stable (c ∷ cs) log a s =
      append_all-IsSound faithful stable cs
        (append N digest c.entry c.minted c.date c.logged_at c.writing log).1 a.1
        (append-IsSound N digest faithful stable c.entry c.minted c.date c.logged_at c.writing log
          a.0.0 a.0.1 a.0.2 s)

  -- Whatever is appended to a log without files, on any days and in any order, with ids that are
  -- given, repeated or minted, every file passes the verification: it is a chain from the hash of the
  -- genesis with no id twice, and the log knows the ids of its records. The writes either end or do
  -- not begin, the minted ids are not empty, and a JSON text and the payloads are read as they were
  -- written.
  pub append_all_verifies :
      (faithful : (s : String) → N.text (N.of_text s) ≡ some s)
      (stable : (s : String) → N.reread (N.of_text s) ≡ N.of_text s) (cs : List (Call N))
      → All IsRegular cs
      → IsSound N digest (append_all cs (no_files N))
  append_all_verifies faithful stable cs a =
      append_all-IsSound faithful stable cs (no_files N) a
        (λ path lines e. absurd (ground (arith, e)))
