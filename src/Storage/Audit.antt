-- ===== src/Storage/Audit.antt =====
-- backend/app/storage/audit.py: the hash chain of `AuditLog`. JSON values are a parameter, and the
-- SHA-256 of the canonical JSON of a record is the parameter `digest`. A file is the list of its
-- lines; a line that is no JSON object is none. Files stand under their names; their order does not
-- matter to what raises. A write that stops just before the end of its line is left out.
pub mod Chain
pub mod Appends
pub mod Sound
mod Tests
use continuous_auth.Common.{
  Bool, true, false, not, ◌||◌, Option, none, some, List, [], ◌∷◌, ◌++◌, String, same_text,
  is_empty, concat, lookup, store, remove, if◌then◌else◌,
}

-- JSON values: `isinstance(value, str)`, the value of a text, and what `json.loads` reads of the
-- canonical JSON of a value, such as a text in the place of a key that is none.
pub record Json : Type 1 where
  pub J : Type 0
  pub text : J → Option String
  pub of_text : String → J
  pub reread : J → J

abbrev pub Object : Json → Type 0
Object N = List (String × N.J)

abbrev pub genesis_hash : String
genesis_hash = "0000000000000000000000000000000000000000000000000000000000000000"

-- What becomes of the write of a line: an OSError comes before its first byte, inside it, or after
-- its last byte, in `fsync` or `restrict_file`. A file that was not created stands as one without
-- lines.
pub data Writing : Type 0 where
  complete refused torn unsynced : Writing

pub data AppendResult : Type 0 where
  appended : String → AppendResult
  integrity_error unavailable_error : AppendResult

pub record AuditLog (N : Json) : Type 0 where
  pub files : List (String × List (Option (Object N)))
  pub record_ids : List String

-- The arguments of `append`.
pub record Entry (N : Json) : Type 0 where
  pub event_type : String
  pub occurred_at_utc : String
  pub correlation_id : String
  pub payload : N.J
  pub record_id : Option String

abbrev pub member : String → List String → Bool
member x [] = false
member x (y ∷ ys) = same_text y x || member x ys

unfoldable pub usable_id : List String → Option String → Option String
unfolding is_empty
usable_id ids none = none
usable_id ids (some id) = if is_empty id || member id ids then none else some id

-- `record_id or str(uuid.uuid4())`
unfoldable pub resolve_id : Option String → String → String
unfolding is_empty
resolve_id none minted = minted
resolve_id (some id) minted = if is_empty id then minted else id

module _ (N : Json) where
  -- `record.get(key) == s`
  unfoldable pub has_text : Option N.J → String → Bool
  has_text none s = false
  has_text (some j) s = elim (N.text j) [ none ↦ false | some t ↦ same_text t s ]

  -- The id of a record, if it is a text, not empty and new.
  unfoldable pub fresh_id : List String → Option N.J → Option String
  unfolding usable_id
  fresh_id ids none = none
  fresh_id ids (some j) = usable_id ids (N.text j)

  unfoldable pub unsigned : Entry N → String → String → String → Object N
  unsigned e id logged_at previous_hash =
      ("audit_schema_version", N.of_text "1.0.0")
      ∷ ("record_id", N.of_text id)
      ∷ ("event_type", N.of_text e.event_type)
      ∷ ("occurred_at_utc", N.of_text e.occurred_at_utc)
      ∷ ("logged_at_utc", N.of_text logged_at)
      ∷ ("correlation_id", N.of_text e.correlation_id)
      ∷ ("payload", e.payload)
      ∷ ("previous_hash", N.of_text previous_hash)
      ∷ []

  -- The record as it is read back.
  unfoldable pub reread : Object N → Object N
  reread [] = []
  reread ((key, value) ∷ r) = (key, N.reread value) ∷ reread r

  -- The lines of the file after the write.
  unfoldable pub written : Writing → Object N → List (Option (Object N)) → List (Option (Object N))
  unfolding reread
  written complete r lines = lines ++ some (reread r) ∷ []
  written refused r lines = lines
  written torn r lines = lines ++ none ∷ []
  written unsynced r lines = lines ++ some (reread r) ∷ []

  unfoldable pub lines_of : Option (List (Option (Object N))) → List (Option (Object N))
  lines_of none = []
  lines_of (some lines) = lines

  unfoldable pub finish_write : Writing → String → AuditLog N → AppendResult × AuditLog N
  finish_write complete id log = (appended id, record log { record_ids = id ∷ log.record_ids })
  finish_write refused id log = (unavailable_error, log)
  finish_write torn id log = (unavailable_error, log)
  finish_write unsynced id log = (unavailable_error, log)

  unfoldable pub write_record :
      Writing → String → String → Object N → AuditLog N → AppendResult × AuditLog N
  unfolding written lines_of finish_write
  write_record w path id r log =
      finish_write w id (record log {
        files = store path (written w r (lines_of (lookup path log.files))) log.files;
      })

abbrev pub path_of : String → String
path_of date = concat "audit-" (concat date ".jsonl")

module _ (N : Json) (digest : Object N → String) where
  -- The body of the loop of `_verify_file`: the hash of the record and its id.
  unfoldable pub verify_record : String → List String → Object N → Option (String × String)
  unfolding has_text fresh_id
  verify_record previous_hash ids r =
      let actual_hash = digest (remove "record_hash" r) in
      if not (has_text N (lookup "previous_hash" r) previous_hash)
        || not (has_text N (lookup "record_hash" r) actual_hash)
      then none
      else elim (fresh_id N ids (lookup "record_id" r)) [
        | none ↦ none
        | some id ↦ some (actual_hash, id)
      ]

  unfoldable pub verify_line : String → List String → Option (Object N) → Option (String × String)
  unfolding verify_record
  verify_line previous_hash ids none = none
  verify_line previous_hash ids (some r) = verify_record previous_hash ids r

  -- The loop: none where it raises StorageIntegrityError.
  unfoldable pub verify_lines :
      String → List String → List (Option (Object N)) → Option (String × List String)
  unfolding verify_line
  verify_lines previous_hash ids [] = some (previous_hash, ids)
  verify_lines previous_hash ids (l ∷ ls) = elim (verify_line previous_hash ids l) [
    | none ↦ none
    | some (hash, id) ↦ verify_lines hash (id ∷ ids) ls
  ]

  unfoldable pub verify_file : List (Option (Object N)) → Option (String × List String)
  unfolding verify_lines
  verify_file lines = verify_lines genesis_hash [] lines

  -- The previous hash for a new record: a file that does not exist begins a chain.
  unfoldable pub last_hash : Option (List (Option (Object N))) → Option String
  unfolding verify_file
  last_hash none = some genesis_hash
  last_hash (some lines) = elim (verify_file lines) [ none ↦ none | some (hash, ids) ↦ some hash ]

  unfoldable pub signed : Object N → Object N
  signed r = r ++ ("record_hash", N.of_text (digest r)) ∷ []

  -- `append`, on the day `date` of the clock reading `logged_at`
  unfoldable pub append :
      Entry N → String → String → String → Writing → AuditLog N → AppendResult × AuditLog N
  unfolding resolve_id last_hash unsigned signed write_record
  append e minted date logged_at w log =
      let id = resolve_id e.record_id minted in
      let path = path_of date in
      if member id log.record_ids
      then (appended id, log)
      else elim (last_hash (lookup path log.files)) [
        | none ↦ (integrity_error, log)
        | some hash ↦ write_record N w path id (signed (unsigned N e id logged_at hash)) log
      ]
