-- ===== src/Storage/Audit/Tests.antt =====
-- An audit log of backend/app/storage/audit.py whose JSON values are texts, and whose hash of a
-- record is the id of the record.
use continuous_auth.Common.{
  ◌≡◌, ◌≢◌, refl, ap, same_text, Option, none, some, List, [], ◌∷◌, String, All, lookup, remove,
  is_empty, arith,
}
use continuous_auth.Storage.Audit.{
  Json, Object, AuditLog, appended, integrity_error, Writing, complete, refused, unsynced, Entry,
  genesis_hash, verify_file, append, has_text, usable_id, fresh_id, verify_record, verify_line,
  verify_lines, last_hash, unsigned, signed, reread, written, lines_of, resolve_id, finish_write,
  write_record,
}
use continuous_auth.Storage.Audit.Chain.{bodies, IsCollisionFree, verify_file_unique}
use continuous_auth.Storage.Audit.Sound.{
  Call, IsRegular, IsSound, no_files, append_all, append_all_verifies,
}

abbrev texts : Json
texts = record { J = String; text = λ s. some s; of_text = λ s. s; reread = λ s. s }

abbrev text_or_blank : Option String → String
text_or_blank none = ""
text_or_blank (some s) = s

abbrev digest : Object texts → String
digest r = text_or_blank (lookup "record_id" r)

abbrev entry : Option String → Entry texts
entry id = record {
  event_type = "decision";
  occurred_at_utc = "t";
  correlation_id = "c";
  payload = "p";
  record_id = id;
}

abbrev call : String → String → Writing → Call texts
call id date w = record {
  entry = entry (some id);
  minted = "m";
  date = date;
  logged_at = "t";
  writing = w;
}

abbrev calls : List (Call texts)
calls =
    call "a" "2026-01-01" complete
    ∷ call "b" "2026-01-01" refused
    ∷ call "a" "2026-01-02" complete
    ∷ call "" "2026-01-02" complete
    ∷ call "b" "2026-01-01" complete
    ∷ []

calls-IsRegular : All IsRegular calls
unfolding is_empty
calls-IsRegular = ground arith

append_all_verifies_example : IsSound texts digest (append_all texts digest calls (no_files texts))
append_all_verifies_example =
    append_all_verifies texts digest (λ s. refl) (λ s. refl) calls calls-IsRegular

abbrev log : AuditLog texts
log = append_all texts digest calls (no_files texts)

-- The first day holds two records, the repeated id and the refused write have left none.
known : log.record_ids ≡ "b" ∷ "m" ∷ "a" ∷ []
unfolding append_all append resolve_id last_hash verify_file verify_lines verify_line verify_record
    has_text fresh_id usable_id unsigned signed reread written lines_of finish_write write_record
known = refl

abbrev first : Object texts
first = ("record_id", "a") ∷ ("previous_hash", genesis_hash) ∷ ("record_hash", "a") ∷ []

abbrev moved : Object texts
moved = ("record_hash", "a") ∷ ("record_id", "a") ∷ ("previous_hash", genesis_hash) ∷ []

apart : digest (remove "record_hash" first) ≢ genesis_hash
apart e = absurd (ground (arith, ap (λ s. same_text s genesis_hash) e))

free :
    IsCollisionFree texts digest
      (bodies texts [] (some first ∷ []))
      (bodies texts [] (some moved ∷ []))
free = (((λ e. refl, tt), tt), (apart, tt), (apart, tt))

first_verified : verify_file texts digest (some first ∷ []) ≡ some ("a", "a" ∷ [])
unfolding verify_file verify_lines verify_line verify_record has_text fresh_id usable_id
first_verified = refl

moved_verified : verify_file texts digest (some moved ∷ []) ≡ some ("a", "a" ∷ [])
unfolding verify_file verify_lines verify_line verify_record has_text fresh_id usable_id
moved_verified = refl

verify_file_unique_example : bodies texts [] (some first ∷ []) ≡ bodies texts [] (some moved ∷ [])
verify_file_unique_example =
    verify_file_unique texts digest (some first ∷ []) (some moved ∷ []) "a" ("a" ∷ []) ("a" ∷ [])
      free first_verified moved_verified

-- A record whose write fails in `fsync` is in the file, but its id is not known. The caller that
-- tries again is answered as if all were well, and the file has the id twice, so that it no longer
-- passes the verification and the next call raises.
abbrev retried : AuditLog texts
retried =
    append_all texts digest (call "a" "2026-01-01" unsynced ∷ call "a" "2026-01-01" complete ∷ [])
      (no_files texts)

retry_breaks :
    (append texts digest
      (entry (some "a"))
      "m"
      "2026-01-01"
      "t"
      complete
      (append texts digest (entry (some "a")) "m" "2026-01-01" "t" unsynced (no_files texts)).1).0
    ≡ appended "a"
unfolding append resolve_id last_hash verify_file verify_lines verify_line verify_record has_text
    fresh_id usable_id unsigned signed reread written lines_of finish_write write_record
retry_breaks = refl

next_raises :
    (append texts digest (entry (some "b")) "m" "2026-01-01" "t" complete retried).0
    ≡ integrity_error
unfolding append_all append resolve_id last_hash verify_file verify_lines verify_line verify_record
    has_text fresh_id usable_id unsigned signed reread written lines_of finish_write write_record
next_raises = refl
