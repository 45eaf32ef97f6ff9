-- ===== src/Ingestion/Validation.antt =====
-- backend/app/ingestion/validation.py: which event model a payload has to satisfy. The JSON decoder
-- and the pydantic models are third-party code, and stand in the parameter `Parser`.
use text.Mathlib.Text.{◌==◌ as str_eq}
use continuous_auth.Common.{ℕ, Bool, ◌||◌, Option, none, some, List, String, if◌then◌else◌}
use continuous_auth.Ingestion.Events.{
  EventKind, keyboard, mouse, context, heartbeat, app_registry, device_metadata, IngestedEvent,
}

pub data ValidationIssueCode : Type 0 where
  malformed_json invalid_event_schema : ValidationIssueCode

pub record ValidationIssue : Type 0 where
  pub code : ValidationIssueCode
  pub detail : String

-- Exactly one of the two fields of the source's `ValidationResult` is set.
pub data ValidationResult : Type 0 where
  valid : IngestedEvent → ValidationResult
  invalid : ValidationIssue → ValidationResult

-- The answer of `json.loads`: a document, one of the two exceptions that are caught, or another one.
pub data Loaded (D : Type 0) : Type 0 where
  document : D → Loaded D
  decode_error other_error : Loaded D

pub record Parser : Type 1 where
  pub Document : Type 0
  -- `json.loads`
  pub loads : List ℕ → Loaded Document
  -- `isinstance(document, dict)`
  pub is_dict : Document → Bool
  -- `document.get("type")`, if it is a string
  pub type_text : Document → Option String
  -- `model_validate` of the model of a class; `none` is a `ValidationError`
  pub model_validate : EventKind → Document → Option IngestedEvent

-- The model that an event type selects.
unfoldable pub model_of : String → Option EventKind
model_of t =
    if str_eq t "KEY_DOWN" || str_eq t "KEY_UP"
    then some keyboard
    else if str_eq t "MOVE" || str_eq t "BUTTON_DOWN" || str_eq t "BUTTON_UP" || str_eq t "SCROLL"
    then some mouse
    else if str_eq t "APP_FOCUS_CHANGE"
    then some context
    else if str_eq t "HEARTBEAT"
    then some heartbeat
    else if str_eq t "APP_REGISTRY"
    then some app_registry
    else if str_eq t "DEVICE_METADATA"
    then some device_metadata
    else none

abbrev pub schema_issue : String → ValidationResult
schema_issue detail = invalid (record { code = invalid_event_schema; detail = detail })

module _ (parser : Parser) where
  open parser use {Document, loads, is_dict, type_text, model_validate}

  checked : Option IngestedEvent → ValidationResult
  checked none = schema_issue "event does not satisfy the C1 schema"
  checked (some event) = valid event

  by_model : Option EventKind → Document → ValidationResult
  by_model none d = schema_issue "event type is not supported"
  by_model (some kind) d = checked (model_validate kind d)

  by_type : Option String → Document → ValidationResult
  by_type none d = schema_issue "event type is not a string"
  by_type (some t) d = by_model (model_of t) d

  -- none is an exception that escapes
  by_document : Loaded Document → Option ValidationResult
  by_document decode_error =
      some (invalid (record { code = malformed_json; detail = "payload is not valid UTF-8 JSON" }))
  by_document other_error = none
  by_document (document d) =
      if is_dict d
      then some (by_type (type_text d) d)
      else some (schema_issue "event payload must be a JSON object")

  unfoldable pub validate_payload : List ℕ → Option ValidationResult
  unfolding checked by_model by_type by_document
  validate_payload payload = by_document (loads payload)
