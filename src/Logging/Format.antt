-- ===== src/Logging/Format.antt =====
-- app/observability.py: JsonFormatter and log_event. The line is its JSON object; the text of the time
-- and the JSON encoding are the library's.
use ai_serving_backend.Prelude.{
  String, ◌≡◌, Bool, false, Option, none, some, str_eq, if◌then◌else◌, Bool-cases, inl, inr,
}
use ai_serving_backend.Logging.{
  Value, scalar, Fields, no_fields, field, sanitize_fields, AreClean, sanitize-AreClean, IsClean,
}

-- payload[key] = v
unfoldable pub put_field : String → Value → Fields → Fields
put_field key v no_fields = field key v no_fields
put_field key v (field k w fields) =
    if str_eq k key then field k v fields else field k w (put_field key v fields)

-- payload.update(fields)
unfoldable pub update : Fields → Fields → Fields
unfolding put_field
update payload no_fields = payload
update payload (field k v fields) = update (put_field k v payload) fields

pub record LogRecord : Type 0 where
  pub levelname : String
  pub name : String
  pub message : String
  -- the attribute, if it is there and is a dictionary
  pub extra_fields : Option Fields
  -- the class of the exception, if there is one
  pub exception_class : Option String

-- log_event
unfoldable pub log_event : String → String → Fields → LogRecord
log_event name event fields = record {
  levelname = "INFO";
  name = name;
  message = event;
  extra_fields = some fields;
  exception_class = none;
}

abbrev own_fields : String → LogRecord → Fields
own_fields timestamp r = field "timestamp" (scalar timestamp) (
    field "level" (scalar r.levelname)
      (field "logger" (scalar r.name) (field "message" (scalar r.message) no_fields)))

module _ (is_secret : String → Bool) where
  abbrev with_extra : Option Fields → Fields → Fields
  with_extra none payload = payload
  with_extra (some extra) payload = update payload (sanitize_fields is_secret extra)

  abbrev with_exception : Option String → Fields → Fields
  with_exception none payload = payload
  with_exception (some class_name) payload = put_field "exception_class" (scalar class_name) payload

  -- JsonFormatter.format
  unfoldable pub format : String → LogRecord → Fields
  unfolding put_field update sanitize_fields
  format timestamp r =
      with_exception r.exception_class (with_extra r.extra_fields (own_fields timestamp r))

  put_field-AreClean :
      (key : String) (v : Value) (fields : Fields)
      → is_secret key ≡ false
      → IsClean is_secret v
      → AreClean is_secret fields
      → AreClean is_secret (put_field key v fields)
  unfolding put_field AreClean
  put_field-AreClean key v no_fields h k clean = (h, k, tt)
  put_field-AreClean key v (field j w fields) h k clean = elim (Bool-cases (str_eq j key)) [
    | inl same ↦ rw same (clean.0, k, clean.2)
    | inr other ↦ rw other (clean.0, clean.1, put_field-AreClean key v fields h k clean.2)
  ]

  update-AreClean :
      (payload fields : Fields)
      → AreClean is_secret payload
      → AreClean is_secret fields
      → AreClean is_secret (update payload fields)
  unfolding update AreClean
  update-AreClean payload no_fields h k = h
  update-AreClean payload (field j v fields) h k =
      update-AreClean (put_field j v payload) fields (put_field-AreClean j v payload k.0 k.1 h) k.2

  -- The secret pattern finds none of the formatter's own keys.
  pub record OwnKeysAreFine : Type 0 where
    pub timestamp : is_secret "timestamp" ≡ false
    pub level : is_secret "level" ≡ false
    pub logger : is_secret "logger" ≡ false
    pub message : is_secret "message" ≡ false
    pub exception_class : is_secret "exception_class" ≡ false

  with_extra-AreClean :
      (extra : Option Fields) (payload : Fields)
      → AreClean is_secret payload
      → AreClean is_secret (with_extra extra payload)
  with_extra-AreClean none payload h = h
  with_extra-AreClean (some extra) payload h =
      update-AreClean payload _ h (sanitize-AreClean is_secret extra)

  with_exception-AreClean :
      (class_name : Option String) (payload : Fields)
      → is_secret "exception_class" ≡ false
      → AreClean is_secret payload
      → AreClean is_secret (with_exception class_name payload)
  unfolding IsClean
  with_exception-AreClean none payload k h = h
  with_exception-AreClean (some c) payload k h = put_field-AreClean _ (scalar c) payload k tt h

  -- No key of a log line is one that the secret pattern finds, at any depth, whatever the extra fields
  -- are, if it finds none of the formatter's own.
  pub format-AreClean :
      (timestamp : String) (r : LogRecord)
      → OwnKeysAreFine
      → AreClean is_secret (format timestamp r)
  unfolding format AreClean IsClean
  format-AreClean timestamp r own =
      with_exception-AreClean r.exception_class _ own.exception_class (
        with_extra-AreClean r.extra_fields (own_fields timestamp r)
          (own.timestamp, tt, (own.level, tt, (own.logger, tt, (own.message, tt, tt)))))
