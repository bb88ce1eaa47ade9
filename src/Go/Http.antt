-- ===== src/Go/Http.antt =====
-- Package net/http, as far as the handlers and the clients use it. Header keys are in canonical
-- form. A map from text to text, such as a header or the environment, is a list of pairs.
use ebpf_ssf_broker.Base.{
  ℕ, ◌≡◌, refl, Bool, false, ◌||◌, Option, List, [], ◌∷◌, ◌++◌, arith, if◌then◌else◌, Text, codes,
  text_eq, text_eq_iff, text_eq_refl,
}

abbrev pub Fields : Type 0
Fields = List (Text × Text)

-- The value of a key, "" where it is missing.
unfoldable pub field : Fields → Text → Text
field [] k = []
field ((j, v) ∷ h) k = if text_eq j k then v else field h k

-- The key is there.
unfoldable pub has_key : Fields → Text → Bool
has_key [] k = false
has_key ((j, v) ∷ h) k = text_eq j k || has_key h k

-- delete(h, k)
abbrev pub without : Text → Fields → Fields
without k [] = []
without k ((j, v) ∷ h) = let rest = without k h in if text_eq j k then rest else (j, v) ∷ rest

-- h.Set(k, v)
abbrev pub set_field : Fields → Text → Text → Fields
set_field h k v = (k, v) ∷ without k h

-- `body` is what io.ReadAll of the body returns, `none` an error.
pub record Request : Type 0 where
  pub method : Text
  pub headers : Fields
  pub body : Option Text

pub record Response : Type 0 where
  pub status : ℕ
  pub headers : Fields
  pub body : Text

abbrev pub method_get : Text
method_get = codes "GET"

abbrev pub method_post : Text
method_post = codes "POST"

abbrev pub status_ok : ℕ
status_ok = 200

abbrev pub status_accepted : ℕ
status_accepted = 202

abbrev pub status_bad_request : ℕ
status_bad_request = 400

abbrev pub status_method_not_allowed : ℕ
status_method_not_allowed = 405

abbrev pub status_internal_server_error : ℕ
status_internal_server_error = 500

-- http.Error(w, message, status), with the headers that were set before it.
abbrev pub http_error : Fields → Text → ℕ → Response
http_error headers message status = record {
  status = status;
  headers =
      set_field (set_field headers (codes "Content-Type") (codes "text/plain; charset=utf-8"))
        (codes "X-Content-Type-Options") (codes "nosniff");
  body = message ++ b'\n' ∷ [];
}

pub field-set_field_self : (h : Fields) (k v : Text) → field (set_field h k v) k ≡ v
unfolding field
field-set_field_self h k v = rw (text_eq_refl k)

field-without : (h : Fields) (k j : Text) → text_eq k j ≡ false → field (without k h) j ≡ field h j
unfolding field
field-without [] k j e = refl
field-without ((i, w) ∷ h) k j e =
    ground (arith, field-without h k j e, text_eq_iff i k, text_eq_iff i j, text_eq_iff k j)

pub field-set_field_ne :
    (h : Fields) (k j v : Text) → text_eq k j ≡ false → field (set_field h k v) j ≡ field h j
unfolding field
field-set_field_ne h k j v e = rw e (field-without h k j e)

pub has_key-without_self : (h : Fields) (k : Text) → has_key (without k h) k ≡ false
unfolding has_key
has_key-without_self [] k = refl
has_key-without_self ((j, v) ∷ h) k = ground (arith, has_key-without_self h k)
