-- ===== src/Webhook/Request.antt =====
-- Requests and routes, and what the server reads of a request before it serves the route.
use Prim.Native.Char.{Char}
use Prim.Native.String.{String, len}
use kickd.Prelude.{
  ℕ, Bool, ◌||◌, ◌&&◌, not, Option, none, some, List, [], ◌∷◌, if◌then◌else◌, ltb, nat_eq,
  string_eq, ◌==◌,
}
use kickd.Prelude.Map.{Map, lookup}
use kickd.Prelude.Ascii.{is_letter, is_digit, is_char, all_chars}
use kickd.Dispatch.State.{World, new_id}

-- WebhookRoute
pub record Route : Type 0 where
  pub event : String
  pub path : String
  pub methods : List String
  pub token : String
  pub secret : String
  pub wait : Bool
  pub params : List String
  pub required : List String

-- The headers are stored under their canonical names. `broken` says that the connection breaks after
-- the body.
pub record Request : Type 0 where
  pub method : String
  pub path : String
  pub remote_addr : String
  pub headers : Map String (List String)
  pub query : Map String (List String)
  pub body : String
  pub broken : Bool

abbrev pub first_of : Option (List String) → String
first_of none = ""
first_of (some []) = ""
first_of (some (x ∷ xs)) = x

-- Header.Get and Values.Get: the first value, or nothing.
abbrev pub get : String → Map String (List String) → String
get key values = first_of (lookup key values)

-- What io.ReadAll gives of http.MaxBytesReader.
pub data Body : Type 0 where
  too_large unreadable : Body
  read : String → Body

unfoldable pub read_body : ℕ → Request → Body
read_body max_body req =
    if ltb max_body (len req.body)
    then too_large
    else if req.broken
    then unreadable
    else read req.body

-- The characters that a request's own ID may have.
abbrev pub is_id_char : Char → Bool
is_id_char c =
    is_letter c
    || is_digit c
    || is_char b'-' c
    || is_char b'_' c
    || is_char b'.' c
    || is_char b':' c

abbrev pub is_safe_id : String → Bool
is_safe_id h = not (len h == 0 || ltb 128 (len h)) && all_chars is_id_char h

-- requestIDFrom
unfoldable pub request_id_from : String → World → String × World
request_id_from h w = if is_safe_id h then (h, w) else new_id w
