-- ===== src/Webhook/Auth.antt =====
-- checkToken, checkSignature and flatten of webhook.go.
use Prim.Native.String.{String}
use kickd.Prelude.{Bool, false, ◌||◌, List, [], ◌∷◌, if◌then◌else◌, string_eq, ◌==◌}
use kickd.Prelude.Map.{Map, insert}
use kickd.Prelude.Ascii.{has_prefix, trim_prefix, to_lower, equal_fold}
use kickd.Webhook.Request.{Request, get}

abbrev pub or_else : String → String → String
or_else a b = if a == "" then b else a

abbrev pub bearer : String → String
bearer a = if has_prefix a "Bearer " then trim_prefix a "Bearer " else ""

-- The token of the request: the bearer token, the header or the query parameter.
unfoldable pub token_of : Request → String
token_of req =
    or_else (or_else (bearer (get "Authorization" req.headers)) (get "X-Kickd-Token" req.headers))
      (get "token" req.query)

-- checkToken: the reason of a failure, or nothing.
unfoldable pub check_token : Request → String → String
check_token req token =
    let got = token_of req in
    if got == "" then "token_missing" else if got == token then "" else "token_mismatch"

-- The signature of the request, and the header that it was read from.
abbrev pub signature_of : Request → String
signature_of req =
    or_else (get "X-Hub-Signature-256" req.headers) (get "X-Kickd-Signature" req.headers)

-- checkSignature. `sign` is the hexadecimal HMAC-SHA256 of a body, in lower case.
unfoldable pub check_signature : (String → String → String) → Request → String → String → String
check_signature sign req body secret =
    let sig = signature_of req in
    if sig == ""
    then "signature_missing"
    else if to_lower (trim_prefix sig "sha256=") == sign secret body
    then ""
    else "signature_mismatch"

unfoldable pub is_dropped : String → List String → Bool
is_dropped k [] = false
is_dropped k (d ∷ ds) = equal_fold k d || is_dropped k ds

-- flatten: the first value of each key that is not dropped.
unfoldable pub flatten : Map String (List String) → List String → Map String String
flatten [] drop = []
flatten ((k, []) ∷ rest) drop = flatten rest drop
flatten ((k, v ∷ vs) ∷ rest) drop =
    let others = flatten rest drop in if is_dropped k drop then others else insert k v others
