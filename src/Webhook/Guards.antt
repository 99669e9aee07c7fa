-- ===== src/Webhook/Guards.antt =====
-- What the handler of a route has established when it fires the event.
use Prim.Native.String.{String, len}
use kickd.Prelude.{
  ℕ, ◌≤◌, ◌<◌, ◌≡◌, refl, Bool, true, false, not, ◌&&◌, ◌⊎◌, inl, inr, Option, none, some, arith,
  Bool-cases, string_eq, nat_eq, ◌==◌, ltb,
}
use kickd.Prelude.Ascii.{to_lower, trim_prefix}
use kickd.Event.{Outcome, Codec}
use kickd.Dispatch.State.{World}
use kickd.Webhook.Request.{Route, Request, Body, too_large, unreadable, read, read_body}
use kickd.Webhook.Auth.{token_of, check_token, signature_of, check_signature}
use kickd.Webhook.Serve.{
  Sent, allows, query_data, missing, webhook_event, fire, with_data, authorize, handle,
}

-- The request may fire the route's event.
pub record Admits (sign : String → String → String) (max_body : ℕ) (r : Route) (req : Request)
    : Type 0 where
  pub method : allows r req.method ≡ true
  pub size : len req.body ≤ max_body
  pub token : (r.token == "") ≡ false → token_of req ≡ r.token
  pub signature :
      (r.secret == "") ≡ false
      → to_lower (trim_prefix (signature_of req) "sha256=") ≡ sign r.secret req.body
  pub given : missing r.required (query_data r.params req.query) ≡ none

passed : (a b : Bool) → (not a && not b) ≡ false → a ≡ false → b ≡ true
passed true b h g = absurd cc
passed false true h g = refl
passed false false h g = absurd cc

check_token-eq :
    (req : Request) (token : String) → (check_token req token == "") ≡ true → token_of req ≡ token
unfolding check_token
check_token-eq req token = elim (Bool-cases (token_of req == "")) [
  | inl e ↦ rw e (λ h. absurd cc)
  | inr e ↦ rw e (elim (Bool-cases (token_of req == token)) [
    | inl f ↦ λ h. (string_eq.decides (token_of req) token).0 f
    | inr f ↦ rw f (λ h. absurd cc)
  ])
]

check_signature-eq :
    (sign : String → String → String) (req : Request) (body secret : String)
    → (check_signature sign req body secret == "") ≡ true
    → to_lower (trim_prefix (signature_of req) "sha256=") ≡ sign secret body
unfolding check_signature
check_signature-eq sign req body secret = elim (Bool-cases (signature_of req == "")) [
  | inl e ↦ rw e (λ h. absurd cc)
  | inr e ↦
      rw e
        (elim (Bool-cases
          (to_lower (trim_prefix (signature_of req) "sha256=") == sign secret body)) [
            | inl f ↦ λ h.
                (string_eq.decides (to_lower (trim_prefix (signature_of req) "sha256="))
                    (sign secret body)).0
                  f
            | inr f ↦ rw f (λ h. absurd cc)
          ])
]

module _ (sign : String → String → String) (codec : Codec) (arrives : ℕ → Option Outcome)
    (max_body : ℕ) (r : Route) (req : Request) (id : String) (w : World) where
  -- The event is fired for a request that the guards admit, or nothing happens and the caller is told.
  abbrev pub Guarded : Sent × World → Type 0
  Guarded x =
      (Admits sign max_body r req
        × (x
            ≡ fire sign codec arrives r id
                (webhook_event r req id req.body w.now (query_data r.params req.query)) w))
      ⊎ ((x.1 ≡ w) × (400 ≤ x.0.status) × (x.0.status < 500))

  read_body-cases :
      (read_body max_body req ≡ too_large)
      ⊎ ((read_body max_body req ≡ unreadable)
          ⊎ ((read_body max_body req ≡ read req.body) × (len req.body ≤ max_body)))
  unfolding read_body
  read_body-cases = elim (Bool-cases (ltb max_body (len req.body))) [
    | inl e ↦ rw e (inl refl)
    | inr e ↦ rw e (elim (Bool-cases req.broken) [
      | inl f ↦ rw f (inr (inl refl))
      | inr f ↦ rw f (inr (inr (refl, ground (arith, e))))
    ])
  ]

  with_data-Guarded :
      (o : Option String)
      → missing r.required (query_data r.params req.query) ≡ o
      → allows r req.method ≡ true
      → len req.body ≤ max_body
      → ((r.token == "") ≡ false → token_of req ≡ r.token)
      → ((r.secret == "") ≡ false
          → to_lower (trim_prefix (signature_of req) "sha256=") ≡ sign r.secret req.body)
      → Guarded (with_data sign codec arrives r req id req.body (query_data r.params req.query) w o)
  unfolding with_data
  with_data-Guarded (some name) e m s t g = inr (refl, omega arith, omega arith)
  with_data-Guarded none e m s t g =
      inl (record { method = m; size = s; token = t; signature = g; given = e }, refl)

  authorize-Guarded :
      (b : Body)
      → (b ≡ too_large) ⊎ ((b ≡ unreadable) ⊎ ((b ≡ read req.body) × (len req.body ≤ max_body)))
      → allows r req.method ≡ true
      → Guarded (authorize sign codec arrives r req id w b)
  unfolding authorize
  authorize-Guarded b (inl e) m = rw e (inr (refl, omega arith, omega arith))
  authorize-Guarded b (inr (inl e)) m = rw e (inr (refl, omega arith, omega arith))
  authorize-Guarded b (inr (inr (e, s))) m =
      rw e (elim (Bool-cases (not (r.token == "") && not (check_token req r.token == ""))) [
        | inl f ↦ rw f (inr (refl, omega arith, omega arith))
        | inr f ↦
            rw f
              (elim (Bool-cases
                (not (r.secret == "") && not (check_signature sign req req.body r.secret == ""))) [
                  | inl g ↦ rw g (inr (refl, omega arith, omega arith))
                  | inr g ↦ rw g (
                      with_data-Guarded (missing r.required (query_data r.params req.query)) refl m
                        s
                        (λ h.
                          check_token-eq req r.token
                            (passed (r.token == "") (check_token req r.token == "") f h))
                        (λ h. check_signature-eq sign req req.body r.secret (
                          passed (r.secret == "") (check_signature sign req req.body r.secret == "")
                            g h)))
                ])
      ])

  -- A request to a route either fires the event of the route once, and then the method is allowed, the
  -- body is within the limit, the token of the request is the token of the route where it has one, the
  -- signature fits the body where the route has a secret, and no required parameter is missing; or
  -- nothing changes and the answer is an error of the caller, with a status from 400 to 499.
  pub handle_guards : Guarded (handle sign codec arrives max_body r req id w)
  unfolding handle
  handle_guards = elim (Bool-cases (allows r req.method)) [
    | inl e ↦ rw e (authorize-Guarded (read_body max_body req) read_body-cases e)
    | inr e ↦ rw e (inr (refl, omega arith, omega arith))
  ]
