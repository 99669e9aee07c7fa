-- ===== src/Webhook/Privacy.antt =====
-- What the payload of an event carries of the request that fired it.
use Prim.Native.String.{String}
use kickd.Prelude.{
  ℕ, ◌≡◌, refl, true, false, inl, inr, none, some, List, [], ◌∷◌, arith, Bool-cases, string_eq,
  ◌==◌, ◌∙◌, ap, sym, contains,
}
use kickd.Prelude.Map.{Map, lookup, lookup-insert}
use kickd.Event.{WebhookInfo}
use kickd.Webhook.Request.{Route, Request, get}
use kickd.Webhook.Auth.{is_dropped, flatten}
use kickd.Webhook.Serve.{query_data, webhook_event}

lookup-flatten_dropped :
    (k : String) (m : Map String (List String)) (drop : List String)
    → is_dropped k drop ≡ true
    → lookup k (flatten m drop) ≡ none
unfolding flatten lookup
lookup-flatten_dropped k [] drop h = refl
lookup-flatten_dropped k ((j, []) ∷ rest) drop h = lookup-flatten_dropped k rest drop h
lookup-flatten_dropped k ((j, v ∷ vs) ∷ rest) drop h =
    let tail = lookup-flatten_dropped k rest drop h in
    elim (Bool-cases (is_dropped j drop)) [
      | inl e ↦ rw e tail
      | inr e ↦ rw e (
          lookup-insert j k v (flatten rest drop)
          ∙ ground (arith, string_eq.decides j k, h, e, tail))
    ]

lookup-flatten_kept :
    (k : String) (m : Map String (List String)) (drop : List String) (v : String) (vs : List String)
    → is_dropped k drop ≡ false
    → lookup k m ≡ some (v ∷ vs)
    → lookup k (flatten m drop) ≡ some v
unfolding flatten lookup
lookup-flatten_kept k [] drop v vs h f = absurd (cc)
lookup-flatten_kept k ((j, []) ∷ rest) drop v vs h f = elim (Bool-cases (j == k)) [
  | inl e ↦ absurd (ground (arith, e, f))
  | inr e ↦ lookup-flatten_kept k rest drop v vs h (ground (arith, e, f))
]
lookup-flatten_kept k ((j, x ∷ xs) ∷ rest) drop v vs h f = elim (Bool-cases (j == k)) [
  | inl e ↦
      let same : j ≡ k = (string_eq.decides j k).0 e in
      let kept : is_dropped j drop ≡ false = rw same h in
      rw kept (lookup-insert j k x (flatten rest drop) ∙ ground (arith, e, f))
  | inr e ↦
      let tail = lookup-flatten_kept k rest drop v vs h (ground (arith, e, f)) in
      elim (Bool-cases (is_dropped j drop)) [
        | inl d ↦ rw d tail
        | inr d ↦ rw d (lookup-insert j k x (flatten rest drop) ∙ ground (arith, e, tail))
      ]
]

lookup-query_data :
    (names : List String) (query : Map String (List String)) (k v : String)
    → lookup k (query_data names query) ≡ some v
    → (contains names k ≡ true) × (v ≡ get k query)
unfolding query_data lookup
lookup-query_data [] query k v h = absurd cc
lookup-query_data (name ∷ rest) query k v h = elim (Bool-cases (get name query == "")) [
  | inl e ↦ let (a, b) = lookup-query_data rest query k v (rw e at h) in (ground (arith, a), b)
  | inr e ↦
      let h' = sym (lookup-insert name k (get name query) (query_data rest query)) ∙ (rw e at h) in
      elim (Bool-cases (name == k)) [
        | inl f ↦
            let same : name ≡ k = (string_eq.decides name k).0 f in
            (rw f refl, some_eq (sym (rw f at h')) ∙ ap (λ n. get n query) same)
        | inr f ↦
            let (a, b) = lookup-query_data rest query k v (rw f at h') in (ground (arith, a), b)
      ]
]
  where
    some_eq : {x y : String} → some x ≡ some y → x ≡ y
    some_eq e = cc

-- The first values of the request's headers and query parameters without the credentials, and as
-- data the query parameters that the route declares.
pub record IsScrubbed (r : Route) (req : Request) (values : Map String String) (info : WebhookInfo)
    : Type 0 where
  pub header_gone :
      (k : String)
      → is_dropped k ("Authorization" ∷ "X-Kickd-Token" ∷ []) ≡ true
      → lookup k info.headers ≡ none
  pub token_gone : (k : String) → is_dropped k ("token" ∷ []) ≡ true → lookup k info.query ≡ none
  pub header_kept :
      (k v : String) (vs : List String)
      → is_dropped k ("Authorization" ∷ "X-Kickd-Token" ∷ []) ≡ false
      → lookup k req.headers ≡ some (v ∷ vs)
      → lookup k info.headers ≡ some v
  pub query_kept :
      (k v : String) (vs : List String)
      → is_dropped k ("token" ∷ []) ≡ false
      → lookup k req.query ≡ some (v ∷ vs)
      → lookup k info.query ≡ some v
  pub data_declared :
      (k v : String)
      → lookup k values ≡ some v
      → (contains r.params k ≡ true) × (v ≡ get k req.query)

-- The webhook part of the event that the handler fires for a request carries the first value of every
-- header and query parameter, under the same name, except of the headers Authorization and
-- X-Kickd-Token and of the parameter token, in whatever case they are spelled: of those it has none.
-- The data of the event are values of query parameters that the route declares, and no others: the
-- parameter token is among them only where the route declares a parameter of that name.
pub webhook_event-IsScrubbed :
    (r : Route) (req : Request) (id body : String) (now : ℕ)
    → let ev = webhook_event r req id body now (query_data r.params req.query) in
      (info : WebhookInfo) × ((ev.webhook ≡ some info) × IsScrubbed r req ev.data_map info)
unfolding webhook_event
webhook_event-IsScrubbed r req id body now = (
  _,
  (
    refl,
    record {
      header_gone =
          λ k. lookup-flatten_dropped k req.headers ("Authorization" ∷ "X-Kickd-Token" ∷ []);
      token_gone = λ k. lookup-flatten_dropped k req.query ("token" ∷ []);
      header_kept =
          λ k v vs. lookup-flatten_kept k req.headers ("Authorization" ∷ "X-Kickd-Token" ∷ []) v vs;
      query_kept = λ k v vs. lookup-flatten_kept k req.query ("token" ∷ []) v vs;
      data_declared = lookup-query_data r.params req.query;
    },
  ),
)
