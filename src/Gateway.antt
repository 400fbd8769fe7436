-- ===== src/Gateway.antt =====
-- cmd/gateway/main.go: the edge in front of the replicas, and the request id that it shares with them
-- (platform/middleware/requestid.go and servedby.go). Paths, headers and tokens are texts by their
-- bytes; the reverse proxy's transport is not modelled.
pub mod Turns
pub mod Edge
use crisis_link.Common.{
  ℕ, ◌+◌, ◌-◌, ◌%◌, ◌^◌, Bool, true, false, ◌&&◌, Option, none, some, List, [], ◌∷◌, ltb, ◌==◌,
  if◌then◌else◌, exists_in, not, zero, suc,
}
use crisis_link.Auth.{Crypto, Claims, split_at_space, token_of}
use crisis_link.RateLimit.{Verdict, passes_on, rate_limited}

-- targets[int(i-1) % len(targets)] after the atomic increment: the counter is a uint64, and the
-- index is taken of an int, whose remainder has its sign. `none` is the panic on a negative index
-- or on no targets.
abbrev pub word : ℕ
word = 2 ^ 64

abbrev pub max_int : ℕ
max_int = 2 ^ 63

abbrev pub index_of : (targets counter : ℕ) → Option ℕ
index_of targets counter =
    if targets == 0
    then none
    else if ltb counter max_int
    then some (counter % targets)
    else if (word - counter) % targets == 0
    then some 0
    else none

-- The index of one request, and the counter after it.
unfoldable pub next : (targets counter : ℕ) → Option ℕ × ℕ
next targets counter =
    let i = (counter + 1) % word in (index_of targets ((i + (word - 1)) % word), i)

-- The indices of some requests, one after the other.
abbrev pub picks : (targets counter requests : ℕ) → List (Option ℕ)
picks targets counter zero = []
picks targets counter (suc n) =
    let (index, counter') = next targets counter in index ∷ picks targets counter' n

abbrev pub has_prefix : List ℕ → List ℕ → Bool
has_prefix s [] = true
has_prefix [] (b ∷ p) = false
has_prefix (a ∷ s) (b ∷ p) = (a == b) && has_prefix s p

-- "/health", "/ready" and "/api/v1/auth/"
abbrev pub public_prefixes : List (List ℕ)
public_prefixes =
    (47 ∷ 104 ∷ 101 ∷ 97 ∷ 108 ∷ 116 ∷ 104 ∷ [])
    ∷ (47 ∷ 114 ∷ 101 ∷ 97 ∷ 100 ∷ 121 ∷ [])
    ∷ (47 ∷ 97 ∷ 112 ∷ 105 ∷ 47 ∷ 118 ∷ 49 ∷ 47 ∷ 97 ∷ 117 ∷ 116 ∷ 104 ∷ 47 ∷ [])
    ∷ []

unfoldable pub is_public : List ℕ → Bool
is_public path = exists_in (has_prefix path) public_prefixes

-- The header is empty where it is missing.
abbrev pub header_text : Option (List ℕ) → List ℕ
header_text none = []
header_text (some h) = h

abbrev pub is_verified : Option Claims → Bool
is_verified none = false
is_verified (some c) = true

-- edgeAuth: does the request pass on?
unfoldable pub edge_auth : Crypto → ℕ → (path : List ℕ) → Option (List ℕ) → Bool
unfolding is_public
edge_auth k now path header =
    if is_public path then true else elim (token_of (split_at_space (header_text header))) [
      | none ↦ false
      | some t ↦ is_verified (k.parse now t)
    ]

-- edgeRequestID and RequestID: an id that comes in is kept, and a fresh one is minted for none.
abbrev pub request_id : (minted inbound : List ℕ) → List ℕ
request_id minted [] = minted
request_id minted (b ∷ id) = b ∷ id

pub record Inbound : Type 0 where
  pub path : List ℕ
  pub authorization : Option (List ℕ)
  pub request_id : List ℕ

pub data Outcome : Type 0 where
  shed : (retry_after : ℕ) → Outcome
  unauthorized healthy metrics panicked : Outcome
  forwarded : (target : ℕ) → (request_id : List ℕ) → Outcome

abbrev pub to_target : List ℕ → Option ℕ → Outcome
to_target id none = Outcome.panicked
to_target id (some i) = Outcome.forwarded i id

abbrev pub same_path : List ℕ → List ℕ → Bool
same_path [] [] = true
same_path (a ∷ s) (b ∷ t) = (a == b) && same_path s t
same_path _ _ = false

abbrev pub health_path : List ℕ
health_path = 47 ∷ 104 ∷ 101 ∷ 97 ∷ 108 ∷ 116 ∷ 104 ∷ []

abbrev pub metrics_path : List ℕ
metrics_path = 47 ∷ 109 ∷ 101 ∷ 116 ∷ 114 ∷ 105 ∷ 99 ∷ 115 ∷ []

-- The end of the chain: a refusal, the gateway's own endpoints, and the proxy with its turn.
abbrev pub outcome_of :
    (refused own_health own_metrics : Bool) → List ℕ → (turn : Option ℕ × ℕ) → ℕ → Outcome × ℕ
outcome_of refused own_health own_metrics id (index, counter') counter =
    if refused
    then (Outcome.unauthorized, counter)
    else if own_health
    then (Outcome.healthy, counter)
    else if own_metrics
    then (Outcome.metrics, counter)
    else (to_target id index, counter')

-- The chain of main for one request (a GET, where the path is the gateway's own): the limiter's
-- verdict, and edgeAuth where it is on. The outcome, and the counter after it.
unfoldable pub handle_edge :
    (edge_auth_on : Bool)
    → Crypto
    → (now targets : ℕ) → (minted : List ℕ) → Verdict
    → Inbound
    → ℕ
    → Outcome × ℕ
unfolding edge_auth next
handle_edge edge_auth_on k now targets minted (rate_limited seconds) r counter =
    (Outcome.shed seconds, counter)
handle_edge edge_auth_on k now targets minted passes_on r counter =
    outcome_of (edge_auth_on && not (edge_auth k now r.path r.authorization))
      (same_path r.path health_path) (same_path r.path metrics_path)
      (request_id minted r.request_id) (next targets counter) counter
