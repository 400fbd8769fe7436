-- ===== src/Gateway/Edge.antt =====
-- What the gateway lets through (edgeAuth, edgeRequestID and the chain of main in
-- cmd/gateway/main.go), against what the replicas ask for.
use crisis_link.Common.{
  ℕ, ◌+◌, ◌%◌, ◌<◌, ◌≡◌, ◌≢◌, ◌↔◌, ◌⊎◌, refl, ap, subst, ◌∙◌, inl, inr, Bool, not, true, false,
  Option, none, some, List, [], ◌∷◌, arith, Option-cases, Bool-cases,
}
use crisis_link.Auth.{Crypto, Claims, authenticate, split_at_space, token_of}
use crisis_link.RateLimit.{Verdict, passes_on, rate_limited}
use crisis_link.Gateway.{
  max_int, is_public, is_verified, edge_auth, request_id, Inbound, Outcome, handle_edge, outcome_of,
  same_path, health_path, metrics_path,
}
use crisis_link.Gateway.Turns.{next_lem}

-- The edge and the replica ask the same of a header.
edge_auth-authenticate :
    (k : Crypto) (now : ℕ) (path : List ℕ) (header : Option (List ℕ))
    → is_public path ≡ false
    → edge_auth k now path header ≡ is_verified (authenticate k now header)
unfolding edge_auth authenticate
edge_auth-authenticate k now path none p = rw p refl
edge_auth-authenticate k now path (some h) p = elim (Option-cases (token_of (split_at_space h))) [
  | inl e ↦ rw (p, e, authenticate) refl
  | inr (t, e) ↦ rw (p, e, authenticate) refl
]

-- The edge lets a request pass if and only if its path is public or a replica would accept its
-- token at that time: it refuses nothing that a replica accepts.
pub edge_auth_iff :
    (k : Crypto) (now : ℕ) (path : List ℕ) (header : Option (List ℕ))
    → (edge_auth k now path header ≡ true)
      ↔ ((is_public path ≡ true) ⊎ ((claims : Claims) × (authenticate k now header ≡ some claims)))
edge_auth_iff k now path header = elim (Bool-cases (is_public path)) [
  | inl public ↦ (λ h. inl public, λ h. unfold edge_auth in rw public refl)
  | inr private ↦ elim (Option-cases (authenticate k now header)) [
    | inl e ↦ (
      λ h. absurd (ground (arith, h, e, edge_auth-authenticate k now path header private)),
      λ h. absurd (ground (arith, h, e, private)),
    )
    | inr (claims, e) ↦ (
      λ h. inr (claims, e),
      λ h. edge_auth-authenticate k now path header private ∙ ap is_verified e,
    )
  ]
]

-- What a replica's own edge of the chain keeps: an id that is not empty.
pub request_id_kept :
    (minted inbound again : List ℕ)
    → minted ≢ []
    → request_id again (request_id minted inbound) ≡ request_id minted inbound
request_id_kept [] [] again h = absurd (h refl)
request_id_kept (b ∷ minted) [] again h = refl
request_id_kept minted (b ∷ inbound) again h = refl

of_not : (b : Bool) → not b ≡ false → b ≡ true
of_not b h = ground arith

outcome_of-forwarded :
    (refused own_health own_metrics : Bool) (sent id : List ℕ) (i c' c t c'' : ℕ)
    → outcome_of refused own_health own_metrics sent (some i, c') c ≡ (Outcome.forwarded t id, c'')
    → (refused ≡ false) × (t ≡ i) × (c'' ≡ c') × (id ≡ sent)
outcome_of-forwarded refused own_health own_metrics sent id i c' c t c'' h = ground arith

-- A request that the gateway forwards, with edge authentication on, passed the limiter, and its path
-- is public or a replica accepts its token at that time; it goes to the replica whose turn it is and
-- uses up that turn, and it carries an id that the replica keeps, where a fresh id is not empty.
-- Fewer than 2⁶³ requests were forwarded before.
pub forwarded_lem :
    (k : Crypto) (now targets counter t counter' : ℕ) (minted again id : List ℕ) (v : Verdict)
    (r : Inbound)
    → 0 < targets
    → counter < max_int
    → minted ≢ []
    → handle_edge true k now targets minted v r counter ≡ (Outcome.forwarded t id, counter')
    → (v ≡ passes_on)
      × ((is_public r.path ≡ true)
          ⊎ ((claims : Claims) × (authenticate k now r.authorization ≡ some claims)))
      × (t ≡ counter % targets)
      × (counter' ≡ counter + 1)
      × (request_id again id ≡ id)
unfolding handle_edge
forwarded_lem k now targets counter t counter' minted again id (rate_limited n) r p small named h =
    ground arith
forwarded_lem k now targets counter t counter' minted again id passes_on r p small named h =
    let refused : Bool = not (edge_auth k now r.path r.authorization) in
    let health : Bool = same_path r.path health_path in
    let own : Bool = same_path r.path metrics_path in
    let sent : List ℕ = request_id minted r.request_id in
    let taken =
      subst (λ x. outcome_of refused health own sent x counter ≡ (Outcome.forwarded t id, counter'))
        (next_lem targets counter p small) h in
    let (passed, to, after_it, carried) =
      outcome_of-forwarded refused health own sent id (counter % targets) (counter + 1) counter t
        counter' taken in
    (
      refl,
      (edge_auth_iff k now r.path r.authorization).0 (of_not _ passed),
      to,
      after_it,
      rw carried (request_id_kept minted r.request_id again named),
    )
