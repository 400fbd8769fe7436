-- ===== src/Cache/Fresh.antt =====
-- When the cache agrees with Postgres: the writers commit first and then DELETE, no reader is between
-- its read and its SET while one commits, and Redis answers the DELs.
use crisis_link.Common.{
  ℕ, ◌≡◌, ◌⊎◌, subst, sym, inl, inr, Bool, true, false, Option, none, some, List, [], ◌∷◌, arith,
}
use crisis_link.Table.Every.{All}
use crisis_link.Cache.{
  State, Entry, Load, Step, get_json, set_json, del, row_of, shelter_ttl, decoded, invalidate,
  backfill,
}
use crisis_link.Cache.Staleness.{All-part, get_json-cases}

module _ {V : Type 0} (stall : ℕ) where
  -- A step of writers that meet no reader in flight and whose DELs are answered.
  abbrev pub Calm : (s t : State V) → Step stall s t → Type 0
  Calm s _ (Step.commits v) = s.loads ≡ []
  Calm s _ (Step.invalidates up) = up ≡ true
  Calm s _ _ = Unit

  pub data CalmReach (s : State V) : State V → Type 0 where
    start : CalmReach s s
    later : {t u : State V} → CalmReach s t → (x : Step stall t u) → Calm t u x → CalmReach s u

  -- A cached value, if there is one, is what Postgres holds.
  abbrev pub Agrees : List (ℕ × V) → Option V → Type 0
  Agrees cs none = Unit
  Agrees cs (some v) = row_of cs ≡ some v

  pub record Coherent (s : State V) : Type 0 where
    pub in_flight : All (λ l. row_of s.commits ≡ some l.value) s.loads
    pub cached : s.writers ≡ 0 → Agrees s.commits (decoded s.entry)

  dropped :
      (cs : List (ℕ × V)) (o o' : Option (Entry V))
      → (o' ≡ o) ⊎ (o' ≡ none)
      → Agrees cs (decoded o)
      → Agrees cs (decoded o')
  dropped cs o o' (inl e) w = subst (λ x. Agrees cs (decoded x)) (sym e) w
  dropped cs o o' (inr e) w = subst (λ x. Agrees cs (decoded x)) (sym e) tt

  set_json-Agrees :
      (up : Bool) (draw now : ℕ) (v : V) (cs : List (ℕ × V)) (o : Option (Entry V))
      → row_of cs ≡ some v
      → Agrees cs (decoded o)
      → Agrees cs (decoded (set_json up draw now v shelter_ttl o))
  unfolding set_json
  set_json-Agrees false draw now v cs o e w = w
  set_json-Agrees true draw now v cs o e w = e

  Step-Coherent : (s t : State V) (x : Step stall s t) → Calm s t x → Coherent s → Coherent t
  unfolding invalidate backfill del
  Step-Coherent s _ (Step.elapses time) c k = record { in_flight = k.in_flight; cached = k.cached }
  Step-Coherent s _ (Step.commits v) c k = record {
    in_flight = subst (All (λ l. row_of ((s.now, v) ∷ s.commits) ≡ some l.value)) (sym c) tt;
    cached = λ none_left. absurd (omega (arith, none_left));
  }
  Step-Coherent s _ (Step.invalidates true) c k = record {
    in_flight = k.in_flight;
    cached = λ e. tt;
  }
  Step-Coherent s _ (Step.invalidates false) c k = absurd (ground (arith, c))
  Step-Coherent s _ (Step.looks_up up) c k = record {
    in_flight = k.in_flight;
    cached = λ e. dropped s.commits s.entry _ (get_json-cases stall up s.now s.entry) (k.cached e);
  }
  Step-Coherent s _ (Step.loads v e) c k = record {
    in_flight = (e, k.in_flight);
    cached = k.cached;
  }
  Step-Coherent s _ (Step.backfills up draw l before rest e q h) c k =
      let P : Load V → Type 0 = λ l. row_of s.commits ≡ some l.value in
      let parts = All-part P l before rest (subst (All P) e k.in_flight) in
      record {
        in_flight = parts.1;
        cached = λ w. set_json-Agrees up draw s.now l.value s.commits s.entry parts.0 (k.cached w);
      }
  Step-Coherent s _ (Step.gives_up l before rest e) c k =
      let P : Load V → Type 0 = λ l. row_of s.commits ≡ some l.value in
      record {
        in_flight = (All-part P l before rest (subst (All P) e k.in_flight)).1;
        cached = k.cached;
      }
  Step-Coherent s _ Step.evicts c k = record { in_flight = k.in_flight; cached = λ e. tt }

  CalmReach-Coherent : (s t : State V) → CalmReach s t → Coherent s → Coherent t
  CalmReach-Coherent s _ CalmReach.start k = k
  CalmReach-Coherent s _ (CalmReach.later {t} {u} r x c) k =
      Step-Coherent t u x c (CalmReach-Coherent s t r k)

  hit-decoded :
      (up : Bool) (now : ℕ) (o : Option (Entry V)) (v : V)
      → (get_json up now o).0 ≡ some v
      → decoded o ≡ some v
  unfolding get_json
  hit-decoded up now none v h = absurd (ground (arith, h))
  hit-decoded up now (some e) v h = ground (arith, h)

  -- Whenever no writer stands between its commit and its DEL, a hit answers what Postgres holds at
  -- that time, if until then no writer committed while a reader was between its read and its SET
  -- and Redis answered the DELs, and if the entry and the readers in flight agreed with Postgres at
  -- the start; entries that expire, are lost or fail to be written do no harm.
  pub calm_hit_current :
      (s t : State V) (up : Bool) (v : V)
      → Coherent s
      → CalmReach s t
      → t.writers ≡ 0
      → (get_json up t.now t.entry).0 ≡ some v
      → row_of t.commits ≡ some v
  calm_hit_current s t up v k r w h =
      subst (Agrees t.commits) (hit-decoded up t.now t.entry v h)
        ((CalmReach-Coherent s t r k).cached w)
