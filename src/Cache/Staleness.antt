-- ===== src/Cache/Staleness.antt =====
-- How stale a cached value can be, whatever is missed: the time to live is the backstop.
use crisis_link.Common.{
  ℕ, ◌+◌, ◌*◌, ◌≤◌, ◌<◌, ◌≡◌, ◌⊎◌, subst, sym, inl, inr, Bool, true, false, Option, none, some,
  List, [], ◌∷◌, ◌++◌, arith,
}
use crisis_link.Table.Every.{All, All-map}
use crisis_link.Cache.{
  State, Entry, Load, Step, Reach, jitter, max_draw, shelter_ttl, second, get_json, set_json, del,
  row_of, invalidate, backfill,
}

abbrev pub longest_ttl : ℕ
longest_ttl = 72 * second

-- An entry lives within a fifth of a minute of the minute that was asked for.
pub jitter-bounds :
    (draw : ℕ)
    → draw ≤ max_draw
    → (48 * second ≤ jitter draw shelter_ttl) × (jitter draw shelter_ttl ≤ longest_ttl)
unfolding jitter
jitter-bounds draw h = (omega arith, omega arith)

module _ {V : Type 0} where
  -- `v` was what Postgres held at the time `t`.
  abbrev pub WasCurrent : V → ℕ → List (ℕ × V) → Type 0
  WasCurrent v t [] = ⊥
  WasCurrent v t ((s, u) ∷ earlier) = ((s ≤ t) × (u ≡ v)) ⊎ ((t ≤ s) × WasCurrent v t earlier)

  abbrev pub Loaded : ℕ → List (ℕ × V) → Load V → Type 0
  Loaded now commits l = (l.read_at ≤ now) × WasCurrent l.value l.read_at commits

  -- A value that was read at a time and expires at most so long after it.
  abbrev pub Within : (stall now : ℕ) → List (ℕ × V) → V → ℕ → Type 0
  Within stall now commits v expires_at =
      (t : ℕ) × (t ≤ now) × WasCurrent v t commits × (expires_at ≤ t + stall + longest_ttl)

  abbrev pub BoundedValue : (stall now : ℕ) → List (ℕ × V) → Option V → ℕ → Type 0
  BoundedValue stall now commits none expires_at = Unit
  BoundedValue stall now commits (some v) expires_at = Within stall now commits v expires_at

  abbrev pub BoundedEntry : (stall now : ℕ) → List (ℕ × V) → Option (Entry V) → Type 0
  BoundedEntry stall now commits none = Unit
  BoundedEntry stall now commits (some e) = BoundedValue stall now commits e.value e.expires_at

  -- No commit is from the future.
  abbrev pub Past : ℕ → List (ℕ × V) → Type 0
  Past now [] = Unit
  Past now ((t, v) ∷ earlier) = t ≤ now

  pub record Bounded (stall : ℕ) (s : State V) : Type 0 where
    pub past : Past s.now s.commits
    pub in_flight : All (Loaded s.now s.commits) s.loads
    pub cached : BoundedEntry stall s.now s.commits s.entry

  pub All-part :
      (P : Load V → Type 0) (l : Load V) (before rest : List (Load V))
      → All P (before ++ l ∷ rest)
      → P l × All P (before ++ rest)
  All-part P l [] rest h = h
  All-part P l (b ∷ before) rest h =
      let (here, others) = All-part P l before rest h.1 in (here, (h.0, others))

  newest :
      (now : ℕ) (v : V) (cs : List (ℕ × V)) → Past now cs → row_of cs ≡ some v → WasCurrent v now cs
  newest now v [] p e = absurd (ground (arith, e))
  newest now v ((t, u) ∷ cs) p e = inl (p, ground (arith, e))

  module _ (stall : ℕ) where
    -- The same values at a later time.
    Past-later : (a b : ℕ) (cs : List (ℕ × V)) → a ≤ b → Past a cs → Past b cs
    Past-later a b [] h p = tt
    Past-later a b ((t, v) ∷ cs) h p = omega arith

    value-later :
        (a b x : ℕ) (cs : List (ℕ × V)) (o : Option V)
        → a ≤ b
        → BoundedValue stall a cs o x
        → BoundedValue stall b cs o x
    value-later a b x cs none h e = tt
    value-later a b x cs (some v) h (t, le, c, w) = (t, omega arith, c, w)

    entry-later :
        (a b : ℕ) (cs : List (ℕ × V)) (o : Option (Entry V))
        → a ≤ b
        → BoundedEntry stall a cs o
        → BoundedEntry stall b cs o
    entry-later a b cs none h e = tt
    entry-later a b cs (some e) h w = value-later a b e.expires_at cs e.value h w

    value-commit :
        (now x : ℕ) (v : V) (cs : List (ℕ × V)) (o : Option V)
        → BoundedValue stall now cs o x
        → BoundedValue stall now ((now, v) ∷ cs) o x
    value-commit now x v cs none e = tt
    value-commit now x v cs (some u) (t, le, c, w) = (t, le, inr (le, c), w)

    entry-commit :
        (now : ℕ) (v : V) (cs : List (ℕ × V)) (o : Option (Entry V))
        → BoundedEntry stall now cs o
        → BoundedEntry stall now ((now, v) ∷ cs) o
    entry-commit now v cs none e = tt
    entry-commit now v cs (some e) w = value-commit now e.expires_at v cs e.value w

    -- A lookup leaves the entry or drops it.
    pub get_json-cases :
        (up : Bool) (now : ℕ) (o : Option (Entry V))
        → ((get_json up now o).1 ≡ o) ⊎ ((get_json up now o).1 ≡ none)
    unfolding get_json
    get_json-cases up now o = ground arith

    dropped :
        (now : ℕ) (cs : List (ℕ × V)) (o o' : Option (Entry V))
        → (o' ≡ o) ⊎ (o' ≡ none)
        → BoundedEntry stall now cs o
        → BoundedEntry stall now cs o'
    dropped now cs o o' (inl e) w = subst (BoundedEntry stall now cs) (sym e) w
    dropped now cs o o' (inr e) w = subst (BoundedEntry stall now cs) (sym e) tt

    del-cases : (up : Bool) (o : Option (Entry V)) → (del up o ≡ o) ⊎ (del up o ≡ none)
    unfolding del
    del-cases up o = ground arith

    set_json-Bounded :
        (up : Bool) (draw now : ℕ) (l : Load V) (cs : List (ℕ × V)) (o : Option (Entry V))
        → draw ≤ max_draw
        → now ≤ l.read_at + stall
        → Loaded now cs l
        → BoundedEntry stall now cs o
        → BoundedEntry stall now cs (set_json up draw now l.value shelter_ttl o)
    unfolding set_json
    set_json-Bounded false draw now l cs o h q k w = w
    set_json-Bounded true draw now l cs o h q (le, c) w =
        (l.read_at, le, c, omega (arith, jitter-bounds draw h))

    Step-Bounded : (s s' : State V) → Step stall s s' → Bounded stall s → Bounded stall s'
    unfolding invalidate backfill
    Step-Bounded s _ (Step.elapses time) b = record {
      past = Past-later s.now (s.now + time) s.commits (omega arith) b.past;
      in_flight = All-map _ _ s.loads (λ l k. (omega (arith, k.0), k.1)) b.in_flight;
      cached = entry-later s.now (s.now + time) s.commits s.entry (omega arith) b.cached;
    }
    Step-Bounded s _ (Step.commits v) b = record {
      past = omega arith;
      in_flight = All-map _ _ s.loads (λ l k. (k.0, inr k)) b.in_flight;
      cached = entry-commit s.now v s.commits s.entry b.cached;
    }
    Step-Bounded s _ (Step.invalidates up) b = record {
      past = b.past;
      in_flight = b.in_flight;
      cached = dropped s.now s.commits s.entry _ (del-cases up s.entry) b.cached;
    }
    Step-Bounded s _ (Step.looks_up up) b = record {
      past = b.past;
      in_flight = b.in_flight;
      cached = dropped s.now s.commits s.entry _ (get_json-cases up s.now s.entry) b.cached;
    }
    Step-Bounded s _ (Step.loads v e) b = record {
      past = b.past;
      in_flight = ((omega arith, newest s.now v s.commits b.past e), b.in_flight);
      cached = b.cached;
    }
    Step-Bounded s _ (Step.backfills up draw l before rest e q h) b =
        let parts =
          All-part (Loaded s.now s.commits) l before rest
            (subst (All (Loaded s.now s.commits)) e b.in_flight) in
        record {
          past = b.past;
          in_flight = parts.1;
          cached = set_json-Bounded up draw s.now l s.commits s.entry h q parts.0 b.cached;
        }
    Step-Bounded s _ (Step.gives_up l before rest e) b = record {
      past = b.past;
      in_flight =
          (All-part (Loaded s.now s.commits) l before rest
            (subst (All (Loaded s.now s.commits)) e b.in_flight)).1;
      cached = b.cached;
    }
    Step-Bounded s _ Step.evicts b = record { past = b.past; in_flight = b.in_flight; cached = tt }

    Reach-Bounded : (s t : State V) → Reach stall s t → Bounded stall s → Bounded stall t
    Reach-Bounded s _ Reach.start b = b
    Reach-Bounded s _ (Reach.later {t} {u} r st) b = Step-Bounded t u st (Reach-Bounded s t r b)

    hit-live :
        (up : Bool) (now : ℕ) (e : Entry V) (v : V)
        → (get_json up now (some e)).0 ≡ some v
        → (e.value ≡ some v) × (now < e.expires_at)
    unfolding get_json
    hit-live up now e v h = ground (arith, h)

    hit-Within :
        (up : Bool) (now : ℕ) (cs : List (ℕ × V)) (o : Option (Entry V)) (v : V)
        → BoundedEntry stall now cs o
        → (get_json up now o).0 ≡ some v
        → (t : ℕ) × (t ≤ now) × (now < t + stall + longest_ttl) × WasCurrent v t cs
    unfolding get_json
    hit-Within up now cs none v w h = absurd (ground (arith, h))
    hit-Within up now cs (some e) v w h =
        let (same, live) = hit-live up now e v h in
        let (t, le, c, x) : Within stall now cs v e.expires_at =
          subst (λ o. BoundedValue stall now cs o e.expires_at) same w in
        (t, le, omega (arith, live, x), c)

    -- A hit answers what Postgres held at some time less than 72 seconds and the longest stall of a
    -- reader ago, whichever steps led to it: commits, invalidations that fail or never come, readers
    -- that stall between their read and their SET, and a Redis that loses the entry. What the entry
    -- held at the start was within the same bounds.
    pub hit_staleness :
        (s t : State V) (up : Bool) (v : V)
        → Bounded stall s
        → Reach stall s t
        → (get_json up t.now t.entry).0 ≡ some v
        → (since : ℕ) × (since ≤ t.now)
          × (t.now < since + stall + longest_ttl)
          × WasCurrent v since t.commits
    hit_staleness s t up v b r h =
        hit-Within up t.now t.commits t.entry v (Reach-Bounded s t r b).cached h
