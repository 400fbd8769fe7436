-- ===== src/Cache.antt =====
-- platform/cache/cache.go and shelter/cache.go for one key: what Redis holds, what readers have in
-- flight between their read of the row and their SET, and the writers that have committed and not
-- yet sent their DEL. Times are nanoseconds. Several replicas may load one key at once: singleflight
-- joins the readers of one process only.
pub mod Staleness
pub mod Fresh
pub mod Shelters
pub mod Transparent
use crisis_link.Common.{
  ℕ, ◌+◌, ◌-◌, ◌*◌, ◌/◌, ◌^◌, ◌≤◌, ◌≡◌, Bool, true, false, Option, none, some, List, [], ◌∷◌, ◌++◌,
  ltb, ◌==◌, if◌then◌else◌,
}

abbrev pub second : ℕ
second = 1000000000

abbrev pub shelter_ttl : ℕ
shelter_ttl = 60 * second

-- rand.Float64 is a draw below 2^53 over 2^53.
abbrev pub max_draw : ℕ
max_draw = 2 ^ 53

unfoldable pub jitter : (draw ttl : ℕ) → ℕ
jitter draw ttl = if ttl == 0 then ttl else (ttl * 4 * max_draw + draw * 2 * ttl) / (5 * max_draw)

-- An entry under the key: `none` is bytes that do not decode.
pub record Entry (V : Type 0) : Type 0 where
  pub value : Option V
  pub expires_at : ℕ

-- A reader between its read of the row and its SET.
pub record Load (V : Type 0) : Type 0 where
  pub value : V
  pub read_at : ℕ

pub record State (V : Type 0) : Type 0 where
  pub now : ℕ
  -- What was committed and when, the newest first.
  pub commits : List (ℕ × V)
  pub entry : Option (Entry V)
  pub loads : List (Load V)
  -- Writers between their commit and their DEL.
  pub writers : ℕ

module _ {V : Type 0} where
  -- GET, where Redis answers.
  abbrev pub get_entry : ℕ → Option (Entry V) → Option (Entry V)
  get_entry now none = none
  get_entry now (some e) = if ltb now e.expires_at then some e else none

  abbrev pub decoded : Option (Entry V) → Option V
  decoded none = none
  decoded (some e) = e.value

  -- GetJSON: the value of a hit, and the entry after it; bytes that do not decode are deleted.
  unfoldable pub get_json : (up : Bool) → ℕ → Option (Entry V) → Option V × Option (Entry V)
  get_json false now entry = (none, entry)
  get_json true now entry = elim (get_entry now entry) [
    | none ↦ (none, entry)
    | some e ↦ elim e.value [ none ↦ (none, none) | some v ↦ (some v, entry) ]
  ]

  -- SetJSON
  unfoldable pub set_json :
      (up : Bool) → (draw now : ℕ) → V → (ttl : ℕ) → Option (Entry V) → Option (Entry V)
  unfolding jitter
  set_json up draw now v ttl entry =
      if up then some (record { value = some v; expires_at = now + jitter draw ttl }) else entry

  -- Del, and Invalidate
  unfoldable pub del : (up : Bool) → Option (Entry V) → Option (Entry V)
  del up entry = if up then none else entry

  -- The row that Postgres holds.
  abbrev pub row_of : List (ℕ × V) → Option V
  row_of [] = none
  row_of ((t, v) ∷ earlier) = some v

  -- A write that committed; its DEL is still to come.
  abbrev pub commit : V → State V → State V
  commit v s = record s { commits = (s.now, v) ∷ s.commits; writers = s.writers + 1 }

  unfoldable pub invalidate : (up : Bool) → State V → State V
  unfolding del
  invalidate up s = record s { entry = del up s.entry; writers = s.writers - 1 }

  -- GetOrLoad on a miss: the leader has read the row.
  abbrev pub begin_load : V → State V → State V
  begin_load v s = record s { loads = record { value = v; read_at = s.now } ∷ s.loads }

  -- The leader's SET, with the other loads that stay in flight.
  unfoldable pub backfill : (up : Bool) → (draw : ℕ) → Load V → List (Load V) → State V → State V
  unfolding set_json
  backfill up draw l others s = record s {
    entry = set_json up draw s.now l.value shelter_ttl s.entry;
    loads = others;
  }

  abbrev pub look_up : (up : Bool) → State V → State V
  look_up up s = record s { entry = (get_json up s.now s.entry).1 }

-- One step, where no reader stalls for longer than `stall` between its read and its SET.
pub data Step {V : Type 0} (stall : ℕ) (s : State V) : State V → Type 0 where
  elapses : (time : ℕ) → Step stall s (record s { now = s.now + time })
  commits : (v : V) → Step stall s (commit v s)
  invalidates : (up : Bool) → Step stall s (invalidate up s)
  looks_up : (up : Bool) → Step stall s (look_up up s)
  loads : (v : V) → row_of s.commits ≡ some v → Step stall s (begin_load v s)
  backfills :
      (up : Bool) (draw : ℕ) (l : Load V) (before rest : List (Load V))
      → s.loads ≡ before ++ l ∷ rest
      → s.now ≤ l.read_at + stall
      → draw ≤ max_draw
      → Step stall s (backfill up draw l (before ++ rest) s)
  gives_up :
      (l : Load V) (before rest : List (Load V))
      → s.loads ≡ before ++ l ∷ rest
      → Step stall s (record s { loads = before ++ rest })
  evicts : Step stall s (record s { entry = none })

pub data Reach {V : Type 0} (stall : ℕ) (s : State V) : State V → Type 0 where
  start : Reach stall s s
  later : {t u : State V} → Reach stall s t → Step stall t u → Reach stall s u
