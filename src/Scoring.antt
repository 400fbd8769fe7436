-- ===== src/Scoring.antt =====
-- internal/scoring: the ranking of units, in exact fractions where the source has floats. A score of
-- 1.0 is `score_scale`; a distance is in metres, a routed one in tenths of a metre.
pub mod Allocation
use crisis_link.Common.{
  ℕ, ◌+◌, ◌-◌, ◌*◌, ◌≤◌, ◌<◌, ◌≡◌, ◌≢◌, Bool, true, false, Option, none, some, arith, if◌then◌else◌,
}
use crisis_link.Store.Rows.{UnitType, Severity}

-- The average speeds are 13.9, 16.7, 11.1 and 11.1 metres in a second.
abbrev pub avg_speed : UnitType → ℕ
avg_speed UnitType.ambulance = 139
avg_speed UnitType.police = 167
avg_speed UnitType.fire = 111
avg_speed UnitType.rescue = 111

-- 139 * 167 * 111, which each speed divides.
abbrev pub speed_product : ℕ
speed_product = 2576643

abbrev pub slowness : UnitType → ℕ
slowness UnitType.ambulance = 18537
slowness UnitType.police = 15429
slowness UnitType.fire = 23213
slowness UnitType.rescue = 23213

pub speed_slowness : (t : UnitType) → avg_speed t * slowness t ≡ speed_product
speed_slowness t = ground arith

unfoldable pub routing_distance : ℕ → ℕ
routing_distance straight_line = straight_line * 13

-- Seconds, in parts of `speed_product`.
unfoldable pub eta : ℕ → UnitType → ℕ
eta routed unit_type = routed * slowness unit_type

-- The falloff of 900 seconds, which is a time score of 1.0.
abbrev pub time_scale : ℕ
time_scale = 2318978700

-- In percent.
pub record Weights : Type 0 where
  pub time : ℕ
  pub skill : ℕ

unfoldable pub weights_for_severity : Severity → Weights
weights_for_severity Severity.critical = record { time = 85; skill = 15 }
weights_for_severity Severity.high = record { time = 75; skill = 25 }
weights_for_severity Severity.medium = record { time = 60; skill = 40 }
weights_for_severity Severity.low = record { time = 50; skill = 50 }

pub record Need : Type 0 where
  pub severity : Severity
  pub required_type : Option UnitType

pub record Breakdown : Type 0 where
  pub time_score : ℕ
  pub skill_score : ℕ
  pub weights : Weights
  pub distance_meters : ℕ
  pub routing_distance_meters : ℕ
  pub eta_seconds : ℕ
  pub severity : Severity
  pub required_type : Option UnitType
  pub unit_type : UnitType

abbrev same_type : UnitType → UnitType → Bool
same_type UnitType.ambulance UnitType.ambulance = true
same_type UnitType.fire UnitType.fire = true
same_type UnitType.rescue UnitType.rescue = true
same_type UnitType.police UnitType.police = true
same_type _ _ = false

abbrev pub matches_need : Option UnitType → UnitType → Bool
matches_need none t = true
matches_need (some r) t = same_type t r

-- In percent; a mismatch is worth 0.30.
unfoldable pub skill_score : Option UnitType → UnitType → ℕ
skill_score required t = if matches_need required t then 100 else 30

-- The subtraction stops at 0, which is the clamp.
unfoldable pub time_score : ℕ → UnitType → ℕ
unfolding routing_distance eta
time_score distance t = time_scale - eta (routing_distance distance) t

abbrev pub score_scale : ℕ
score_scale = 23189787000000

unfoldable pub total : Weights → ℕ → ℕ → ℕ
total w time skill = w.time * time * 100 + w.skill * skill * time_scale

-- ScoreUnit
unfoldable pub score_unit : ℕ → UnitType → Need → ℕ × Breakdown
unfolding time_score skill_score total weights_for_severity routing_distance eta
score_unit distance t need =
    let w = weights_for_severity need.severity in
    let time = time_score distance t in
    let skill = skill_score need.required_type t in
    (
      total w time skill,
      record {
        time_score = time;
        skill_score = skill;
        weights = w;
        distance_meters = distance;
        routing_distance_meters = routing_distance distance;
        eta_seconds = eta (routing_distance distance) t;
        severity = need.severity;
        required_type = need.required_type;
        unit_type = t;
      },
    )

-- The score of a unit is at most 1.
pub score_unit_bounds :
    (distance : ℕ) (t : UnitType) (need : Need) → (score_unit distance t need).0 ≤ score_scale
unfolding score_unit
score_unit_bounds distance t need = ground arith

-- Of two units of one type the nearer one never scores lower.
pub score_unit_mono :
    (d d' : ℕ) (t : UnitType) (need : Need)
    → d ≤ d'
    → (score_unit d' t need).0 ≤ (score_unit d t need).0
unfolding score_unit
score_unit_mono d d' t need h = ground arith

-- At equal travel times the type that the incident requires scores strictly higher than any other,
-- at every severity.
pub score_unit_specialist :
    (d d' : ℕ) (r t : UnitType) (severity : Severity)
    → r ≢ t
    → time_score d r ≡ time_score d' t
    → (score_unit d' t (record { severity = severity; required_type = some r })).0
      < (score_unit d r (record { severity = severity; required_type = some r })).0
unfolding score_unit
score_unit_specialist d d' r t severity other same = ground arith
