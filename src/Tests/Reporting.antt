-- ===== src/Tests/Reporting.antt =====
-- Reports of incidents on the sample database.
use crisis_link.Common.{ℕ, ◌≡◌, refl, suc, true}
use crisis_link.Common.Int.{ℤ, pos}
use crisis_link.Store.Rows.{Db}
use crisis_link.Store.Tx.{ok, after}
use crisis_link.Geo.{validate_lat_lng}
use crisis_link.Incidents.{
  CreateIncidentInput, create_incident, try_dedupe, severity_of, add_report,
}
use crisis_link.Incidents.Reports.{reports, create_incident_counts}
use crisis_link.Tests.Sample.{sample, flood_10}

abbrev flat : ℤ → ℤ → ℤ → ℤ → ℕ
flat lat lng lat' lng' = 80

abbrev flood_report : CreateIncidentInput
flood_report = record {
  reporter_id = 8;
  title = "Flood";
  description = "";
  severity = "high";
  latitude = pos 12500000;
  longitude = pos 77500000;
}

-- Fifteen minutes have not passed: the report is the second one of an open incident.
merged : Db
merged =
    after (record sample { now = 100 })
      (create_incident flat 12 flood_report (record sample { now = 100 }))

merge_answer :
    create_incident flat 12 flood_report (record sample { now = 100 })
    ≡ ok (((10, add_report 100 flood_10), true), merged)
unfolding merged create_incident try_dedupe severity_of validate_lat_lng
merge_answer = refl

create_incident_counts_example : reports merged ≡ suc (reports sample)
create_incident_counts_example =
    create_incident_counts flat 12 flood_report (record sample { now = 100 }) merged
      ((10, add_report 100 flood_10), true) (refl, (refl, tt)) merge_answer
