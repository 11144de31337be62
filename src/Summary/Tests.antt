-- ===== src/Summary/Tests.antt =====
-- Runs of the summary updaters.
use masu.Prelude.{ℕ, ◌≡◌, refl, none, some, [], ◌∷◌}
use masu.Summary.{
  Date, Moment, Range, Period, Provider, Manifest, Db, starts_on, last_day_of_month,
  get_bills_from_provider, aws_daily, aws_daily_summary, aws_tags, run,
}
use masu.Summary.Aws.{determine_if_full_summary_update_needed, get_sql_inputs, update_daily_tables}
use masu.Summary.Ocp
use masu.Summary.Task.{Clock, Done}

abbrev day : ℕ → ℕ → Date
day month d = record { year = 2019; month = month; day = d }

abbrev noon : Date → Moment
noon d = record { date = d; microsecond = 43200000000 }

abbrev bill : Period
bill = record {
  id = 3;
  provider_id = 4;
  period_start = day 2 1;
  summary_data_creation_datetime = none;
  summary_data_updated_datetime = none;
  finalized_datetime = none;
}

abbrev db : Db
db = record { bills = bill ∷ []; report_periods = []; log = [] }

abbrev provider : Provider
provider = record { id = 4; uuid = "u4"; provider_type = "AWS"; resource_name = "arn" }

abbrev manifest : Manifest
manifest = record {
  billing_period_start_datetime = noon (day 2 1);
  num_processed_files = 2;
  num_total_files = 2;
}

abbrev half : Manifest
half = record manifest { num_processed_files = 1 }

abbrev two_days : Range
two_days = record { start_date = day 2 13; end_date = day 2 14 }

abbrev february : Range
february = record { start_date = day 2 1; end_date = day 2 28 }

abbrev summarized : Db
summarized = record {
  bills =
      record bill {
        summary_data_creation_datetime = some (noon (day 2 14));
        summary_data_updated_datetime = some (noon (day 2 14));
      }
      ∷ [];
  report_periods = [];
  log = aws_daily_summary february (3 ∷ []) ∷ aws_tags ∷ [];
}

daily_test :
    update_daily_tables provider (some manifest) (noon (day 2 14)) db two_days
    ≡ some (february, run (aws_daily february (3 ∷ []) ∷ []) db)
unfolding update_daily_tables get_sql_inputs determine_if_full_summary_update_needed starts_on
    last_day_of_month get_bills_from_provider
daily_test = refl

-- An OpenShift manifest with no period yet has its whole month computed.
ocp_test : Ocp.get_sql_inputs provider (some half) db two_days ≡ february
unfolding Ocp.get_sql_inputs last_day_of_month
ocp_test = refl

abbrev ocp_provider : Provider
ocp_provider = record { id = 4; uuid = "u5"; provider_type = "OCP"; resource_name = "cluster" }

abbrev ocp_db : Db
ocp_db = record { bills = []; report_periods = bill ∷ []; log = [] }

abbrev clock : Clock
clock = record { today = noon (day 2 14); daily = noon (day 2 14); summary = noon (day 2 14) }

abbrev untouched : Done
untouched = record { db = db; charge_start = day 2 13; charge_end = none }
