-- ===== src/Lib.antt =====
-- masu downloads cost and usage reports of AWS and OpenShift, reads them into a PostgreSQL
-- database, and computes summaries and charges from them. This library models the decisions of its
-- parts over explicit tables, and proves what they leave in those tables.
--
-- How the parts interact: the Kafka listener lays OpenShift payloads where their downloader looks;
-- the orchestrator asks the accounts which providers to poll and the provider status which of them
-- may be downloaded now; the task of a provider asks its downloader for the reports of some months
-- and processes the downloaded files, records each file's start and completion and counts it in
-- its manifest, and removes the old files; for each manifest of the processed files, complete or
-- not, the summary updaters fill the daily and summary tables of a range of dates, and the charge
-- updater adds the charges; the retention part removes what has expired, and the handlers of the
-- API queue the same tasks by request, or start the orchestrator on a notification of AWS.
--
-- The files, and the code that they are about:
--   Provider: the provider types and ingest methods (masu/external/__init__.py,
--     masu/util/common.py). Json is `stringify_json_data` of masu/util/common.py.
--   Provider/Status: the status row (masu/providers/status.py,
--     masu/database/provider_status_accessor.py). `set_status`, `set_error`, `is_valid` and
--     `is_backing_off` are the methods of these names; Lifecycle has the sequences of attempts and
--     Backoff the times.
--   Orchestrator: `get_accounts` and `prepare` of masu/processor/orchestrator.py, with
--     masu/external/accounts_accessor.py and masu/external/accounts/db/cur_accounts_db.py. Network
--     has the accounts of masu/external/accounts/network/cur_accounts_network.py, and Labels the
--     account names of masu/external/account_label.py,
--     masu/external/accounts/labels/aws/aws_account_alias.py and
--     masu/database/account_alias_accessor.py.
--   Ingest: `get_report_files` (masu/processor/tasks.py), `process_report_file`
--     (masu/processor/_tasks/process.py), the rows of masu/database/report_stats_db_accessor.py
--     and masu/database/report_manifest_db_accessor.py. Chain has `summarize_reports` and
--     `update_all_summary_tables` of masu/processor/tasks.py, after the processing of the files.
--   Summary: `Aws` and `Ocp` (masu/processor/aws/aws_report_summary_updater.py,
--     masu/processor/ocp/ocp_report_summary_updater.py), with Stamps, Months and Periods on their
--     repetition, `update_cloud_tables` (masu/processor/ocp/ocp_cloud_summary_updater.py) and
--     `Task` (masu/processor/report_summary_updater.py and its task in masu/processor/tasks.py).
--   Charge: `normalize_tier`, `calculate_variable_charge`, `update_pod_charge` and
--     `update_storage_charge` of masu/processor/ocp/ocp_report_charge_updater.py, the rates of
--     masu/database/ocp_rate_db_accessor.py, and the two updates in masu/database/sql. Dispatch
--     has masu/processor/report_charge_updater.py and
--     masu/processor/aws/aws_report_charge_updater.py.
--   Retention: masu/processor/expired_data_remover.py, masu/processor/aws/aws_report_db_cleaner.py
--     and masu/processor/ocp/ocp_report_db_cleaner.py. Expiry computes the date of expiration,
--     with the calendar written out, and Months says how far back it lies.
--   ReportFiles: `remove_temp_cur_files` of masu/processor/aws/aws_report_processor.py and
--     masu/processor/ocp/ocp_report_processor.py (Removal, Scanning and Leftovers), and the choice
--     of a processor, `_detect_report_type` and `_set_processor` of
--     masu/processor/report_processor.py (Columns).
--   Labels: `process_pod_labels`, the method `_process_pod_labels` of
--     masu/processor/ocp/ocp_report_processor.py; Printed has the texts that it reads back.
--   Tables: rows under unique keys and the caches of their ids, which both report processors use
--     (masu/database/report_db_accessor_base.py); Clean has `clean_data`.
--   OcpReport: `process` and the methods that it calls
--     (masu/processor/ocp/ocp_report_processor.py), with `merge_temp_table` of
--     masu/database/ocp_report_db_accessor.py. Items has the data of a line item, Sheet the work
--     row by row, which knows no batches, Rows compares the two, Filed finds each row in the
--     tables, and Links is about the references between the tables.
--   AwsReport: `process` (masu/processor/aws/aws_report_processor.py). Row reads a row of the
--     file, Bills, Objects and Entries create what a row names, LineItems and Batches are about
--     the line items, Errors about the rows that raise, and Readable, Returns, Unique and Runs
--     about the files on which `process` returns.
--   Notification: `post_notification` of masu/api/notification.py with the handlers of
--     masu/external/notification_handler.py and
--     masu/external/notifications/aws/aws_notification_handler.py.
--   CurDownload: `download_file` of masu/external/downloader/aws/aws_report_downloader.py, with
--     the names of masu/util/aws/common.py and the UUIDs of masu/util/common.py.
--   Downloads: masu/external/report_downloader.py over the interface of
--     masu/external/downloader/downloader_interface.py, which the downloaders of
--     masu/external/downloader/aws_local (AwsLocal) and of OpenShift (Ocp) fill. Aws has the
--     report definitions and manifests of masu/external/downloader/aws/aws_report_downloader.py,
--     and Task `_get_report_files` of masu/processor/_tasks/download.py.
--   Payload: `extract_payload` and, in Queue, `handle_message` and `process_messages`
--     (masu/external/kafka_msg_handler.py), and in Report `process_report` and its lookups; Files
--     has the names of masu/util/ocp/common.py, and Download the downloader of
--     masu/external/downloader/ocp/ocp_report_downloader.py with the manifests of
--     masu/external/downloader/report_downloader_base.py. Copies, Arrival and Found follow a
--     payload to the downloader, Confirmed and Stuck the task.
--   Api: `report_data` and `remove_report_data` of masu/api/report_data.py. Others has
--     masu/api/expired_data.py, masu/api/update_charge.py, `remove_expired_report_data` of
--     masu/processor/orchestrator.py and the task of masu/processor/_tasks/remove_expired.py,
--     Simulated what a simulated removal answers, and CeleryStatus the status of Celery and the
--     commit of masu/api/status.py.
--   Prelude: the names that the modules share, lists, dictionaries and signed integers.
--
-- A table is a list of its rows, in the order in which a query returns them, and an operation
-- returns the tables that it leaves; a column that no modelled code reads is left out. An
-- exception is a value of the result. Times are numbers of microseconds, read once for each use
-- and passed in; a date of the summaries has year, month and day. Amounts are integers, in units
-- of 10^-9 for a `Decimal` and 10^-18 for a charge, so that products are exact; digits of a
-- `Decimal` below 10^-9 are dropped. The loops run over lists, texts, days or months, so that the
-- definitions recurse on these, and no fuel is needed.
--
-- Parameters: what PostgreSQL keeps of a charge in `numeric(24,6)`, the directory test of
-- `poll_ingest_override_for_provider`, the jitter of `random.randint`, the type that
-- `ProviderDBAccessor` finds of a uuid, and the outcome of the processor on a file; `strptime` and
-- Python's `int`, `float` and `Decimal` on a text (`Conversions`), the unique columns of the
-- pricing table, which the database declares (`pricing_columns`); HTTP, the SNS service, S3's
-- `get_object`, tar, JSON, the hash of a file's name, the report definitions of an AWS account,
-- its aliases and the session of its role, what a manifest's text parses to, the listing of
-- `os.walk`, dateutil's parser, the answers of the Koku service and of the Celery broker, and
-- whether a confirmation is sent. A run of a report processor that raises is `none`: what its
-- earlier batches have committed is left out. Two unique columns are not equal where one is null,
-- as in PostgreSQL. A directory is the list of its parts, none of which has a slash.
--
-- Not modelled: the opening of CSV files and the temporary files that rows pass through, the
-- connection to Kafka and its retries, sessions and reflection of SQLAlchemy, the SQL that fills
-- the summary tables, masu/api/download.py and the rest of masu/api/status.py, the reading of an
-- ARN, Celery, Flask, logging and configuration. Nearly all of it calls a library, the network or
-- the database, and decides nothing on what they return.
pub mod Api
pub mod Charge
pub mod CurDownload
pub mod Downloads
pub mod Ingest
pub mod Labels
pub mod OcpReport
pub mod AwsReport
pub mod Notification
pub mod Orchestrator
pub mod Payload
pub mod Provider
pub mod ReportFiles
pub mod Retention
pub mod Summary
pub mod Tables
pub mod Prelude
