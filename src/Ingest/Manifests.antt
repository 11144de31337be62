-- ===== src/Ingest/Manifests.antt =====
-- The count of processed files.
use mathlib.Core.Option
use mathlib.Core.Option.{some-injective}
use masu.Prelude.{nat_eq}
