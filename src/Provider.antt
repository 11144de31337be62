-- ===== src/Provider.antt =====
-- The provider types and the ingest method of each (masu/external/__init__.py,
-- masu/util/common.py).
pub mod Status
pub mod Json
use masu.Prelude.{String, Option, List, [], ◌∷◌, lookup, contains, string_eq, Bool}

abbrev pub amazon_web_services : String
amazon_web_services = "AWS"

abbrev pub openshift_container_platform : String
openshift_container_platform = "OCP"

abbrev pub aws_local_service_provider : String
aws_local_service_provider = "AWS-local"

abbrev pub ocp_local_service_provider : String
ocp_local_service_provider = "OCP-local"

abbrev pub poll_ingest : String
poll_ingest = "poll-ingest"

abbrev pub listen_ingest : String
listen_ingest = "listen-ingest"

abbrev pub ingest_map : List (String × String)
ingest_map =
    (amazon_web_services, poll_ingest)
    ∷ (aws_local_service_provider, poll_ingest)
    ∷ (ocp_local_service_provider, poll_ingest)
    ∷ (openshift_container_platform, listen_ingest)
    ∷ []

unfoldable pub ingest_method_for_provider : String → Option String
unfolding lookup
ingest_method_for_provider provider = lookup provider ingest_map

-- `provider in (AMAZON_WEB_SERVICES, AWS_LOCAL_SERVICE_PROVIDER)`, the test of every factory.
abbrev pub is_aws : String → Bool
is_aws provider = contains (amazon_web_services ∷ aws_local_service_provider ∷ []) provider

abbrev pub is_ocp : String → Bool
is_ocp provider = contains (openshift_container_platform ∷ ocp_local_service_provider ∷ []) provider
