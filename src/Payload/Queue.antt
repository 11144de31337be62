-- ===== src/Payload/Queue.antt =====
-- `handle_message` and `process_messages` of masu/external/kafka_msg_handler.py.
use masu.Prelude.{Bool, false, Option, none, some, List, [], ◌∷◌, ◌++◌, length, if◌then◌else◌}
use masu.Tables.Clean.{Text}
use masu.Payload.Files.{Details}
use masu.Payload.{Services, Extraction, returned, failed, raised, Disk, extract_payload}

-- A message, the JSON of which may lack a key.
pub record Message : Type 0 where
  pub is_hccm : Bool
  pub url : Option Text
  pub request_id : Option Text

pub data Status : Type 0 where
  success failure : Status

-- What `handle_message` returns: a status and a report's details, each of which may be None.
abbrev pub Handled : Type 0
Handled = Extraction (Option Status × Option Details) × Disk

abbrev pub handled : Extraction Details × Disk → Handled
handled (returned details, d) = (returned (some success, some details), d)
handled (failed, d) = (returned (some failure, none), d)
handled (raised, d) = (raised, d)

abbrev pub handle_url : Services → Option Text → Disk → Handled
handle_url s none d = (raised, d)
handle_url s (some url) d = handled (extract_payload s url d)

-- `handle_message`
unfoldable pub handle_message : Services → Message → Disk → Handled
handle_message s msg d = if msg.is_hccm then handle_url s msg.url d else (returned (none, none), d)

-- The listener: the confirmations that were sent, the reports that were given to `process_report`,
-- whose exceptions are caught, and whether the task still runs.
pub record Listener : Type 0 where
  pub disk : Disk
  pub confirmed : List (Text × Status)
  pub reports : List Details
  pub is_running : Bool

abbrev pub stopped : Disk → Listener → Listener
stopped d l = record l { disk = d; is_running = false }

abbrev pub confirm : Services → Option Text → Status → Listener → Listener
confirm s none status l = record l { is_running = false }
confirm s (some request_id) status l =
    if s.sends (length l.confirmed)
    then record l { confirmed = l.confirmed ++ (request_id, status) ∷ [] }
    else record l { is_running = false }

abbrev pub confirm_if : Services → Option Text → Option Status → Listener → Listener
confirm_if s request_id none l = l
confirm_if s request_id (some status) l = confirm s request_id status l

abbrev pub process_if : Option Details → Listener → Listener
process_if none l = l
process_if (some details) l =
    if l.is_running then record l { reports = l.reports ++ details ∷ [] } else l

abbrev pub after_handling : Services → Option Text → Handled → Listener → Listener
after_handling s request_id (returned (status, details), d) l =
    process_if details (confirm_if s request_id status (record l { disk = d }))
after_handling s request_id (failed, d) l = stopped d l
after_handling s request_id (raised, d) l = stopped d l

-- One turn of `process_messages`: an exception ends the task.
unfoldable pub process_message : Services → Message → Listener → Listener
unfolding handle_message
process_message s msg l =
    if l.is_running then after_handling s msg.request_id (handle_message s msg l.disk) l else l

-- `process_messages`, on the messages that arrive.
unfoldable pub process_messages : Services → List Message → Listener → Listener
unfolding process_message
process_messages s [] l = l
process_messages s (msg ∷ msgs) l = process_messages s msgs (process_message s msg l)
