-- ===== src/Payload/Stuck.antt =====
-- A payload without a manifest.
use masu.Prelude.{◌≡◌, refl, ap, ◌∙◌, true, some, List, [], ◌∷◌, ◌++◌}
use masu.Tables.Clean.{Text}
use masu.Payload.{
  Services, Archive, failed, raised, Disk, received, mkdtemp, rmtree, manifest_paths, archive_name,
  open_manifest, unpack, fetched, extract_payload,
}
use masu.Payload.Queue.{
  Message, handled, handle_url, handle_message, Listener, stopped, after_handling, process_message,
  process_messages,
}
use masu.Payload.Confirmed.{if-true, process_messages-ended}

-- An archive that is fetched and unpacked, and has no manifest.
pub record NoManifest (s : Services) (url : Text) : Type 0 where
  pub text : Text
  pub is_fetched : s.get url ≡ received text
  pub is_written : s.can_write ≡ true
  pub archive : Archive
  pub is_unpacked : s.untar text ≡ some archive
  pub is_missing : manifest_paths archive.names ≡ []

-- `manifest_path[0]` raises before the temporary directory is removed.
extract_payload-raised :
    (s : Services) (url : Text) (d : Disk)
    → NoManifest s url
    → extract_payload s url d ≡ (raised, (mkdtemp d).1)
unfolding extract_payload
extract_payload-raised s url d m =
    let (temp, d') = mkdtemp d in
    ap (λ response. fetched s temp response d') m.is_fetched
    ∙ (if-true s.can_write (unpack s temp m.text (s.untar m.text) d') (failed, rmtree temp d')
          m.is_written
        ∙ (ap (λ archive. unpack s temp m.text archive d') m.is_unpacked
            ∙ ap
                (λ paths.
                  open_manifest s.parse temp (m.archive.files ++ (([], archive_name), m.text) ∷ [])
                    paths d')
                m.is_missing))

handle_message-raised :
    (s : Services) (msg : Message) (url : Text) (d : Disk)
    → msg.is_hccm ≡ true
    → msg.url ≡ some url
    → NoManifest s url
    → handle_message s msg d ≡ (raised, (mkdtemp d).1)
unfolding handle_message
handle_message-raised s msg url d is_hccm e m =
    if-true msg.is_hccm (handle_url s msg.url d) _ is_hccm
    ∙ (ap (λ link. handle_url s link d) e ∙ ap handled (extract_payload-raised s url d m))

-- A message of the listener's topic whose archive has no manifest ends the task: the message and all
-- that follow it are neither confirmed nor processed, and the temporary directory stays.
pub process_messages-stopped :
    (s : Services) (msg : Message) (msgs : List Message) (url : Text) (l : Listener)
    → l.is_running ≡ true
    → msg.is_hccm ≡ true
    → msg.url ≡ some url
    → NoManifest s url
    → process_messages s (msg ∷ msgs) l ≡ stopped (mkdtemp l.disk).1 l
unfolding process_messages process_message
process_messages-stopped s msg msgs url l r is_hccm e m =
    let out = handle_message s msg l.disk in
    let last : Listener = stopped (mkdtemp l.disk).1 l in
    let one =
      if-true l.is_running (after_handling s msg.request_id out l) l r
      ∙ ap (λ h. after_handling s msg.request_id h l)
          (handle_message-raised s msg url l.disk is_hccm e m) in
    ap (λ m. process_messages s msgs m) one ∙ process_messages-ended s msgs last refl
