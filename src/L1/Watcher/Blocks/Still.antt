-- ===== src/L1/Watcher/Blocks/Still.antt =====
-- What a step of an iteration leaves alone: the last confirmed block.
use canon.Prelude.{ℕ, ◌≡◌, refl, ◌∙◌, if_cases, Option, none, some, List, [], ◌∷◌, ◌++◌}
use canon.Prelude.Result.{Result, ok, err}
use canon.Prelude.Stateful.{pure, ◌>>=◌, or_err, continue}
use canon.Bytes.{same_bytes}
use canon.L1.Reorg.{TopicHash, BlockHeader, ReorgError, AdvanceOutcome, ReorgWindow}
use canon.L1.Events.{IngestedEvent, RawLog}
use canon.L1.Events.Decode.{DecodeError, decode_event}
use canon.L1.Journal.{StateRecord}
use canon.L1.Watcher.{Environment, WatcherError}
use canon.L1.Watcher.Frame.{process_event-Stays}
use canon.L1.Watcher.Blocks.{
  L1Source, WatcherConfig, sort_logs, WatcherLoop, Step, in_world, ask, handle_decoded, hash_of,
  process_logs, with_window, feed_window, fetch_more, fetch_logs, process_sorted, process_header,
  process_block, append_record,
}

module _ (V : Environment) (L : L1Source V) (config : WatcherConfig) where
  open V use {World, append}
  open L use {latest_block_number, block_header_by_number, logs_in_block_by_hash}

  abbrev pub Loop : Type 0
  Loop = WatcherLoop V L config

  abbrev pub last_of : Loop → Option ℕ
  last_of l = l.core.in_memory.last_confirmed_block

  -- A step that leaves the last confirmed block alone, whatever its outcome.
  abbrev pub Still : {A : Type 0} → Step V L config A → Type 0
  Still m = (l : Loop) → last_of (m l).0 ≡ last_of l

  continue-Still :
      {A B : Type 0} (p : Loop × Result (WatcherError V) A) (f : A → Step V L config B)
      → ((a : A) → Still (f a))
      → last_of (continue p f).0 ≡ last_of p.0
  continue-Still (l, ok a) f k = k a l
  continue-Still (l, err e) f k = refl

  pub >>=-Still :
      {A B : Type 0} (m : Step V L config A) (f : A → Step V L config B)
      → Still m
      → ((a : A) → Still (f a))
      → Still (m >>= f)
  >>=-Still m f h k l = continue-Still (m l) f k ∙ h l

  or_err-Still :
      {E F A : Type 0} (f : E → F) (p : Loop × Result E A) → last_of (or_err f p).0 ≡ last_of p.0
  or_err-Still f (l, ok a) = refl
  or_err-Still f (l, err e) = refl

  ask-Still :
      {A : Type 0} (question : World → World × Result V.SourceError A)
      → Still (ask V L config question)
  ask-Still question l = or_err-Still _ _

  handle_decoded-Still :
      (block_hash : TopicHash) (r : Result DecodeError (Option IngestedEvent))
      → Still (handle_decoded V L config block_hash r)
  handle_decoded-Still block_hash (ok (some event)) l =
      process_event-Stays V config.deployment_id event block_hash l.core (last_of l) refl
  handle_decoded-Still block_hash (ok none) l = refl
  handle_decoded-Still block_hash (err e) l = refl

  process_logs-Still :
      (block_hash : TopicHash) (logs : List RawLog)
      → Still (process_logs V L config block_hash logs)
  unfolding process_logs
  process_logs-Still block_hash [] = λ l. refl
  process_logs-Still block_hash (log ∷ logs) =
      let decoded = decode_event (hash_of V L config) log in
      >>=-Still (handle_decoded V L config block_hash decoded)
        (λ _. process_logs V L config block_hash logs) (handle_decoded-Still block_hash decoded)
        (λ _. process_logs-Still block_hash logs)

  with_window-Still :
      (l : Loop) (p : ReorgWindow × Result ReorgError AdvanceOutcome)
      → last_of (with_window V L config l p).0 ≡ last_of l
  with_window-Still l (window, ok outcome) = refl
  with_window-Still l (window, err e) = refl

  feed_window-Still : (header : BlockHeader) → Still (feed_window V L config header)
  unfolding feed_window
  feed_window-Still header l = with_window-Still l _

  fetch_more-Still :
      (hash : TopicHash) (logs : List RawLog) → Still (fetch_more V L config hash logs)
  fetch_more-Still hash logs l =
      let question = logs_in_block_by_hash hash config.identity_registry_contract in
      if_cases (λ (p : Loop × Result (WatcherError V) (List RawLog)). last_of p.0 ≡ last_of l)
        (same_bytes config.bridge_contract config.identity_registry_contract) (λ _. refl)
        (λ _.
          >>=-Still (ask V L config question) (λ more. pure (logs ++ more)) (ask-Still question)
            (λ more m. refl) l)

  fetch_logs-Still : (hash : TopicHash) → Still (fetch_logs V L config hash)
  unfolding fetch_logs
  fetch_logs-Still hash =
      let question = logs_in_block_by_hash hash config.bridge_contract in
      >>=-Still (ask V L config question) (fetch_more V L config hash) (ask-Still question)
        (fetch_more-Still hash)

  process_header-Still : (header : BlockHeader) → Still (process_header V L config header)
  process_header-Still header =
      >>=-Still (feed_window V L config header)
        (λ _. fetch_logs V L config header.hash >>= process_sorted V L config header.hash)
        (feed_window-Still header)
        (λ _.
          >>=-Still (fetch_logs V L config header.hash) (process_sorted V L config header.hash)
            (fetch_logs-Still header.hash)
            (λ logs. process_logs-Still header.hash (sort_logs logs)))

  pub process_block-Still : (n : ℕ) → Still (process_block V L config n)
  unfolding process_block
  process_block-Still n =
      >>=-Still (ask V L config (block_header_by_number n)) (process_header V L config)
        (ask-Still (block_header_by_number n)) process_header-Still

  pub append_record-Still : (r : StateRecord) → Still (append_record V L config r)
  append_record-Still r l =
      or_err-Still WatcherError.state
        (in_world V L config l (append l.core.world r).0 (append l.core.world r).1)
