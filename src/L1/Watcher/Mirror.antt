-- ===== src/L1/Watcher/Mirror.antt =====
-- The journal stays in step with the state in memory.
use canon.Prelude.{
  ℕ, zero, suc, ◌+◌, ◌≡◌, refl, sym, ap, ◌∙◌, subst, if_cases, Option, none, some, List, [], ◌∷◌,
  ◌++◌, length,
}
use canon.Prelude.Result.{Result, ok, err}
use canon.Bytes.{IsU64}
use canon.L1.Action.{EthAddress}
use canon.L1.Reorg.{TopicHash}
use canon.L1.AddressBook.{AddressBook, lookup, record_id}
use canon.L1.Events.{IngestedEvent}
use canon.L1.Translation.{
  Translated, no_action, emit, emit_with_assignment, CommitError, preview_ingest, commit_assignment,
}
use canon.L1.Translation.Commit.{IsSized, fresh-assigned, preview-fresh, preview_ingest-commit}
use canon.L1.Journal.{
  StateError, StateRecord, Line, parsed, ForwardedKey, has_key, WatcherState, replay,
}
use canon.L1.Journal.Scan.{
  Mirrors, Mirrors-replay, IsKey, counted, submission, submit_once, forwarded-Mirrors,
  submitted-Mirrors, assigned-Mirrors,
}
use canon.L1.Watcher.{
  Environment, Verdict, admitted, not_admissible_verdict, parse_error_verdict, busy, SubmitError,
  SignedAction, Watcher, WatcherError, state, Done, Sent, on_verdict, submit_retrying, next_backoff,
  max_retries, noted, skip_event, committed, commit_pending, after_append, after_submit,
  assignment_of, send, forward_translated, key_of, process_event,
}

module _ (V : Environment) where
  open V use {World, submit, sleep, append, journal, journal-submit, journal-sleep, journal-append}

  abbrev pub InStep : Watcher V → Type 0
  InStep w = Mirrors (journal w.world) w.in_memory

  -- The file took every line.
  abbrev pub Written : Result (WatcherError V) (Unit {0}) → Type 0
  Written (err (state e)) = ⊥
  Written _ = Unit

  abbrev Kept : Done V → Type 0
  Kept out = Written out.1 → InStep out.0

  on_verdict-journal :
      (before : List Line) (again : Sent V) (p : World × Result SubmitError Verdict)
      → journal p.0 ≡ before
      → journal again.0 ≡ before
      → journal (on_verdict V again p).0 ≡ before
  on_verdict-journal before again (w, ok admitted) h k = h
  on_verdict-journal before again (w, ok busy) h k = k
  on_verdict-journal before again (w, ok not_admissible_verdict) h k = h
  on_verdict-journal before again (w, ok parse_error_verdict) h k = h
  on_verdict-journal before again (w, err e) h k = h

  journal-submit_retrying :
      (n backoff : ℕ) (a : SignedAction) (w : World)
      → journal (submit_retrying V n backoff a w).0 ≡ journal w
  unfolding submit_retrying
  journal-submit_retrying zero backoff a w =
      on_verdict-journal (journal w) _ (submit w a) (journal-submit w a) (journal-submit w a)
  journal-submit_retrying (suc n) backoff a w =
      on_verdict-journal (journal w) _ (submit w a) (journal-submit w a) (
        journal-submit_retrying n (next_backoff backoff) a (sleep (submit w a).0 backoff)
        ∙ journal-sleep (submit w a).0 backoff
        ∙ journal-submit w a)

  pub appended :
      (w w' : World) (r : StateRecord)
      → append w r ≡ (w', ok tt)
      → journal w' ≡ journal w ++ parsed r ∷ []
  appended w w' r e =
      ap (λ (p : World × Result StateError (Unit {0})). journal p.0) (sym e)
      ∙ journal-append w r (ap (λ (p : World × Result StateError (Unit {0})). p.1) e)

  noted-Kept :
      (k : ForwardedKey) (watcher : Watcher V) (r : StateRecord) (after : WatcherState)
      → Mirrors (journal watcher.world ++ parsed r ∷ []) after
      → (p : World × Result StateError (Unit {0})) → append watcher.world r ≡ p
      → Kept (noted V after p)
  noted-Kept k watcher r after m (w, ok _) e written =
      subst (λ (ls : List Line). Mirrors ls after) (sym (appended watcher.world w r e)) m
  noted-Kept k watcher r after m (w, err x) e written = absurd written

  skip_event-Kept :
      (k : ForwardedKey) (watcher : Watcher V)
      → IsKey k
      → InStep watcher
      → Kept (skip_event V k watcher)
  skip_event-Kept k watcher h m =
      noted-Kept k watcher _ _ (forwarded-Mirrors (journal watcher.world) watcher.in_memory k h m) _
        refl

  -- What a pending assignment has to be.
  abbrev Fits : Option (EthAddress × ℕ) → AddressBook → Type 0
  Fits none book = Unit
  Fits (some (addr, id)) book =
      (lookup addr book ≡ none)
      × (id ≡ book.next_actor_id)
      × (length addr ≡ 20)
      × (commit_assignment addr id book ≡ (record_id addr id book, ok id))
      × IsU64 (book.next_actor_id + 1)

  assigned-id :
      (lines : List Line) (s : WatcherState) (k : ForwardedKey) (addr : EthAddress) (id : ℕ)
      → IsKey k
      → Fits (some (addr, id)) s.address_book
      → Mirrors lines s
      → Mirrors
          (lines ++ parsed (submission k s (assignment_of V (some (addr, id)))) ∷ [])
          (submit_once k (record_id addr id s.address_book) s)
  assigned-id lines s k addr id h (absent, same, size, done, room) m =
      subst
        (λ (i : ℕ).
          Mirrors (lines ++ parsed (submission k s (assignment_of V (some (addr, i)))) ∷ [])
            (submit_once k (record_id addr i s.address_book) s))
        (sym same)
        (assigned-Mirrors lines s k addr
          (record_id addr s.address_book.next_actor_id s.address_book) h size
          (fresh-assigned addr s.address_book absent room) refl m)

  committed-InStep :
      (k : ForwardedKey) (pending : Option (EthAddress × ℕ)) (s : WatcherState) (w w' : World)
      → IsKey k
      → Fits pending s.address_book
      → Mirrors (journal w) s
      → journal w' ≡ journal w ++ parsed (submission k s (assignment_of V pending)) ∷ []
      → InStep
          (commit_pending V k
            (counted s.next_nonce)
            pending
            (record { in_memory = s; world = w' })).0
  committed-InStep k none s w w' h fits m e =
      subst (λ (ls : List Line). Mirrors ls (submit_once k s.address_book s)) (sym e)
        (submitted-Mirrors (journal w) s k h m)
  committed-InStep k (some (addr, id)) s w w' h fits m e =
      subst
        (λ (p : AddressBook × Result CommitError ℕ).
          InStep (committed V k (counted s.next_nonce) (record { in_memory = s; world = w' }) p).0)
        (sym fits.3)
        (subst (λ (ls : List Line). Mirrors ls (submit_once k (record_id addr id s.address_book) s))
          (sym e) (assigned-id (journal w) s k addr id h fits m))

  after_append-Kept :
      (k : ForwardedKey) (pending : Option (EthAddress × ℕ)) (s : WatcherState) (w : World)
      → IsKey k
      → Fits pending s.address_book
      → Mirrors (journal w) s
      → (p : World × Result StateError (Unit {0}))
      → append w (submission k s (assignment_of V pending)) ≡ p
      → Kept
          (after_append V k (counted s.next_nonce) pending (record { in_memory = s; world = w }) p)
  after_append-Kept k pending s w h fits m (w', ok _) e written =
      committed-InStep k pending s w w' h fits m (appended w w' _ e)
  after_append-Kept k pending s w h fits m (w', err x) e written = absurd written

  after_submit-Kept :
      (k : ForwardedKey) (pending : Option (EthAddress × ℕ)) (watcher : Watcher V)
      → IsKey k
      → Fits pending watcher.in_memory.address_book
      → InStep watcher
      → (p : Sent V) → journal p.0 ≡ journal watcher.world
      → Kept (after_submit V k pending watcher p)
  after_submit-Kept k pending watcher h fits m (w, err x) e written =
      subst (λ (ls : List Line). Mirrors ls watcher.in_memory) (sym e) m
  after_submit-Kept k pending watcher h fits m (w, ok _) e written =
      after_append-Kept k pending watcher.in_memory w h fits
        (subst (λ (ls : List Line). Mirrors ls watcher.in_memory) (sym e) m) _ refl written

  send-Kept :
      (k : ForwardedKey) (pending : Option (EthAddress × ℕ)) (watcher : Watcher V)
      → IsKey k
      → Fits pending watcher.in_memory.address_book
      → InStep watcher
      → (r : Result (WatcherError V) SignedAction) → Kept (send V k pending watcher r)
  send-Kept k pending watcher h fits m (ok signed) written =
      after_submit-Kept k pending watcher h fits m _
        (journal-submit_retrying max_retries 100 signed watcher.world) written
  send-Kept k pending watcher h fits m (err e) written = m

  forward_translated-Kept :
      (deployment_id : List ℕ) (event : IngestedEvent) (k : ForwardedKey) (watcher : Watcher V)
      → IsKey k
      → IsSized event
      → IsU64 (watcher.in_memory.address_book.next_actor_id + 1)
      → InStep watcher
      → (t : Translated)
      → preview_ingest watcher.in_memory.address_book event watcher.in_memory.next_nonce ≡ t
      → Kept (forward_translated V deployment_id k watcher t)
  forward_translated-Kept deployment_id event k watcher h size room m no_action e =
      skip_event-Kept k watcher h m
  forward_translated-Kept deployment_id event k watcher h size room m (emit u) e =
      send-Kept k none watcher h tt m _
  forward_translated-Kept deployment_id event k watcher h size room m
        (emit_with_assignment u addr id) e =
      let book = watcher.in_memory.address_book in
      let n = watcher.in_memory.next_nonce in
      let (absent, same, sized) = preview-fresh book event n id u addr size e in
      let done = preview_ingest-commit book event n id u addr size room e in
      send-Kept k (some (addr, id)) watcher h (absent, same, sized, done, room) m _

  process_event-Kept :
      (deployment_id : List ℕ) (event : IngestedEvent) (block_hash : TopicHash)
      (watcher : Watcher V)
      → IsKey (key_of V event block_hash)
      → IsSized event
      → IsU64 (watcher.in_memory.address_book.next_actor_id + 1)
      → InStep watcher
      → Kept (process_event V deployment_id event block_hash watcher)
  unfolding process_event
  process_event-Kept deployment_id event block_hash watcher h size room m =
      if_cases Kept (has_key (key_of V event block_hash) watcher.in_memory.forwarded_keys)
        (λ _ written. m)
        (λ _. forward_translated-Kept deployment_id event _ watcher h size room m _ refl)

  -- Processing an event, whatever its outcome but a failed append, keeps the state in memory equal to
  -- what the journal replays to: a watcher that stops there and opens its file again resumes from the
  -- same block, forwarded keys, address book and nonce. The hashes have 32 bytes, the addresses 20, the
  -- counter of actor ids has room, and the state came from the journal's records.
  pub process_event-replay :
      (deployment_id : List ℕ) (event : IngestedEvent) (block_hash : TopicHash)
      (watcher : Watcher V)
      → IsKey (key_of V event block_hash)
      → IsSized event
      → IsU64 (watcher.in_memory.address_book.next_actor_id + 1)
      → InStep watcher
      → Written (process_event V deployment_id event block_hash watcher).1
      → replay (journal (process_event V deployment_id event block_hash watcher).0.world)
        ≡ ok (process_event V deployment_id event block_hash watcher).0.in_memory
  process_event-replay deployment_id event block_hash watcher h size room m written =
      Mirrors-replay _ _
        (process_event-Kept deployment_id event block_hash watcher h size room m written)
