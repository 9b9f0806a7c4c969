-- ===== src/L1/Journal.antt =====
-- runtime/canon-l1-ingest/src/state.rs: the journal of the watcher and its replay. A line of the file is
-- what serde_json makes of it; the loop of `replay` carries the line's number.
pub mod Scan
use canon.Prelude.{
  ℕ, ◌+◌, Bool, true, false, ◌&&◌, ◌||◌, Option, none, some, List, [], ◌∷◌, ◌++◌, length, ltb, ◌==◌,
  if◌then◌else◌,
}
use canon.Prelude.Result.{Result, ok, err, ◌>>=◌}
use canon.Bytes.{from_be_bytes, same_bytes}
use canon.L1.Action.{EthAddress, from_bytes}
use canon.L1.Reorg.{TopicHash}
use canon.L1.AddressBook.{AddressBook, AssignError, new, try_assign}

pub data StateError : Type 0 where
  io : StateError
  malformed : (line_number : ℕ) → StateError

abbrev pub HexBytes : Type 0
HexBytes = List ℕ

pub record AddressAssignment : Type 0 where
  pub address : HexBytes
  pub actor_id : ℕ

pub data StateRecord : Type 0 where
  forwarded : (block_hash tx_hash : HexBytes) (log_index : ℕ) → StateRecord
  confirmed : (block_number : ℕ) → StateRecord
  address_assigned : (address : HexBytes) (actor_id : ℕ) → StateRecord
  nonce_progressed : (next_nonce : ℕ) → StateRecord
  submitted :
      (block_hash tx_hash : HexBytes) (log_index next_nonce : ℕ)
      (assigned : Option AddressAssignment)
      → StateRecord

pub data Line : Type 0 where
  unreadable blank garbled : Line
  parsed : StateRecord → Line

pub record ForwardedKey : Type 0 where
  pub block_hash : TopicHash
  pub tx_hash : TopicHash
  pub log_index : ℕ

abbrev pub same_key : ForwardedKey → ForwardedKey → Bool
same_key j k =
    j.block_hash == k.block_hash && (j.tx_hash == k.tx_hash && j.log_index == k.log_index)

-- The `HashSet` of keys.
unfoldable pub has_key : ForwardedKey → List ForwardedKey → Bool
has_key k [] = false
has_key k (j ∷ keys) = same_key j k || has_key k keys

unfoldable pub insert_key : ForwardedKey → List ForwardedKey → List ForwardedKey
insert_key k keys = if has_key k keys then keys else keys ++ k ∷ []

pub record WatcherState : Type 0 where
  pub last_confirmed_block : Option ℕ
  pub forwarded_keys : List ForwardedKey
  pub address_book : AddressBook
  pub next_nonce : ℕ

unfoldable pub default_state : WatcherState
default_state = record {
  last_confirmed_block = none;
  forwarded_keys = [];
  address_book = new;
  next_nonce = 0;
}

-- `BTreeMap<ActorId, EthAddress>`: pairs in ascending order of the id.
abbrev pub Pending : Type 0
Pending = List (ℕ × EthAddress)

unfoldable pub get_pending : ℕ → Pending → Option EthAddress
get_pending id [] = none
get_pending id ((i, a) ∷ rest) = if i == id then some a else get_pending id rest

unfoldable pub insert_pending : ℕ → EthAddress → Pending → Pending
insert_pending id addr [] = (id, addr) ∷ []
insert_pending id addr ((i, a) ∷ rest) =
    let behind = insert_pending id addr rest in
    if ltb id i
    then (id, addr) ∷ (i, a) ∷ rest
    else if i == id
    then (id, addr) ∷ rest
    else (i, a) ∷ behind

-- `try_into` to `[u8; 32]`.
unfoldable pub to_hash : ℕ → HexBytes → Result StateError TopicHash
to_hash line_number bytes =
    if length bytes == 32 then ok (from_be_bytes bytes) else err (malformed line_number)

abbrev pub sized : ℕ → Option EthAddress → Result StateError EthAddress
sized line_number (some addr) = ok addr
sized line_number none = err (malformed line_number)

-- `try_into` to `[u8; 20]`.
unfoldable pub to_address : ℕ → HexBytes → Result StateError EthAddress
to_address line_number bytes = sized line_number (from_bytes bytes)

abbrev pub conflicts : EthAddress → Option EthAddress → Bool
conflicts addr (some prior) = if same_bytes prior addr then false else true
conflicts addr none = false

unfoldable pub assign_pending : ℕ → ℕ → EthAddress → Pending → Result StateError Pending
assign_pending line_number actor_id addr pending =
    if conflicts addr (get_pending actor_id pending)
    then err (malformed line_number)
    else ok (insert_pending actor_id addr pending)

abbrev pub Replaying : Type 0
Replaying = WatcherState × Pending

unfoldable pub add_forwarded :
    ℕ → HexBytes → HexBytes → ℕ → WatcherState → Result StateError WatcherState
add_forwarded line_number block_hash tx_hash log_index state = do
  bh ← to_hash line_number block_hash
  th ← to_hash line_number tx_hash
  ok (record state {
    forwarded_keys =
        insert_key (record { block_hash = bh; tx_hash = th; log_index = log_index })
          state.forwarded_keys;
  })

unfoldable pub raise_nonce : ℕ → WatcherState → WatcherState
raise_nonce next_nonce state =
    if ltb state.next_nonce next_nonce then record state { next_nonce = next_nonce } else state

abbrev pub assign_optional : ℕ → Option AddressAssignment → Pending → Result StateError Pending
assign_optional line_number none pending = ok pending
assign_optional line_number (some assignment) pending = do
  addr ← to_address line_number assignment.address
  assign_pending line_number assignment.actor_id addr pending

unfoldable pub replay_record : ℕ → StateRecord → Replaying → Result StateError Replaying
replay_record line_number (forwarded block_hash tx_hash log_index) (state, pending) = do
  state' ← add_forwarded line_number block_hash tx_hash log_index state
  ok (state', pending)
replay_record line_number (confirmed block_number) (state, pending) =
    ok (record state { last_confirmed_block = some block_number }, pending)
replay_record line_number (address_assigned address actor_id) (state, pending) = do
  addr ← to_address line_number address
  pending' ← assign_pending line_number actor_id addr pending
  ok (state, pending')
replay_record line_number (nonce_progressed next_nonce) (state, pending) =
    ok (raise_nonce next_nonce state, pending)
replay_record line_number (submitted block_hash tx_hash log_index next_nonce assigned)
      (state, pending) =
    do
      state' ← add_forwarded line_number block_hash tx_hash log_index state
      pending' ← assign_optional line_number assigned pending
      ok (raise_nonce next_nonce state', pending')

unfoldable pub replay_line : ℕ → Line → Replaying → Result StateError Replaying
replay_line line_number unreadable r = err io
replay_line line_number blank r = ok r
replay_line line_number garbled r = err (malformed line_number)
replay_line line_number (parsed entry) r = replay_record line_number entry r

unfoldable pub replay_lines : ℕ → List Line → Replaying → Result StateError Replaying
replay_lines line_number [] r = ok r
replay_lines line_number (line ∷ lines) r = do
  r' ← replay_line line_number line r
  replay_lines (line_number + 1) lines r'

abbrev pub check_replayed :
    {A : Type 0} → ℕ → AddressBook × Result AssignError (ℕ × A) → Result StateError AddressBook
check_replayed id (book, ok (assigned_id, is_new)) =
    if assigned_id == id then ok book else err (malformed 0)
check_replayed id (book, err e) = err (malformed 0)

-- The loop over the assignments, in ascending order of the ids.
unfoldable pub replay_assignments : Pending → AddressBook → Result StateError AddressBook
replay_assignments [] book = ok book
replay_assignments ((id, addr) ∷ pending) book = do
  book' ← check_replayed id (try_assign addr book)
  replay_assignments pending book'

-- `StateStore::replay` on the lines of the file.
unfoldable pub replay : List Line → Result StateError WatcherState
replay lines = do
  (state, pending) ← replay_lines 1 lines (default_state, [])
  book ← replay_assignments pending state.address_book
  ok (record state { address_book = book })

-- `StateStore::open`: no file is the default state.
unfoldable pub open_state : Option (List Line) → Result StateError WatcherState
open_state (some lines) = replay lines
open_state none = ok default_state
