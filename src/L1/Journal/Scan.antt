-- ===== src/L1/Journal/Scan.antt =====
-- A journal and the state in memory that it replays to, kept in step record by record.
use canon.Prelude.{
  ℕ, ◌+◌, ◌-◌, ◌<◌, ◌≤◌, ◌^◌, ◌≡◌, refl, sym, ap, ◌∙◌, subst, arith, min, Bool, true, Option, none,
  some, List, [], ◌∷◌, ◌++◌, length, All, ltb, if_cases, ◌==◌, if◌then◌else◌,
}
use canon.Prelude.Result.{Result, ok, err, ◌>>=◌, >>=-eq-ok}
use canon.Bytes.{IsU128, to_be_bytes}
use canon.Bytes.Laws.{length-to_be_bytes, from_be_bytes-to_be_bytes}
use canon.L1.Action.{EthAddress, from_bytes}
use canon.L1.AddressBook.{AddressBook, new, try_assign}
use canon.L1.Journal.{
  StateError, malformed, StateRecord, forwarded, confirmed, submitted, AddressAssignment, Line,
  parsed, ForwardedKey, insert_key, WatcherState, default_state, Pending, get_pending,
  insert_pending, to_hash, to_address, assign_pending, assign_optional, add_forwarded, raise_nonce,
  Replaying, replay_record, replay_line, replay_lines, check_replayed, replay_assignments, replay,
}

pub record Mirrors (lines : List Line) (s : WatcherState) : Type 0 where
  pub pending : Pending
  pub seen :
      replay_lines 1 lines (default_state, []) ≡ ok (record s { address_book = new }, pending)
  pub built : replay_assignments pending new ≡ ok s.address_book
  pub below : All (λ p. p.0 < s.address_book.next_actor_id) pending
  pub nonce : IsU128 s.next_nonce

-- A journal in step replays to the state in memory.
pub Mirrors-replay : (lines : List Line) (s : WatcherState) → Mirrors lines s → replay lines ≡ ok s
unfolding replay
Mirrors-replay lines s m =
    ap
      (λ (x : Result StateError Replaying). x >>= λ r.
        replay_assignments r.1 r.0.address_book >>= λ book.
        ok (record (r.0) { address_book = book }))
      m.seen
    ∙ ap
        (λ (x : Result StateError AddressBook). x >>= λ book. ok (record s { address_book = book }))
        m.built

pub default-Mirrors : Mirrors [] default_state
unfolding default_state replay_lines replay_assignments
default-Mirrors = record {
  pending = [];
  seen = refl;
  built = refl;
  below = tt;
  nonce = omega arith;
}

replay_lines-snoc :
    (n : ℕ) (lines : List Line) (line : Line) (r : Replaying) (r' : Replaying) (r'' : Replaying)
    → replay_lines n lines r ≡ ok r'
    → ((m : ℕ) → replay_line m line r' ≡ ok r'')
    → replay_lines n (lines ++ line ∷ []) r ≡ ok r''
unfolding replay_lines
replay_lines-snoc n [] line r r' r'' e f =
    let same : r ≡ r' = cc e in
    ap (λ (x : Result StateError Replaying). x >>= λ y. ok y)
      (subst (λ (q : Replaying). replay_line n line q ≡ ok r'') (sym same) (f n))
replay_lines-snoc n (l ∷ lines) line r r' r'' e f =
    let (y, p, q) = >>=-eq-ok (replay_line n l r) (replay_lines (n + 1) lines) e in
    ap (λ (x : Result StateError Replaying). x >>= replay_lines (n + 1) (lines ++ line ∷ [])) p
    ∙ replay_lines-snoc (n + 1) lines line y r' r'' q f

to_hash-to_be_bytes : (m n : ℕ) → n < 256 ^ 32 → to_hash m (to_be_bytes 32 n) ≡ ok n
unfolding to_hash
to_hash-to_be_bytes m n h =
    ground (arith, length-to_be_bytes 32 n, from_be_bytes-to_be_bytes 32 n h)

-- A key of two 32-byte hashes.
abbrev pub IsKey : ForwardedKey → Type 0
IsKey k = (k.block_hash < 256 ^ 32) × (k.tx_hash < 256 ^ 32)

add_forwarded_lem :
    (m : ℕ) (k : ForwardedKey) (s : WatcherState)
    → IsKey k
    → add_forwarded m (to_be_bytes 32 k.block_hash) (to_be_bytes 32 k.tx_hash) k.log_index s
      ≡ ok (record s { forwarded_keys = insert_key k s.forwarded_keys })
unfolding add_forwarded
add_forwarded_lem m k s h =
    cc (to_hash-to_be_bytes m k.block_hash h.0, to_hash-to_be_bytes m k.tx_hash h.1)

-- A confirmed block.
pub confirmed-Mirrors :
    (lines : List Line) (s : WatcherState) (b : ℕ)
    → Mirrors lines s
    → Mirrors (lines ++ parsed (confirmed b) ∷ []) (record s { last_confirmed_block = some b })
unfolding replay_line replay_record
confirmed-Mirrors lines s b m = record {
  pending = m.pending;
  seen =
      replay_lines-snoc 1 lines (parsed (confirmed b)) (default_state, []) _ _ m.seen (λ n. refl);
  built = m.built;
  below = m.below;
  nonce = m.nonce;
}

-- An event that gave no action.
pub forwarded-Mirrors :
    (lines : List Line) (s : WatcherState) (k : ForwardedKey)
    → IsKey k
    → Mirrors lines s
    → Mirrors
        (lines
          ++ parsed (forwarded (to_be_bytes 32 k.block_hash) (to_be_bytes 32 k.tx_hash) k.log_index)
            ∷ [])
        (record s { forwarded_keys = insert_key k s.forwarded_keys })
unfolding replay_line replay_record
forwarded-Mirrors lines s k h m = record {
  pending = m.pending;
  seen =
      replay_lines-snoc 1 lines _ (default_state, []) _ _ m.seen
        (λ n.
          ap (λ (x : Result StateError WatcherState). x >>= λ t. ok (t, m.pending))
            (add_forwarded_lem n k (record s { address_book = new }) h));
  built = m.built;
  below = m.below;
  nonce = m.nonce;
}

-- The counter after a submission; it stops at the largest `u128`.
abbrev pub counted : ℕ → ℕ
counted n = min (n + 1) (2 ^ 128 - 1)

raise_counted :
    (s : WatcherState)
    → IsU128 s.next_nonce
    → raise_nonce (counted s.next_nonce) s ≡ record s { next_nonce = counted s.next_nonce }
unfolding raise_nonce
raise_counted s h =
    if_cases (λ (t : WatcherState). t ≡ record s { next_nonce = counted s.next_nonce })
      (ltb s.next_nonce (counted s.next_nonce)) (λ _. refl)
      (λ e. ap (λ (n : ℕ). record s { next_nonce = n }) (ground arith))

abbrev pub submission : ForwardedKey → WatcherState → Option AddressAssignment → StateRecord
submission k s assigned =
    submitted (to_be_bytes 32 k.block_hash) (to_be_bytes 32 k.tx_hash) k.log_index
      (counted s.next_nonce) assigned

abbrev pub submit_once : ForwardedKey → AddressBook → WatcherState → WatcherState
submit_once k book s = record s {
  address_book = book;
  next_nonce = counted s.next_nonce;
  forwarded_keys = insert_key k s.forwarded_keys;
}

submission_lem :
    (n : ℕ) (k : ForwardedKey) (s : WatcherState) (assigned : Option AddressAssignment)
    (pending pending' : Pending)
    → IsKey k
    → IsU128 s.next_nonce
    → assign_optional n assigned pending ≡ ok pending'
    → replay_record n (submission k s assigned) (record s { address_book = new }, pending)
      ≡ ok (submit_once k new s, pending')
unfolding replay_record
submission_lem n k s assigned pending pending' h small e =
    let t : WatcherState = record s {
      address_book = new;
      forwarded_keys = insert_key k s.forwarded_keys;
    } in
    ap
      (λ (x : Result StateError WatcherState). x >>= λ u.
        assign_optional n assigned pending >>= λ p. ok (raise_nonce (counted s.next_nonce) u, p))
      (add_forwarded_lem n k (record s { address_book = new }) h)
    ∙ ap
        (λ (x : Result StateError Pending). x >>= λ p. ok (raise_nonce (counted s.next_nonce) t, p))
        e
    ∙ ap (λ (u : WatcherState). ok (u, pending')) (raise_counted t small)

-- A submission without an assignment.
pub submitted-Mirrors :
    (lines : List Line) (s : WatcherState) (k : ForwardedKey)
    → IsKey k
    → Mirrors lines s
    → Mirrors (lines ++ parsed (submission k s none) ∷ []) (submit_once k s.address_book s)
unfolding replay_line
submitted-Mirrors lines s k h m = record {
  pending = m.pending;
  seen =
      replay_lines-snoc 1 lines (parsed (submission k s none)) (default_state, []) _ _ m.seen
        (λ n. submission_lem n k s none m.pending m.pending h m.nonce refl);
  built = m.built;
  below = m.below;
  nonce = omega arith;
}

get_pending-below :
    (id : ℕ) (pending : Pending) → All (λ p. p.0 < id) pending → get_pending id pending ≡ none
unfolding get_pending
get_pending-below id [] h = refl
get_pending-below id ((i, a) ∷ rest) h = ground (arith, get_pending-below id rest h.1)

insert_pending-below :
    (id : ℕ) (addr : EthAddress) (pending : Pending)
    → All (λ p. p.0 < id) pending
    → insert_pending id addr pending ≡ pending ++ (id, addr) ∷ []
unfolding insert_pending
insert_pending-below id addr [] h = refl
insert_pending-below id addr ((i, a) ∷ rest) h =
    ground (arith, insert_pending-below id addr rest h.1)

assign_optional-below :
    (n id : ℕ) (addr : EthAddress) (pending : Pending)
    → length addr ≡ 20
    → All (λ p. p.0 < id) pending
    → assign_optional n (some (record { address = addr; actor_id = id })) pending
      ≡ ok (pending ++ (id, addr) ∷ [])
unfolding assign_pending to_address from_bytes
assign_optional-below n id addr pending size h =
    ground (arith, get_pending-below id pending h, insert_pending-below id addr pending h)

replay_assignments-snoc :
    (pending : Pending) (id : ℕ) (addr : EthAddress) (a b c : AddressBook)
    → replay_assignments pending a ≡ ok b
    → check_replayed id (try_assign addr b) ≡ ok c
    → replay_assignments (pending ++ (id, addr) ∷ []) a ≡ ok c
unfolding replay_assignments
replay_assignments-snoc [] id addr a b c e f =
    let same : a ≡ b = cc e in
    ap (λ (x : Result StateError AddressBook). x >>= λ y. ok y)
      (subst (λ (q : AddressBook). check_replayed id (try_assign addr q) ≡ ok c) (sym same) f)
replay_assignments-snoc ((i, x) ∷ rest) id addr a b c e f =
    let (y, p, q) = >>=-eq-ok (check_replayed i (try_assign x a)) (replay_assignments rest) e in
    ap (λ (z : Result StateError AddressBook). z >>= replay_assignments (rest ++ (id, addr) ∷ [])) p
    ∙ replay_assignments-snoc rest id addr y b c q f

All-below-weaken :
    (n m : ℕ) (pending : Pending) → n ≤ m → All (λ p. p.0 < n) pending → All (λ p. p.0 < m) pending
All-below-weaken n m [] h all = tt
All-below-weaken n m (p ∷ rest) h all = (omega arith, All-below-weaken n m rest h all.1)

All-snoc :
    (n : ℕ) (pending : Pending) (q : ℕ × EthAddress)
    → All (λ p. p.0 < n) pending
    → q.0 < n
    → All (λ p. p.0 < n) (pending ++ q ∷ [])
All-snoc n [] q h last = (last, tt)
All-snoc n (p ∷ rest) q h last = (h.0, All-snoc n rest q h.1 last)

-- A submission whose address was assigned the next id.
pub assigned-Mirrors :
    (lines : List Line) (s : WatcherState) (k : ForwardedKey) (addr : EthAddress)
    (book : AddressBook)
    → IsKey k
    → length addr ≡ 20
    → try_assign addr s.address_book ≡ (book, ok (s.address_book.next_actor_id, true))
    → book.next_actor_id ≡ s.address_book.next_actor_id + 1
    → Mirrors lines s
    → Mirrors
        (lines
          ++ parsed (
              submission k s
                (some (record { address = addr; actor_id = s.address_book.next_actor_id })))
            ∷ [])
        (submit_once k book s)
unfolding replay_line
assigned-Mirrors lines s k addr book h size assigned next m =
    let id = s.address_book.next_actor_id in
    let same_id : (id == id) ≡ true = ground arith in
    record {
      pending = m.pending ++ (id, addr) ∷ [];
      seen =
          replay_lines-snoc 1 lines _ (default_state, []) _ _ m.seen
            (λ n.
              submission_lem n k s _ m.pending _ h m.nonce
                (assign_optional-below n id addr m.pending size m.below));
      built = replay_assignments-snoc m.pending id addr new s.address_book book m.built (
          ap (check_replayed id) assigned
          ∙ ap (λ (b : Bool). if b then ok book else err (malformed 0)) same_id);
      below =
          All-snoc book.next_actor_id m.pending (id, addr)
            (All-below-weaken id book.next_actor_id m.pending (omega (arith, next)) m.below)
            (omega (arith, next));
      nonce = omega arith;
    }
