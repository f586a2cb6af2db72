-- ===== src/Storage/WriteBehind.antt =====
-- `WriteBehind` (crates/bnetcc-storage/src/write_behind.rs): a buffer of attribute writes before a
-- backend. The calls that it hands on unchanged (accounts, credentials, bans, characters) are those
-- of the backend. A count of buffered attributes is one of entries in memory and does not wrap; the
-- two metrics are u64.
pub mod Slots
pub mod View
pub mod Loop
pub mod Flush
pub mod Valid
pub mod Used
pub mod Run
use bnet_command_center.Base.{
  ℕ, zero, suc, ◌+◌, ◌-◌, ◌%◌, ◌^◌, ◌≡◌, Option, none, some, List, [], ◌∷◌, length, is_empty, leb,
  ◌||◌, if◌then◌else◌, Bool, true, false, ℕ_discrete, get_or, Result, ok, err, ◌>>=◌,
}
use bnet_command_center.Base.Map
use bnet_command_center.Text.{Text, Text-discrete}
use bnet_command_center.Storage.{StorageError, AttrMap, lookup, extend, patch, Backend}

pub record FlushPolicy : Type 0 where
  pub max_dirty_accounts : ℕ
  pub max_dirty_attrs : ℕ
  pub interval_ms : ℕ

-- `FlushPolicy::default`.
pub default_policy : FlushPolicy
default_policy = record { max_dirty_accounts = 256; max_dirty_attrs = 4096; interval_ms = 30000 }

abbrev pub Dirty : Type 0
Dirty = List (ℕ × AttrMap)

pub record WriteBehind (S : Type 0) : Type 0 where
  pub backend : S
  pub dirty : Dirty
  pub dirty_attrs : ℕ
  pub policy : FlushPolicy
  pub last_flush_ms : ℕ
  pub flushes : ℕ
  pub batched_writes : ℕ

abbrev pub wrap : ℕ → ℕ
wrap n = n % 2 ^ 64

-- What is buffered for an account.
unfoldable pub slot : Dirty → ℕ → AttrMap
slot dirty id = get_or (Map.get ℕ_discrete id dirty) []

unfoldable pub total : Dirty → ℕ
total [] = 0
total ((id, attrs) ∷ dirty) = length attrs + total dirty

abbrev pub one_if_new : Option Text → ℕ
one_if_new none = 1
one_if_new (some v) = 0

-- The loop of `attrs_put`: the account's buffer and the two counts.
unfoldable pub put_loop : AttrMap → AttrMap → ℕ → ℕ → AttrMap × ℕ × ℕ
unfolding lookup
put_loop [] slot dirty_attrs batched = (slot, dirty_attrs, batched)
put_loop ((k, v) ∷ attrs) slot dirty_attrs batched =
    put_loop attrs (Map.insert Text-discrete k v slot) (dirty_attrs + one_if_new (lookup slot k))
      (wrap (batched + 1))

module _ {S : Type 0} where
  unfoldable pub new : S → FlushPolicy → ℕ → WriteBehind S
  new backend policy now_ms = record {
    backend = backend;
    dirty = [];
    dirty_attrs = 0;
    policy = policy;
    last_flush_ms = now_ms;
    flushes = 0;
    batched_writes = 0;
  }

  unfoldable pub is_due : WriteBehind S → ℕ → Bool
  is_due w now_ms =
      leb w.policy.max_dirty_accounts (length w.dirty)
      || leb w.policy.max_dirty_attrs w.dirty_attrs
      || leb w.policy.interval_ms (now_ms - w.last_flush_ms)

  -- Whether a flush happened, or its error.
  abbrev pub ticked :
      Result (Unit {0}) StorageError × WriteBehind S → Result Bool StorageError × WriteBehind S
  ticked (ok x, w) = (ok true, w)
  ticked (err e, w) = (err e, w)

  -- `remove(&id).is_some()`.
  abbrev pub forget : WriteBehind S → ℕ → Option AttrMap → WriteBehind S
  forget w id none = w
  forget w id (some attrs) =
      let dirty = Map.remove ℕ_discrete id w.dirty in
      record w { dirty = dirty; dirty_attrs = total dirty }

  unfoldable pub attrs_put : WriteBehind S → ℕ → AttrMap → WriteBehind S
  unfolding slot put_loop
  attrs_put w id attrs =
      if is_empty attrs
      then w
      else let (slot', dirty_attrs, batched) =
          put_loop attrs (slot w.dirty id) w.dirty_attrs w.batched_writes in
        record w {
          dirty = Map.insert ℕ_discrete id slot' w.dirty;
          dirty_attrs = dirty_attrs;
          batched_writes = batched;
        }

-- What the backend refused is buffered again.
abbrev pub put_back : Dirty → ℕ → AttrMap → Dirty
put_back dirty id attrs = Map.insert ℕ_discrete id (extend (slot dirty id) attrs) dirty

-- One account of the loop below, by the backend's answer.
abbrev pub put_done :
    {S : Type 0}
    → (S → Dirty → Option StorageError → S × Dirty × Option StorageError)
    → S
    → Dirty
    → Dirty
    → Option StorageError
    → Result S StorageError
    → S × Dirty × Option StorageError
put_done rest s again dirty first (ok s') = rest s' dirty first
put_done rest s again dirty first (err e) = rest s again (some (get_or first e))

-- The end of a flush without an error, by the answer of the backend's own flush.
abbrev pub synced :
    {S : Type 0}
    → WriteBehind S
    → ℕ
    → Result S StorageError
    → Result (Unit {0}) StorageError × WriteBehind S
synced w now_ms (ok s) =
    (ok tt, record w { backend = s; last_flush_ms = now_ms; flushes = wrap (w.flushes + 1) })
synced w now_ms (err e) =
    (err e, record w { last_flush_ms = now_ms; flushes = wrap (w.flushes + 1) })

module _ {S : Type 0} (B : Backend S) where
  -- The loop of `flush_now` over the accounts that were dirty: the backend, what is dirty again, and
  -- the first error.
  unfoldable pub flush_accounts :
      Dirty → S → Dirty → Option StorageError → S × Dirty × Option StorageError
  unfolding slot extend
  flush_accounts [] s dirty first = (s, dirty, first)
  flush_accounts ((id, attrs) ∷ pending) s dirty first =
      put_done (flush_accounts pending) s (put_back dirty id attrs) dirty first
        (B.attrs_put s id attrs)

  abbrev pub flushed :
      WriteBehind S → ℕ → Option StorageError → Result (Unit {0}) StorageError × WriteBehind S
  flushed w now_ms (some e) = (err e, w)
  flushed w now_ms none = synced w now_ms (B.flush w.backend)

  unfoldable pub flush_now : WriteBehind S → ℕ → Result (Unit {0}) StorageError × WriteBehind S
  unfolding flush_accounts total
  flush_now w now_ms =
      let (s, dirty, first) = flush_accounts w.dirty w.backend [] none in
      flushed (record w { backend = s; dirty = dirty; dirty_attrs = total dirty }) now_ms first

  unfoldable pub tick : WriteBehind S → ℕ → Result Bool StorageError × WriteBehind S
  unfolding is_due flush_now
  tick w now_ms =
      if is_empty w.dirty
      then (ok false, record w { last_flush_ms = now_ms })
      else if is_due w now_ms
      then ticked (flush_now w now_ms)
      else (ok false, w)

  -- `Storage::flush`.
  unfoldable pub flush : WriteBehind S → Result (Unit {0}) StorageError × WriteBehind S
  unfolding flush_now
  flush w = flush_now w w.last_flush_ms

  unfoldable pub attrs_get : WriteBehind S → ℕ → List Text → Result AttrMap StorageError
  unfolding slot patch
  attrs_get w id keys = do
    out ← B.attrs_get w.backend id keys
    ok (patch keys (slot w.dirty id) out)

  unfoldable pub attrs_all : WriteBehind S → ℕ → Result AttrMap StorageError
  unfolding slot extend
  attrs_all w id = do out ← B.attrs_all w.backend id; ok (extend out (slot w.dirty id))

  abbrev pub deleted :
      WriteBehind S → Result S StorageError → Result (Unit {0}) StorageError × WriteBehind S
  deleted w (ok s) = (ok tt, record w { backend = s })
  deleted w (err e) = (err e, w)

  unfoldable pub delete_account : WriteBehind S → ℕ → Result (Unit {0}) StorageError × WriteBehind S
  unfolding total
  delete_account w id =
      let w' = forget w id (Map.get ℕ_discrete id w.dirty) in
      deleted w' (B.delete_account w'.backend id)
