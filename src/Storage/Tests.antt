-- ===== src/Storage/Tests.antt =====
-- Names, accounts and attributes at concrete values.
use bnet_command_center.Base.{◌≡◌, ◌≢◌, refl, none, some, List, [], ◌∷◌, ite, ℕ_discrete, ok, arith}
use bnet_command_center.Text.{Text, Text-discrete, codes, lowercase}
use bnet_command_center.Base.Map
use bnet_command_center.Text.{is_digit}
use bnet_command_center.Bridge.{new_tag, derive_name, is_alphanumeric, name_is_reserved_for_bridges}
use bnet_command_center.Storage.{lookup, listed}
use bnet_command_center.Storage.Names.{validate_account_name, validate_account_name-derive_name}
use bnet_command_center.Storage.Memory.{
  Account, NewAccount, xsha1, MemoryStorage, account_by_name, create_account,
}
use bnet_command_center.Storage.Memory
use bnet_command_center.Storage.Memory.Valid.{IsValid, new-IsValid}
use bnet_command_center.Storage.Memory.Calls
use bnet_command_center.Storage.Memory.Calls.{create, delete, create_account-found}
use bnet_command_center.Storage.Memory.Behind.{backend}
use bnet_command_center.Storage.WriteBehind
use bnet_command_center.Storage.WriteBehind.{
  WriteBehind, default_policy, slot, total, put_loop, flush_accounts, flush_now, tick, attrs_put,
  attrs_get, delete_account,
}
use bnet_command_center.Storage.WriteBehind.View.{seen, attrs_get-seen, delete_account-seen}
use bnet_command_center.Storage.WriteBehind.Flush.{flush_now-durable}
use bnet_command_center.Storage.WriteBehind.Run.{put, flushes_at, ticks_at, written, run, run-seen}

program : Unit {0}
unfolding new_tag is_alphanumeric is_digit ℕ_discrete Text-discrete Memory.attrs_get
    name_is_reserved_for_bridges Map.get Map.insert Map.remove Memory.new create_account lookup
    WriteBehind.new flush_now tick attrs_put attrs_get delete_account slot total put_loop
    flush_accounts backend
program = tt

validate_account_name-derive_name_example :
    validate_account_name (derive_name (record { as_str = codes "D" }) (codes "al@ice") none)
    ≢ ok tt
unfolding program
validate_account_name-derive_name_example =
    validate_account_name-derive_name (codes "D") (record { as_str = codes "D" }) (codes "al@ice")
      none refl

abbrev alice : NewAccount
alice = record { name = codes "Alice"; credential = xsha1 []; created_at = 7; attrs = [] }

abbrev calls : List Calls.Call
calls = create alice ∷ create alice ∷ delete 1 ∷ []

run-IsValid_example : IsValid (Calls.run calls Memory.new)
unfolding program
run-IsValid_example = Calls.run-IsValid calls Memory.new new-IsValid (omega arith)

abbrev alice_account : Account
alice_account = record { id = 1; name = codes "Alice"; credential = xsha1 []; created_at = 7 }

create_account-found_example :
    account_by_name (create_account Memory.new alice).1 (codes "ALICE")
    ≡ ite
        (Text-discrete (lowercase alice.name) (lowercase (codes "ALICE")))
        (some alice_account)
        (account_by_name Memory.new (codes "ALICE"))
unfolding program
create_account-found_example =
    create_account-found Memory.new (create_account Memory.new alice).1 alice alice_account
      (codes "ALICE") new-IsValid (omega arith) refl

abbrev location : Text
location = codes "profile\\location"

abbrev fresh : WriteBehind MemoryStorage
fresh = WriteBehind.new Memory.new default_policy 0

abbrev edited : WriteBehind MemoryStorage
edited = attrs_put fresh 1 ((location, codes "here") ∷ [])

attrs_get-seen_example :
    lookup ((location, codes "here") ∷ []) location
    ≡ listed (location ∷ []) location (seen backend edited 1 location)
unfolding program
attrs_get-seen_example =
    attrs_get-seen backend edited 1 (location ∷ []) ((location, codes "here") ∷ []) location refl

delete_account-seen_example :
    seen backend (delete_account backend edited 1).1 1 location
    ≡ ite (ℕ_discrete 1 1) none (seen backend edited 1 location)
unfolding program
delete_account-seen_example = delete_account-seen backend edited 1 1 location refl

flush_now-durable_example :
    ((flush_now backend edited 9).1.dirty ≡ [])
    × (backend.view (flush_now backend edited 9).1.backend 1 location
        ≡ seen backend edited 1 location)
unfolding program
flush_now-durable_example =
    flush_now-durable backend edited 9 1 location (refl, tt) ((refl, tt), tt) (tt, tt) refl

abbrev uses : List WriteBehind.Run.Call
uses =
    put 1 ((location, codes "here") ∷ [])
    ∷ ticks_at 40000
    ∷ put 1 ((location, codes "there") ∷ [])
    ∷ flushes_at 40001
    ∷ []

run-seen_example :
    seen backend (run backend uses fresh) 1 location
    ≡ written uses 1 (seen backend fresh 1) location
unfolding program
run-seen_example =
    run-seen backend (λ id. Unit {0}) uses fresh 1 location (tt, (tt, (tt, (tt, tt))))
      ((tt, tt, refl), (tt, λ id u. tt))
