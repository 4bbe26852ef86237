-- ===== src/Tests/Vault/Keys.antt =====
-- Tests of packages/vault: storing keys, and who may read them.
use byok_business_autopilot.Base.{
  ℕ, ◌≡◌, ◌≢◌, refl, ap, true, false, none, some, List, map, [], ◌∷◌, ok, err, arith,
}
use byok_business_autopilot.Base.Dict.{lookup, insert, lookup-insert_self}
use byok_business_autopilot.Base.Lists.{get_elem?}
use byok_business_autopilot.Vault.Crypto.{Bytes, bytes_eq, Kms, local_kms, encrypt_dek}
use byok_business_autopilot.Vault.Types.{
  RequesterIdentity, router_service, tenant_user, access_denied, scope_binding, validation_failed,
  opaque, BrainKeyRecord, HandsKeyRecord, PublicKeyRecord,
}
use byok_business_autopilot.Vault.Deks.{
  put_if_absent, FreshDek, returned, step_dek, get_or_create_dek,
}
use byok_business_autopilot.Vault.Deks.Race.{
  Caller, begin, step_caller, run_schedule, Extends, run_schedule-Agrees,
}
use byok_business_autopilot.Vault.Keys.{put_brain_key, get_hands_key_by_id}
use byok_business_autopilot.Vault.State.{State, timed_out, Setup, Validation}
use byok_business_autopilot.Vault.Brain.{
  StoreBrainKeyInput, store_brain_key, rotate_brain_key, decrypt_brain_key,
}
use byok_business_autopilot.Vault.Brain.Sealed.{get-put_brain_key}
use byok_business_autopilot.Vault.Brain.RoundTrip.{Decrypts, store_brain_key-Decrypts}
use byok_business_autopilot.Vault.Hands.{
  StoreHandsKeyInput, RequestedBy, store_hands_key, rotate_hands_key,
}
use byok_business_autopilot.Vault.Hands.Refresh.{granted, decrypt_hands_key}
use byok_business_autopilot.Vault.Hands.Scope.{
  own_claim, store_hands_key-is_bound, store_hands_key-regrouped,
}
use byok_business_autopilot.Vault.Calls.{
  VaultCall, call_store_brain, call_revoke_brain, call_store_hands, call_decrypt_hands, empty_vault,
  make_calls,
}
use byok_business_autopilot.Vault.Purged.{Purged}
use byok_business_autopilot.Vault.Purged.Calls.{make_calls-Purged}
use byok_business_autopilot.Vault.Refusals.{
  rejected, decrypt_needs_router_service, rejected_key_stores_nothing,
}
use byok_business_autopilot.Tests.Vault.{
  toy_cipher, toy_sound, toy_setup, toy_running, draw, fresh_at,
}

abbrev idle : Setup
idle = toy_setup timed_out

abbrev owner : RequesterIdentity
owner = tenant_user (7 ∷ [])

abbrev brain_input : StoreBrainKeyInput
brain_input = record {
  tenant_id = 1 ∷ [];
  role_id = 2 ∷ [];
  provider = 3 ∷ [];
  plaintext = 11 ∷ 12 ∷ 13 ∷ [];
  validate = some (λ text. some true);
}

store_brain_key-Decrypts_example :
    (shown : PublicKeyRecord) × (s' : State) × (store_brain_key idle brain_input owner
        (fresh_at 1 100)
        empty_vault
      ≡ (ok shown, s'))
    × Decrypts idle toy_sound toy_running (1 ∷ []) (2 ∷ []) (11 ∷ 12 ∷ 13 ∷ []) (3 ∷ []) s'
store_brain_key-Decrypts_example =
    store_brain_key-Decrypts idle toy_sound toy_running brain_input owner (fresh_at 1 100)
      empty_vault refl

abbrev hands_input : Bytes → StoreHandsKeyInput
hands_input sub_agent_id = record {
  tenant_id = 1 ∷ [];
  sub_agent_id = sub_agent_id;
  capability_scope = 5 ∷ [];
  service = 6 ∷ [];
  plaintext = 21 ∷ 22 ∷ [];
  validate = none;
  credential_kind = opaque;
}

abbrev wrong_claim : RequestedBy
wrong_claim = record { sub_agent_id = 9 ∷ []; capability_scope = 5 ∷ [] }

abbrev first_byte : Bytes → ℕ
first_byte [] = 0
first_byte (b ∷ bs) = b

store_hands_key-is_bound_example :
    (shown : PublicKeyRecord) × (s' : State) × (store_hands_key idle
        (hands_input (4 ∷ []))
        owner
        (fresh_at 1 100)
        empty_vault
      ≡ (ok shown, s'))
    × ((decrypt_hands_key idle
          (1 ∷ [])
          (1 ∷ [])
          wrong_claim
          (router_service [])
          (fresh_at 2 200)
          s').0
        ≡ err scope_binding)
    × ((decrypt_hands_key idle
          (1 ∷ [])
          (1 ∷ [])
          (own_claim idle toy_sound toy_running (hands_input (4 ∷ [])))
          (router_service [])
          (fresh_at 2 200)
          s').0
        ≡ ok (granted (21 ∷ 22 ∷ [])))
store_hands_key-is_bound_example =
    store_hands_key-is_bound idle toy_sound toy_running (hands_input (4 ∷ [])) owner
      (fresh_at 1 100) (fresh_at 2 200) empty_vault [] wrong_claim tt
      ((λ (e : ◌≡◌ {A = ℕ} 4 58). omega (arith, e)), tt)
      ((λ (e : ◌≡◌ {A = ℕ} 9 58). omega (arith, e)), tt) refl
      (λ e. omega (arith, ap (λ (c : RequestedBy). first_byte c.sub_agent_id) e))

store_hands_key-regrouped_example :
    (shown : PublicKeyRecord) × (s' : State) × (store_hands_key idle
        (hands_input (4 ∷ 58 ∷ 8 ∷ []))
        owner
        (fresh_at 1 100)
        empty_vault
      ≡ (ok shown, s'))
    × ((decrypt_hands_key idle
          (1 ∷ [])
          (1 ∷ [])
          (record { sub_agent_id = 4 ∷ []; capability_scope = 8 ∷ 58 ∷ 5 ∷ [] })
          (router_service [])
          (fresh_at 2 200)
          s').0
        ≡ ok (granted (21 ∷ 22 ∷ [])))
store_hands_key-regrouped_example =
    store_hands_key-regrouped idle toy_sound toy_running (hands_input (4 ∷ 58 ∷ 8 ∷ [])) owner
      (fresh_at 1 100) (fresh_at 2 200) empty_vault [] (4 ∷ []) (8 ∷ []) tt refl refl

not_a_service : (id : Bytes) → owner ≢ router_service id
not_a_service id e = cc e

decrypt_needs_router_service_example :
    (decrypt_brain_key idle (1 ∷ []) (2 ∷ []) owner (fresh_at 1 100) empty_vault
      ≡ (err access_denied, empty_vault))
    × (decrypt_hands_key idle (1 ∷ []) (3 ∷ []) wrong_claim owner (fresh_at 1 100) empty_vault
        ≡ (err access_denied, empty_vault))
decrypt_needs_router_service_example =
    decrypt_needs_router_service idle (1 ∷ []) (2 ∷ []) (3 ∷ []) wrong_claim owner (fresh_at 1 100)
      empty_vault not_a_service

abbrev calls : List VaultCall
calls =
    call_store_brain brain_input owner (fresh_at 1 100)
    ∷ call_store_hands (hands_input (4 ∷ [])) owner (fresh_at 2 200)
    ∷ call_revoke_brain (1 ∷ []) (2 ∷ []) owner (fresh_at 3 300)
    ∷ call_decrypt_hands (1 ∷ []) (2 ∷ []) wrong_claim (router_service []) (fresh_at 4 400)
    ∷ []

make_calls-Purged_example : Purged (make_calls idle calls empty_vault)
make_calls-Purged_example = make_calls-Purged idle calls

abbrev brain_record : BrainKeyRecord
brain_record = record {
  id = 1 ∷ [];
  tenant_id = 1 ∷ [];
  role_id = 2 ∷ [];
  provider = 3 ∷ [];
  material = none;
  masked_fingerprint = [];
  revoked = false;
  revoked_at = none;
  created_at = 100;
  updated_at = 100;
}

abbrev hands_record : HandsKeyRecord
hands_record = record {
  id = 2 ∷ [];
  tenant_id = 1 ∷ [];
  sub_agent_id = 4 ∷ [];
  capability_scope = 5 ∷ [];
  service = 6 ∷ [];
  material = none;
  credential_kind = opaque;
  masked_fingerprint = [];
  revoked = false;
  revoked_at = none;
  created_at = 100;
  updated_at = 100;
}

abbrev two_keys : State
two_keys = record {
  brain = put_brain_key brain_record [];
  hands = record { by_id = insert (2 ∷ []) hands_record []; index = [] };
  deks = [];
  audit = [];
  events = [];
}

abbrev refuse : Validation
refuse = some (λ text. some false)

hands_there : get_hands_key_by_id (1 ∷ []) (2 ∷ []) two_keys.hands ≡ some hands_record
unfolding get_hands_key_by_id
hands_there = lookup-insert_self (2 ∷ []) hands_record []

rejected_key_stores_nothing_example :
    (store_brain_key idle (record brain_input { validate = refuse }) owner (fresh_at 1 100) two_keys
      ≡ (err validation_failed, rejected (1 ∷ []) owner two_keys))
    × (store_hands_key idle
          (record (hands_input []) { validate = refuse })
          owner
          (fresh_at 1 100)
          two_keys
        ≡ (err validation_failed, rejected (1 ∷ []) owner two_keys))
    × (rotate_brain_key idle (1 ∷ []) (2 ∷ []) (5 ∷ []) owner refuse (fresh_at 1 100) two_keys
        ≡ (err validation_failed, rejected (1 ∷ []) owner two_keys))
    × (rotate_hands_key idle (1 ∷ []) (2 ∷ []) (5 ∷ []) owner refuse (fresh_at 1 100) two_keys
        ≡ (err validation_failed, rejected (1 ∷ []) owner two_keys))
rejected_key_stores_nothing_example =
    rejected_key_stores_nothing idle (record brain_input { validate = refuse })
      (record (hands_input []) { validate = refuse }) brain_record hands_record (5 ∷ []) refuse
      owner (fresh_at 1 100) two_keys refl refl refl (get-put_brain_key brain_record []) refl
      hands_there refl

abbrev draws : List FreshDek
draws = draw 1 ∷ draw 2 ∷ []

abbrev schedule : List ℕ
schedule = 0 ∷ 1 ∷ 0 ∷ []

abbrev ended : Caller
ended = record { fresh = draw 1; call = returned (ok (1 ∷ [])) }

abbrev master : Kms
master = local_kms (1 ∷ 2 ∷ [])

ended_first :
    get_elem? (run_schedule toy_cipher master (1 ∷ []) schedule (map begin draws, [])).0 0
    ≡ some ended
unfolding run_schedule step_caller step_dek put_if_absent lookup encrypt_dek
ended_first = refl

run_schedule-Agrees_example :
    let w = run_schedule toy_cipher master (1 ∷ []) schedule (map begin draws, []) in
    (get_or_create_dek toy_cipher master (1 ∷ []) (draw 5) w.1 ≡ (ok (1 ∷ []), w.1))
    × Extends toy_cipher master (lookup {K = Bytes} (1 ∷ []) []) (lookup {K = Bytes} (1 ∷ []) w.1)
run_schedule-Agrees_example =
    run_schedule-Agrees toy_cipher toy_sound master toy_running (1 ∷ []) draws schedule [] 0 ended
      (ok (1 ∷ [])) (draw 5) ended_first refl
