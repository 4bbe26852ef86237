-- ===== src/Tests/Vault/Refresh.antt =====
-- Tests of packages/vault: an OAuth credential that has expired.
use byok_business_autopilot.Base.{◌≡◌, refl, ap, true, false, Option, none, some, [], ◌∷◌, ok}
use byok_business_autopilot.Base.Dict.{insert, lookup-insert_self}
use byok_business_autopilot.Vault.Crypto.{
  Bytes, bytes_eq, EncryptedBlob, hands_aad, encrypt, decrypt_dek, decrypt-encrypt,
}
use byok_business_autopilot.Vault.Types.{
  router_service, oauth, HandsKeyRecord, OAuthCredential, RefreshedCredential,
}
use byok_business_autopilot.Vault.Keys.{get_hands_key_by_id}
use byok_business_autopilot.Vault.State.{State, RefreshReply, refreshed}
use byok_business_autopilot.Vault.Hands.{RequestedBy}
use byok_business_autopilot.Vault.Hands.Refresh.{
  merged, granted, credential_is_expired, decrypt_hands_key,
}
use byok_business_autopilot.Vault.Hands.FailClosed.{Holds, asked, decrypt_hands_key-fails_closed}
use byok_business_autopilot.Vault.Hands.Renewed.{decrypt_hands_key-renews}
use byok_business_autopilot.Tests.Vault.{
  toy_cipher, toy_sound, parse-to_text, toy_platform, toy_setup, toy_running, fresh_at,
}

abbrev credential : OAuthCredential
credential = record {
  access_token = 31 ∷ [];
  refresh_token = some (32 ∷ []);
  expires_at = some (50 ∷ []);
  scope = none;
}

abbrev result : RefreshedCredential
result = record { access_token = 41 ∷ []; expires_at = 255 ∷ [] }

abbrev scope_aad : Option Bytes
scope_aad = some (hands_aad (4 ∷ []) (5 ∷ []))

abbrev oauth_blob : EncryptedBlob
oauth_blob = encrypt toy_cipher (8 ∷ []) (toy_platform.stringify credential) (9 ∷ []) scope_aad

abbrev dek_blob : EncryptedBlob
dek_blob = encrypt toy_cipher (8 ∷ []) (9 ∷ []) (1 ∷ 2 ∷ []) none

abbrev oauth_record : HandsKeyRecord
oauth_record = record {
  id = 2 ∷ [];
  tenant_id = 1 ∷ [];
  sub_agent_id = 4 ∷ [];
  capability_scope = 5 ∷ [];
  service = 6 ∷ [];
  material = some oauth_blob;
  credential_kind = oauth;
  masked_fingerprint = [];
  revoked = false;
  revoked_at = none;
  created_at = 100;
  updated_at = 100;
}

abbrev oauth_state : State
oauth_state = record {
  brain = [];
  hands = record { by_id = insert (2 ∷ []) oauth_record []; index = [] };
  deks = insert (1 ∷ []) dek_blob [];
  audit = [];
  events = [];
}

abbrev claim : RequestedBy
claim = record { sub_agent_id = 4 ∷ []; capability_scope = 5 ∷ [] }

holds :
    (reply : RefreshReply)
    → Holds (toy_setup reply) (1 ∷ []) oauth_record claim credential oauth_state
unfolding get_hands_key_by_id decrypt_dek
holds reply = (
  oauth_blob,
  9 ∷ [],
  toy_platform.stringify credential,
  (
    refl,
    refl,
    (
      dek_blob,
      lookup-insert_self (1 ∷ []) dek_blob [],
      decrypt-encrypt toy_cipher toy_sound (8 ∷ []) (9 ∷ []) (1 ∷ 2 ∷ []) none,
    ),
    lookup-insert_self (2 ∷ []) oauth_record [],
  ),
  refl,
  decrypt-encrypt toy_cipher toy_sound (8 ∷ []) (toy_platform.stringify credential) (9 ∷ [])
      scope_aad,
  ap some (parse-to_text credential),
)

expired : (reply : RefreshReply) → credential_is_expired (toy_setup reply) 600000 credential ≡ true
unfolding credential_is_expired
expired reply = refl

parses : (c : OAuthCredential) → toy_platform.parse (toy_platform.stringify c) ≡ some c
parses c = ap some (parse-to_text c)

not_yet :
    credential_is_expired (toy_setup (refreshed result)) 700000 (merged credential result) ≡ false
unfolding credential_is_expired
not_yet = refl

decrypt_hands_key-renews_example :
    (s' : State) × (decrypt_hands_key
        (toy_setup (refreshed result))
        (1 ∷ [])
        (2 ∷ [])
        claim
        (router_service [])
        (fresh_at 3 600000)
        oauth_state
      ≡ (ok (granted (41 ∷ [])), s'))
    × ((decrypt_hands_key
          (toy_setup (refreshed result))
          (1 ∷ [])
          (2 ∷ [])
          claim
          (router_service [])
          (fresh_at 4 700000)
          s').0
        ≡ ok (granted (41 ∷ [])))
decrypt_hands_key-renews_example =
    decrypt_hands_key-renews (toy_setup (refreshed result)) toy_sound toy_running (1 ∷ []) []
      oauth_record credential result (fresh_at 3 600000) (fresh_at 4 700000) oauth_state parses
      (holds (refreshed result)) (expired (refreshed result)) refl not_yet

renewed_first :
    (decrypt_hands_key
      (toy_setup (refreshed result))
      (1 ∷ [])
      (2 ∷ [])
      claim
      (router_service [])
      (fresh_at 3 600000)
      oauth_state).0
    ≡ ok (granted (41 ∷ []))
renewed_first =
    ap (λ p. p.0)
      (decrypt_hands_key-renews (toy_setup (refreshed result)) toy_sound toy_running (1 ∷ []) []
        oauth_record credential result (fresh_at 3 600000) (fresh_at 4 700000) oauth_state parses
        (holds (refreshed result)) (expired (refreshed result)) refl not_yet).1

decrypt_hands_key-fails_closed_example :
    (r : RefreshedCredential) × (asked (toy_setup (refreshed result)) oauth_record credential
      ≡ some (refreshed r))
    × (granted (41 ∷ []) ≡ granted r.access_token)
decrypt_hands_key-fails_closed_example =
    decrypt_hands_key-fails_closed (toy_setup (refreshed result)) (1 ∷ []) [] oauth_record claim
      credential (fresh_at 3 600000) oauth_state (granted (41 ∷ [])) (holds (refreshed result))
      (expired (refreshed result)) renewed_first
