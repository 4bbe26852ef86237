-- ===== src/Vault/Hands/Refresh.antt =====
-- packages/vault/src/vault.ts: reading a Hands key, and the refresh of an OAuth credential that has expired.
-- The refresh of a key that is in flight is shared by its callers; here a call runs alone.
use byok_business_autopilot.Base.{ℕ, ◌+◌, Bool, true, false, Option, none, some, [], ◌∷◌, leb}
use byok_business_autopilot.Base.Steps.{◌>>=◌, ◌>>◌, return, throw}
use byok_business_autopilot.Vault.Crypto.{Bytes, EncryptedBlob, encrypt, decrypt, hands_aad}
use byok_business_autopilot.Vault.Types.{
  RequesterIdentity, hands_refresh_failed, hands_refresh_token_revoked, malformed_credential,
  HandsKeyRecord, CredentialKind, opaque, oauth, OAuthCredential, RefreshedCredential, rotate,
  decrypt_granted, granted_scope, silent_refresh,
}
use byok_business_autopilot.Vault.Handle.{SecretHandle}
use byok_business_autopilot.Vault.State.{
  Fresh, Setup, RefreshReply, refreshed, token_revoked, failed, timed_out, VaultStep, log_audit,
  assert_router_service, dek_for_read, dek_for_write,
}
use byok_business_autopilot.Vault.Hands.{
  RequestedBy, update_hands, find_hands, readable_hands, bound, revoke_hands_key,
}

-- EXPIRY_SAFETY_MARGIN_MS
abbrev pub expiry_safety_margin_ms : ℕ
expiry_safety_margin_ms = 60000

-- An empty text is falsy, like an absent one.
abbrev pub present : Option Bytes → Option Bytes
present none = none
present (some []) = none
present (some (b ∷ bs)) = some (b ∷ bs)

-- `Date.parse(…) - Date.now() <= margin`; a comparison with `NaN` is false.
abbrev pub passed : ℕ → Option ℕ → Bool
passed now none = false
passed now (some at) = leb at (now + expiry_safety_margin_ms)

abbrev pub expired_at : (Bytes → Option ℕ) → ℕ → Option Bytes → Bool
expired_at parse_date now none = false
expired_at parse_date now (some date) = passed now (parse_date date)

abbrev pub parsed : Option OAuthCredential → VaultStep OAuthCredential
parsed none = throw malformed_credential
parsed (some credential) = return credential

abbrev pub refreshable : Option Bytes → VaultStep Bytes
refreshable none = throw hands_refresh_failed
refreshable (some token) = return token

abbrev pub registered : Option (Bytes → RefreshReply) → VaultStep (Bytes → RefreshReply)
registered none = throw hands_refresh_failed
registered (some refresher) = return refresher

-- What the store is given after a refresh: the id, the scope and the fingerprint stay.
abbrev pub rekeyed : Fresh → EncryptedBlob → HandsKeyRecord → HandsKeyRecord
rekeyed fresh blob r = record r { material = some blob; updated_at = fresh.now }

-- The new token, under the refresh token and the scope that were there.
abbrev pub merged : OAuthCredential → RefreshedCredential → OAuthCredential
merged credential result = record credential {
  access_token = result.access_token;
  expires_at = some result.expires_at;
}

-- The handle that a caller is given.
abbrev pub granted : Bytes → SecretHandle
granted plaintext = record { buffer = some plaintext }

-- The audit comes before the handle.
abbrev pub handed :
    HandsKeyRecord → Bytes → RequestedBy → RequesterIdentity → Bytes → VaultStep SecretHandle
handed r key_id claim requester secret = do
  log_audit decrypt_granted r.tenant_id key_id requester
      (granted_scope claim.sub_agent_id claim.capability_scope)
  return (granted secret)

module _ (setup : Setup) where
  unfoldable pub credential_is_expired : ℕ → OAuthCredential → Bool
  credential_is_expired now credential =
      expired_at setup.platform.parse_date now (present credential.expires_at)

  -- A revoked refresh token revokes the key before it throws; any other failure leaves the key alone.
  abbrev pub settled :
      HandsKeyRecord
      → OAuthCredential
      → RequesterIdentity
      → Fresh
      → RefreshReply
      → VaultStep OAuthCredential
  settled r credential requester fresh token_revoked = do
    revoke_hands_key r.tenant_id r.id requester fresh
    throw hands_refresh_token_revoked
  settled r credential requester fresh failed = throw hands_refresh_failed
  settled r credential requester fresh timed_out = throw hands_refresh_failed
  settled r credential requester fresh (refreshed result) = do
    let credential' = merged credential result
    dek ← dek_for_write setup r.tenant_id fresh
    let aad = hands_aad r.sub_agent_id r.capability_scope
    let text = setup.platform.stringify credential'
    update_hands (rekeyed fresh (encrypt setup.platform.cipher fresh.iv text dek (some aad)) r)
    log_audit rotate r.tenant_id r.id requester (silent_refresh r.service)
    return credential'

  unfoldable pub perform_refresh :
      HandsKeyRecord → OAuthCredential → RequesterIdentity → Fresh → VaultStep OAuthCredential
  perform_refresh r credential requester fresh = do
    token ← refreshable (present credential.refresh_token)
    refresher ← registered (setup.refreshers r.service)
    settled r credential requester fresh (refresher token)

  abbrev pub fresh_credential :
      HandsKeyRecord
      → OAuthCredential
      → RequesterIdentity
      → Fresh
      → Bool
      → VaultStep OAuthCredential
  fresh_credential r credential requester fresh true = perform_refresh r credential requester fresh
  fresh_credential r credential requester fresh false = return credential

  -- An opaque secret is handed back as it is; of a credential only the access token is.
  abbrev pub revealed :
      HandsKeyRecord → RequesterIdentity → Fresh → Bytes → CredentialKind → VaultStep Bytes
  revealed r requester fresh plaintext opaque = return plaintext
  revealed r requester fresh plaintext oauth = do
    credential ← parsed (setup.platform.parse plaintext)
    usable ←
        fresh_credential r credential requester fresh (credential_is_expired fresh.now credential)
    return usable.access_token

  -- A credential that has expired is refreshed first.
  abbrev pub hand_over :
      HandsKeyRecord
      → Bytes
      → RequestedBy
      → RequesterIdentity
      → Fresh
      → Bytes
      → VaultStep SecretHandle
  hand_over r key_id claim requester fresh plaintext = do
    secret ← revealed r requester fresh plaintext r.credential_kind
    handed r key_id claim requester secret

  -- "unknown"
  abbrev pub unknown : Bytes
  unknown = 117 ∷ 110 ∷ 107 ∷ 110 ∷ 111 ∷ 119 ∷ 110 ∷ []

  unfoldable pub decrypt_hands_key :
      Bytes → Bytes → RequestedBy → RequesterIdentity → Fresh → VaultStep SecretHandle
  decrypt_hands_key tenant_id key_id claim requester fresh = do
    assert_router_service requester
    found ← find_hands tenant_id key_id
    (r, blob) ← readable_hands key_id requester unknown found
    dek ← dek_for_read setup r.tenant_id fresh
    let claimed_aad = hands_aad claim.sub_agent_id claim.capability_scope
    plaintext ←
        bound r key_id requester claim (decrypt setup.platform.cipher blob dek (some claimed_aad))
    hand_over r key_id claim requester fresh plaintext
