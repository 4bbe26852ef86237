-- ===== src/Vault/Crypto.antt =====
-- packages/vault/src/crypto.ts and kms.ts. The cipher is node:crypto's AES-256-GCM, a parameter with the
-- behaviour its users rely on; `randomBytes` is an argument, the bytes it gives.
use byok_business_autopilot.Base.{
  ℕ, ◌≡◌, ◌≢◌, subst, Option, none, some, List, [], ◌∷◌, ◌++◌, Eq, ℕ_discrete,
}
use mathlib.Core.List.{List-discrete}
pub mod Binding

abbrev pub Bytes : Type 0
Bytes = List ℕ

pub Bytes-discrete : Discrete Bytes
Bytes-discrete = List-discrete ℕ_discrete

instance abbrev pub bytes_eq : Eq Bytes
bytes_eq = record { dec = Bytes-discrete }

pub record EncryptedBlob : Type 0 where
  pub ciphertext : Bytes
  pub iv : Bytes
  pub auth_tag : Bytes

-- What the code calls of node: a cipher's output and its tag, and what the decipher gives back, `none`
-- when it throws.
pub record Aead : Type 0 where
  pub seal : (key iv : Bytes) (aad : Option Bytes) (plaintext : Bytes) → Bytes × Bytes
  pub unseal : (key iv : Bytes) (aad : Option Bytes) (ciphertext auth_tag : Bytes) → Option Bytes

-- Authenticated encryption: the same key and additional data give the text back, other ones throw.
pub record IsAuthentic (c : Aead) : Type 0 where
  pub opens :
      (key iv : Bytes) (aad : Option Bytes) (plaintext : Bytes)
      → c.unseal key iv aad (c.seal key iv aad plaintext).0 (c.seal key iv aad plaintext).1
        ≡ some plaintext
  pub other_aad :
      (key iv : Bytes) (aad claimed : Option Bytes) (plaintext : Bytes)
      → aad ≢ claimed
      → c.unseal key iv claimed (c.seal key iv aad plaintext).0 (c.seal key iv aad plaintext).1
        ≡ none
  pub other_key :
      (key wrong iv : Bytes) (aad : Option Bytes) (plaintext : Bytes)
      → key ≢ wrong
      → c.unseal wrong iv aad (c.seal key iv aad plaintext).0 (c.seal key iv aad plaintext).1 ≡ none

abbrev pub colon : ℕ
colon = 58

-- `brain:${roleId}:${provider}` and `hands:${subAgentId}:${capabilityScope}`
unfoldable pub brain_aad : Bytes → Bytes → Bytes
brain_aad role_id provider = 98 ∷ 114 ∷ 97 ∷ 105 ∷ 110 ∷ colon ∷ (role_id ++ colon ∷ provider)

unfoldable pub hands_aad : Bytes → Bytes → Bytes
hands_aad sub_agent_id capability_scope =
    104 ∷ 97 ∷ 110 ∷ 100 ∷ 115 ∷ colon ∷ (sub_agent_id ++ colon ∷ capability_scope)

-- The KMS with a master key, of a file or of the environment, and the stub that throws.
pub data Kms : Type 0 where
  local_kms staging_kms : (master_key : Bytes) → Kms
  cloud_kms : Kms

module _ (c : Aead) where
  unfoldable pub encrypt : (iv plaintext key : Bytes) → Option Bytes → EncryptedBlob
  encrypt iv plaintext key aad = record {
    ciphertext = (c.seal key iv aad plaintext).0;
    iv = iv;
    auth_tag = (c.seal key iv aad plaintext).1;
  }

  unfoldable pub decrypt : EncryptedBlob → Bytes → Option Bytes → Option Bytes
  decrypt blob key aad = c.unseal key blob.iv aad blob.ciphertext blob.auth_tag

  unfoldable pub encrypt_dek : Kms → (iv dek : Bytes) → Option EncryptedBlob
  encrypt_dek (local_kms master_key) iv dek = some (encrypt iv dek master_key none)
  encrypt_dek (staging_kms master_key) iv dek = some (encrypt iv dek master_key none)
  encrypt_dek cloud_kms iv dek = none

  unfoldable pub decrypt_dek : Kms → EncryptedBlob → Option Bytes
  decrypt_dek (local_kms master_key) blob = decrypt blob master_key none
  decrypt_dek (staging_kms master_key) blob = decrypt blob master_key none
  decrypt_dek cloud_kms blob = none

module _ (c : Aead) (sound : IsAuthentic c) where
  pub decrypt-encrypt :
      (iv plaintext key : Bytes) (aad : Option Bytes)
      → decrypt c (encrypt c iv plaintext key aad) key aad ≡ some plaintext
  unfolding encrypt decrypt
  decrypt-encrypt iv plaintext key aad = sound.opens key iv aad plaintext

  pub decrypt-encrypt_other_aad :
      (iv plaintext key : Bytes) (aad claimed : Option Bytes)
      → aad ≢ claimed
      → decrypt c (encrypt c iv plaintext key aad) key claimed ≡ none
  unfolding encrypt decrypt
  decrypt-encrypt_other_aad iv plaintext key aad claimed n =
      sound.other_aad key iv aad claimed plaintext n

  pub decrypt-encrypt_other_key :
      (iv plaintext key wrong : Bytes) (aad : Option Bytes)
      → key ≢ wrong
      → decrypt c (encrypt c iv plaintext key aad) wrong aad ≡ none
  unfolding encrypt decrypt
  decrypt-encrypt_other_key iv plaintext key wrong aad n =
      sound.other_key key wrong iv aad plaintext n

  pub decrypt_dek-encrypt_dek :
      (kms : Kms) (iv dek : Bytes) {blob : EncryptedBlob}
      → encrypt_dek c kms iv dek ≡ some blob
      → decrypt_dek c kms blob ≡ some dek
  unfolding encrypt_dek decrypt_dek
  decrypt_dek-encrypt_dek (local_kms k) iv dek {blob} h =
      subst (λ o. elim o [ none ↦ Unit {0} | some b ↦ decrypt c b k none ≡ some dek ]) h
        (decrypt-encrypt iv dek k none)
  decrypt_dek-encrypt_dek (staging_kms k) iv dek {blob} h =
      subst (λ o. elim o [ none ↦ Unit {0} | some b ↦ decrypt c b k none ≡ some dek ]) h
        (decrypt-encrypt iv dek k none)
  decrypt_dek-encrypt_dek cloud_kms iv dek h = cc
