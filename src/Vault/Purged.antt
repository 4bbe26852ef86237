-- ===== src/Vault/Purged.antt =====
-- packages/vault/src/vault.ts: a revoked key has no material, whatever the vault does.
use byok_business_autopilot.Base.{
  ℕ, ◌≡◌, ◌≢◌, refl, sym, ap, ◌∙◌, subst, Bool, true, false, Option, none, some, List, [], ◌∷◌, ◌⊎◌,
  inl, inr, ok, err, ite, Option-cases, Bool-cases, ◌==◌, if◌then◌else◌, Eq, arith,
}
use byok_business_autopilot.Base.Dict.{Dict, lookup, insert, lookup-insert}
use byok_business_autopilot.Base.Steps.{
  Step, after, Keeps, Keeps->>=, ◌>>=◌, ◌>>◌, return, throw, gets, modify,
}
use byok_business_autopilot.Vault.Crypto.{Bytes, bytes_eq, EncryptedBlob}
use byok_business_autopilot.Vault.Types.{BrainKeyRecord, HandsKeyRecord}
use byok_business_autopilot.Vault.State.{State}
use byok_business_autopilot.Vault.Brain.{put_brain, update_brain}
use byok_business_autopilot.Vault.Hands.{put_hands, update_hands}
use byok_business_autopilot.Vault.Keys.{
  BrainKeys, HandsKeys, get_brain_key, put_brain_key, roles_of, get_hands_key_by_id, put_hands_key,
  update_hands_key,
}
pub mod Guards
pub mod Brain
pub mod Hands
pub mod Calls

-- `material` is null once `revoked` is set.
abbrev pub Tombstone : Bool → Option EncryptedBlob → Type 0
Tombstone false material = Unit
Tombstone true material = material ≡ none

-- Every entry has the property.
abbrev pub Every {ℓ κ π} : {K : Type ℓ} {V : Type κ} → (V → Type π) → Dict K V → Type π
Every P [] = Unit
Every P ((k, v) ∷ m) = P v × Every P m

module _ {ℓ κ π} {K : Type ℓ} {V : Type κ} ⦃e : Eq K⦄ (P : V → Type π) where
  pub Every-insert : (k : K) (v : V) (m : Dict K V) → P v → Every P m → Every P (insert k v m)
  unfolding insert
  Every-insert k v [] p h = (p, tt)
  Every-insert k v ((j, w) ∷ m) p h = elim (Bool-cases (j == k)) [
    | inl same ↦
        subst (λ b. Every P (if b then (k, v) ∷ m else (j, w) ∷ insert k v m)) (sym same) (p, h.1)
    | inr other ↦
        subst (λ b. Every P (if b then (k, v) ∷ m else (j, w) ∷ insert k v m)) (sym other)
          (h.0, Every-insert k v m p h.1)
  ]

  pub Every-lookup : (k : K) (m : Dict K V) {v : V} → Every P m → lookup k m ≡ some v → P v
  unfolding lookup
  Every-lookup k [] h at = cc
  Every-lookup k ((j, w) ∷ m) {v} h at = elim (Bool-cases (j == k)) [
    | inl same ↦
        let found = subst (λ b. (if b then some w else lookup k m) ≡ some v) same at in
        subst (λ o. elim o [ none ↦ Unit {π} | some x ↦ P x ]) found h.0
    | inr other ↦
        Every-lookup k m h.1 (subst (λ b. (if b then some w else lookup k m) ≡ some v) other at)
  ]

abbrev pub BrainTombstone : BrainKeyRecord → Type 0
BrainTombstone r = Tombstone r.revoked r.material

abbrev pub HandsTombstone : HandsKeyRecord → Type 0
HandsTombstone r = Tombstone r.revoked r.material

-- Every record on file has no material when it is revoked.
pub record Purged (s : State) : Type 0 where
  pub brain : Every (Every BrainTombstone) s.brain
  pub hands : Every HandsTombstone s.hands.by_id

roles-Every :
    (o : Option (Dict Bytes BrainKeyRecord)) (keys : BrainKeys) (t : Bytes)
    → lookup t keys ≡ o
    → Every (Every BrainTombstone) keys
    → Every BrainTombstone (roles_of o)
roles-Every none keys t e h = tt
roles-Every (some m) keys t e h = Every-lookup (Every BrainTombstone) t keys h e

pub put_brain-Purged :
    (r : BrainKeyRecord) (s : State) → BrainTombstone r → Purged s → Purged (put_brain r s).1
unfolding put_brain put_brain_key
put_brain-Purged r s p h =
    let roles = roles_of (lookup r.tenant_id s.brain) in
    record {
      brain =
          Every-insert (Every BrainTombstone) r.tenant_id (insert r.role_id r roles) s.brain
            (Every-insert BrainTombstone r.role_id r roles p
              (roles-Every (lookup r.tenant_id s.brain) s.brain r.tenant_id refl h.brain))
            h.brain;
      hands = h.hands;
    }

pub update_brain-Purged :
    (r : BrainKeyRecord) (s : State) → BrainTombstone r → Purged s → Purged (update_brain r s).1
unfolding put_brain update_brain
update_brain-Purged r s p h = put_brain-Purged r s p h

pub put_hands-Purged :
    (r : HandsKeyRecord) (s : State) → HandsTombstone r → Purged s → Purged (put_hands r s).1
unfolding put_hands put_hands_key
put_hands-Purged r s p h = record {
  brain = h.brain;
  hands = Every-insert HandsTombstone r.id r s.hands.by_id p h.hands;
}

pub update_hands-Purged :
    (r : HandsKeyRecord) (s : State) → HandsTombstone r → Purged s → Purged (update_hands r s).1
unfolding update_hands update_hands_key
update_hands-Purged r s p h = record {
  brain = h.brain;
  hands = Every-insert HandsTombstone r.id r s.hands.by_id p h.hands;
}
