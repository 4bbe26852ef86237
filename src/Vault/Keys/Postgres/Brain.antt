-- ===== src/Vault/Keys/Postgres/Brain.antt =====
-- packages/vault/src/durable/vaultKeyStore.ts: the Brain keys of the two stores.
use byok_business_autopilot.Base.{
  ◌≡◌, refl, sym, ap, ◌∙◌, Bool, true, false, ◌&&◌, Option, none, some, List, [], ◌∷◌, ◌==◌,
  if◌then◌else◌, arith,
}
use byok_business_autopilot.Base.Dict.{lookup, insert, lookup-insert}
use byok_business_autopilot.Vault.Crypto.{Bytes, bytes_eq}
use byok_business_autopilot.Vault.Types.{BrainKeyRecord}
use byok_business_autopilot.Vault.Keys.{BrainKeys, get_brain_key, put_brain_key, roles_of}
use byok_business_autopilot.Vault.Keys.Postgres.{select_brain_key, upsert_brain_key}

-- A record but for the time it was made, which the upsert leaves as it was.
abbrev pub undated : BrainKeyRecord → BrainKeyRecord
undated r = record r { created_at = 0 }

abbrev pub undated_option : Option BrainKeyRecord → Option BrainKeyRecord
undated_option none = none
undated_option (some r) = some (undated r)

-- The same answer to every lookup, but for that time.
abbrev pub StoresAgree : List BrainKeyRecord → BrainKeys → Type 0
StoresAgree rows keys =
    (t role : Bytes)
    → undated_option (select_brain_key t role rows) ≡ undated_option (get_brain_key t role keys)

abbrev asks_for : BrainKeyRecord → Bytes → Bytes → Bool
asks_for r t role = (r.tenant_id == t) && (r.role_id == role)

get-put_brain_key_of :
    (r : BrainKeyRecord) (keys : BrainKeys) (t role : Bytes)
    → get_brain_key t role (put_brain_key r keys)
      ≡ (if asks_for r t role then some r else get_brain_key t role keys)
unfolding get_brain_key put_brain_key
get-put_brain_key_of r keys t role = ground (
  arith,
  lookup-insert r.tenant_id t (insert r.role_id r (roles_of (lookup r.tenant_id keys))) keys,
  lookup-insert r.role_id role r (roles_of (lookup r.tenant_id keys)),
)

select-upsert_brain_key :
    (r : BrainKeyRecord) (rows : List BrainKeyRecord) (t role : Bytes)
    → undated_option (select_brain_key t role (upsert_brain_key r rows))
      ≡ undated_option (if asks_for r t role then some r else select_brain_key t role rows)
unfolding select_brain_key upsert_brain_key
select-upsert_brain_key r [] t role = ground arith
select-upsert_brain_key r (row ∷ rows) t role =
    ground (arith, select-upsert_brain_key r rows t role)

either-agree :
    (test : Bool) (r : BrainKeyRecord) (o o' : Option BrainKeyRecord)
    → undated_option o ≡ undated_option o'
    → undated_option (if test then some r else o) ≡ undated_option (if test then some r else o')
either-agree true r o o' h = refl
either-agree false r o o' h = h

-- One store call on both stores.
upsert_brain_key-Agrees :
    (r : BrainKeyRecord) (rows : List BrainKeyRecord) (keys : BrainKeys)
    → StoresAgree rows keys
    → StoresAgree (upsert_brain_key r rows) (put_brain_key r keys)
upsert_brain_key-Agrees r rows keys agree t role =
    select-upsert_brain_key r rows t role
    ∙ either-agree (asks_for r t role) r (select_brain_key t role rows) (get_brain_key t role keys)
        (agree t role)
    ∙ ap undated_option (sym (get-put_brain_key_of r keys t role))

abbrev pub upsert_all : List BrainKeyRecord → List BrainKeyRecord → List BrainKeyRecord
upsert_all [] rows = rows
upsert_all (r ∷ rs) rows = upsert_all rs (upsert_brain_key r rows)

abbrev pub put_all : List BrainKeyRecord → BrainKeys → BrainKeys
put_all [] keys = keys
put_all (r ∷ rs) keys = put_all rs (put_brain_key r keys)

all-Agree :
    (rs rows : List BrainKeyRecord) (keys : BrainKeys)
    → StoresAgree rows keys
    → StoresAgree (upsert_all rs rows) (put_all rs keys)
all-Agree [] rows keys agree = agree
all-Agree (r ∷ rs) rows keys agree =
    all-Agree rs (upsert_brain_key r rows) (put_brain_key r keys)
      (upsert_brain_key-Agrees r rows keys agree)

empty-Agree : StoresAgree [] []
unfolding select_brain_key get_brain_key lookup
empty-Agree t role = refl

-- After any Brain keys are stored, for any tenants and roles and over keys that are there, the Postgres
-- store and the one in memory answer every lookup with the same record, but for the time it was made.
pub upsert_all-Agree : (rs : List BrainKeyRecord) → StoresAgree (upsert_all rs []) (put_all rs [])
upsert_all-Agree rs = all-Agree rs [] [] empty-Agree
