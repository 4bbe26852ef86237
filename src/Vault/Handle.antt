-- ===== src/Vault/Handle.antt =====
-- packages/vault/src/fingerprint.ts and secretHandle.ts.
use byok_business_autopilot.Base.{
  ℕ, zero, suc, ◌+◌, ◌-◌, ◌≤◌, ◌<◌, ◌≡◌, refl, ap, Bool, true, false, Option, none, some, List, [],
  ◌∷◌, ◌++◌, Result, ok, err, leb, if◌then◌else◌, arith,
}
use byok_business_autopilot.Base.Lists.{length}
use byok_business_autopilot.Vault.Crypto.{Bytes}
use byok_business_autopilot.Vault.Types.{VaultError, secret_expired}
pub mod Once

abbrev pub take : ℕ → Bytes → Bytes
take zero bs = []
take (suc n) [] = []
take (suc n) (b ∷ bs) = b ∷ take n bs

abbrev pub drop : ℕ → Bytes → Bytes
drop zero bs = bs
drop (suc n) [] = []
drop (suc n) (b ∷ bs) = drop n bs

-- Of the text that `toString("utf8")` gives; 42 is a star and 46 a dot.
unfoldable pub mask_fingerprint : Bytes → Bytes
mask_fingerprint text =
    if leb (length text) 7
    then 42 ∷ 42 ∷ 42 ∷ []
    else take 3 text ++ (46 ∷ 46 ∷ 46 ∷ []) ++ drop (length text - 4) text

-- `null` is a buffer that was zeroed.
pub record SecretHandle : Type 0 where
  pub buffer : Option Bytes

pub data HandleEvent : Type 0 where
  use_secret ttl_fires zero_it : HandleEvent

unfoldable pub zero_buffer : SecretHandle → SecretHandle
zero_buffer handle = record handle { buffer = none }

unfoldable pub use_handle : SecretHandle → Result VaultError Bytes × SecretHandle
use_handle handle = elim handle.buffer [
  | none ↦ (err secret_expired, handle)
  | some plaintext ↦ (ok plaintext, zero_buffer handle)
]

-- The plaintexts that a handle's callers are given, in order.
unfoldable pub reads : List HandleEvent → SecretHandle → List Bytes
reads [] handle = []
reads (use_secret ∷ events) handle =
    given (use_handle handle).0 (reads events (use_handle handle).1)
  where
    given : Result VaultError Bytes → List Bytes → List Bytes
    given (ok plaintext) rest = plaintext ∷ rest
    given (err thrown) rest = rest
reads (ttl_fires ∷ events) handle = reads events (zero_buffer handle)
reads (zero_it ∷ events) handle = reads events (zero_buffer handle)
