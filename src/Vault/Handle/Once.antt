-- ===== src/Vault/Handle/Once.antt =====
-- packages/vault/src/secretHandle.ts and fingerprint.ts: how much of a secret gets out.
use byok_business_autopilot.Base.{
  ℕ, ◌+◌, ◌-◌, ◌≤◌, ◌<◌, suc, zero, ◌≡◌, refl, sym, ap, ◌∙◌, ◌⊎◌, inl, inr, false, none, some, List,
  [], ◌∷◌, ◌++◌, leb, if◌then◌else◌, arith,
}
use byok_business_autopilot.Base.Lists.{length, length-append}
use byok_business_autopilot.Vault.Crypto.{Bytes}
use byok_business_autopilot.Vault.Handle.{
  take, drop, mask_fingerprint, HandleEvent, use_secret, ttl_fires, zero_it, zero_buffer,
  use_handle, reads,
}

reads-zeroed : (events : List HandleEvent) → reads events (record { buffer = none }) ≡ []
unfolding reads use_handle zero_buffer
reads-zeroed [] = refl
reads-zeroed (use_secret ∷ events) = reads-zeroed events
reads-zeroed (ttl_fires ∷ events) = reads-zeroed events
reads-zeroed (zero_it ∷ events) = reads-zeroed events

-- Whatever happens to a handle, in any order, its secret is given out at most once, and nothing else is:
-- not after a use, and not after the time to live or an explicit zeroing.
pub reads_at_most_once :
    (plaintext : Bytes) (events : List HandleEvent)
    → let given = reads events (record { buffer = some plaintext }) in
      (given ≡ []) ⊎ (given ≡ plaintext ∷ [])
unfolding reads use_handle zero_buffer
reads_at_most_once plaintext [] = inl refl
reads_at_most_once plaintext (use_secret ∷ events) =
    inr (ap (λ rest. plaintext ∷ rest) (reads-zeroed events))
reads_at_most_once plaintext (ttl_fires ∷ events) = inl (reads-zeroed events)
reads_at_most_once plaintext (zero_it ∷ events) = inl (reads-zeroed events)

length-take : (n : ℕ) (bs : Bytes) → length (take n bs) ≤ n
length-take zero bs = omega arith
length-take (suc n) [] = omega arith
length-take (suc n) (b ∷ bs) = omega (arith, length-take n bs)

length-drop : (n : ℕ) (bs : Bytes) → length (drop n bs) ≡ length bs - n
length-drop zero bs = omega arith
length-drop (suc n) [] = omega arith
length-drop (suc n) (b ∷ bs) = omega (arith, length-drop n bs)

abbrev shown : Bytes → Bytes → Bytes
shown first last = first ++ (46 ∷ 46 ∷ 46 ∷ []) ++ last

long : (n : ℕ) → 7 < n → leb n 7 ≡ false
long n h = ground (arith, h)

mask_fingerprint-long :
    (a : Bytes) → 7 < length a → mask_fingerprint a ≡ shown (take 3 a) (drop (length a - 4) a)
unfolding mask_fingerprint
mask_fingerprint-long a h =
    ap (λ test. if test then 42 ∷ 42 ∷ 42 ∷ [] else shown (take 3 a) (drop (length a - 4) a))
      (long (length a) h)

length-shown : (first last : Bytes) → length (shown first last) ≡ length first + 3 + length last
length-shown first last = omega (
  arith,
  length-append (first ++ (46 ∷ 46 ∷ 46 ∷ [])) last,
  length-append first (46 ∷ 46 ∷ 46 ∷ []),
)

-- Two texts of more than seven characters with the same first three and last four have the same
-- fingerprint, and no fingerprint has more than ten characters: what is between is not in it.
pub mask_fingerprint_hides :
    (a b : Bytes)
    → 7 < length a
    → 7 < length b
    → take 3 a ≡ take 3 b
    → drop (length a - 4) a ≡ drop (length b - 4) b
    → (mask_fingerprint a ≡ mask_fingerprint b) × (length (mask_fingerprint a) ≤ 10)
mask_fingerprint_hides a b la lb p q = (
  mask_fingerprint-long a la
      ∙ ap (λ first. shown first (drop (length a - 4) a)) p
      ∙ ap (shown (take 3 b)) q
      ∙ sym (mask_fingerprint-long b lb),
  omega (
    arith,
    ap length (mask_fingerprint-long a la),
    length-shown (take 3 a) (drop (length a - 4) a),
    length-take 3 a,
    length-drop (length a - 4) a,
    la,
  ),
)
