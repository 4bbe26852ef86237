-- ===== src/Vault/Crypto/Binding.antt =====
-- packages/vault/src/crypto.ts: what the additional data of a key binds. The parts are joined by a colon, so
-- they can be read back only when the first has none.
use byok_business_autopilot.Base.{ℕ, ◌≡◌, ◌≢◌, refl, sym, ap, [], ◌∷◌, ◌++◌, arith}
use byok_business_autopilot.Vault.Crypto.{Bytes, colon, brain_aad, hands_aad}

abbrev pub HasNoColon : Bytes → Type 0
HasNoColon [] = Unit
HasNoColon (b ∷ bs) = (b ≢ colon) × HasNoColon bs

abbrev head_of : Bytes → ℕ
head_of [] = 0
head_of (b ∷ bs) = b

abbrev tail_of : Bytes → Bytes
tail_of [] = []
tail_of (b ∷ bs) = bs

pub join-injective :
    (a a' b b' : Bytes)
    → HasNoColon a
    → HasNoColon a'
    → a ++ colon ∷ b ≡ a' ++ colon ∷ b'
    → (a ≡ a') × (b ≡ b')
join-injective [] [] b b' h h' e = (refl, ap tail_of e)
join-injective [] (y ∷ a') b b' h h' e = absurd (h'.0 (sym (ap head_of e)))
join-injective (x ∷ a) [] b b' h h' e = absurd (h.0 (ap head_of e))
join-injective (x ∷ a) (y ∷ a') b b' h h' e =
    let (p, q) = join-injective a a' b b' h.1 h'.1 (ap tail_of e) in
    let head = ap head_of e in (cc, q)

pub hands_aad-injective :
    (a a' b b' : Bytes)
    → HasNoColon a
    → HasNoColon a'
    → hands_aad a b ≡ hands_aad a' b'
    → (a ≡ a') × (b ≡ b')
unfolding hands_aad
hands_aad-injective a a' b b' h h' e =
    join-injective a a' b b' h h'
      (ap (λ t. tail_of (tail_of (tail_of (tail_of (tail_of (tail_of t)))))) e)

-- A key of a sub-agent is never opened as a key of a role.
pub hands_aad-ne-brain_aad : (a b r p : Bytes) → hands_aad a b ≢ brain_aad r p
unfolding hands_aad brain_aad
hands_aad-ne-brain_aad a b r p e = omega (arith, ap head_of e)
