-- ===== src/Tests/Vault.antt =====
-- Tests of packages/vault and packages/jobs, and the platform they run on: a cipher that puts the key and the
-- additional data into the tag.
mod Keys
mod Refresh
mod Stores
use byok_business_autopilot.Base.{
  ℕ, zero, suc, ◌+◌, ◌*◌, ◌≡◌, ◌≢◌, refl, sym, ap, ◌∙◌, subst, Bool, true, false, Option, none,
  some, List, [], ◌∷◌, ◌++◌, Eq, ◌==◌, ==_iff, if◌then◌else◌, Bool-cases, ◌⊎◌, inl, inr, arith,
}
use byok_business_autopilot.Base.Lists.{length}
use byok_business_autopilot.Vault.Crypto.{
  Bytes, bytes_eq, Aead, IsAuthentic, Kms, local_kms, cloud_kms,
}
use byok_business_autopilot.Vault.Types.{OAuthCredential, RefreshedCredential}
use byok_business_autopilot.Vault.Handle.{take, drop}
use byok_business_autopilot.Vault.Deks.{FreshDek}
use byok_business_autopilot.Vault.State.{Fresh, Platform, Setup, RefreshReply, refreshed}

abbrev tag_of : Bytes → Option Bytes → Bytes
tag_of key none = 0 ∷ key
tag_of key (some aad) = 1 ∷ length key ∷ (key ++ aad)

abbrev opened_if : Bool → Bytes → Option Bytes
opened_if true text = some text
opened_if false text = none

abbrev pub toy_cipher : Aead
toy_cipher = record {
  seal = λ key iv aad text. (text, tag_of key aad);
  unseal = λ key iv aad text tag. opened_if (tag == tag_of key aad) text;
}

abbrev head_of : Bytes → ℕ
head_of [] = 0
head_of (b ∷ bs) = b

abbrev tail_of : Bytes → Bytes
tail_of [] = []
tail_of (b ∷ bs) = bs

append-injective :
    (a a' b b' : Bytes) → length a ≡ length a' → a ++ b ≡ a' ++ b' → (a ≡ a') × (b ≡ b')
append-injective [] [] b b' n h = (refl, h)
append-injective [] (y ∷ a') b b' n h = absurd (omega (arith, n))
append-injective (x ∷ a) [] b b' n h = absurd (omega (arith, n))
append-injective (x ∷ a) (y ∷ a') b b' n h =
    let (p, q) = append-injective a a' b b' (omega (arith, n)) (ap tail_of h) in
    let first = ap head_of h in (cc, q)

tag_of-injective :
    (key key' : Bytes) (aad aad' : Option Bytes)
    → tag_of key aad ≡ tag_of key' aad'
    → (key ≡ key') × (aad ≡ aad')
tag_of-injective key key' none none h = (ap tail_of h, refl)
tag_of-injective key key' none (some b) h = absurd (omega (arith, ap head_of h))
tag_of-injective key key' (some a) none h = absurd (omega (arith, ap head_of h))
tag_of-injective key key' (some a) (some b) h =
    let (p, q) =
      append-injective key key' a b (ap (λ t. head_of (tail_of t)) h)
        (ap (λ t. tail_of (tail_of t)) h) in
    (p, ap some q)

shut : (tag other text : Bytes) → tag ≢ other → opened_if (tag == other) text ≡ none
shut tag other text n = elim (Bool-cases (tag == other)) [
  | inl same ↦ absurd (n ((==_iff tag other).0 same))
  | inr different ↦ ap (λ b. opened_if b text) different
]

pub toy_sound : IsAuthentic toy_cipher
toy_sound = record {
  opens = λ key iv aad text. ap (λ b. opened_if b text) ((==_iff (tag_of key aad) _).1 refl);
  other_aad = λ key iv aad claimed text n.
      shut (tag_of key aad) (tag_of key claimed) text
        (λ e. n (tag_of-injective key key aad claimed e).1);
  other_key = λ key wrong iv aad text n.
      shut (tag_of key aad) (tag_of wrong aad) text
        (λ e. n (tag_of-injective key wrong aad aad e).0);
}

abbrev put_text : Bytes → Bytes → Bytes
put_text text rest = length text ∷ (text ++ rest)

abbrev put_option : Option Bytes → Bytes → Bytes
put_option none rest = 0 ∷ rest
put_option (some text) rest = 1 ∷ put_text text rest

abbrev get_text : Bytes → Bytes × Bytes
get_text [] = ([], [])
get_text (n ∷ rest) = (take n rest, drop n rest)

abbrev get_option : Bytes → Option Bytes × Bytes
get_option [] = (none, [])
get_option (zero ∷ rest) = (none, rest)
get_option (suc n ∷ rest) = (some (get_text rest).0, (get_text rest).1)

get-put_text : (text rest : Bytes) → get_text (put_text text rest) ≡ (text, rest)
get-put_text [] rest = refl
get-put_text (b ∷ text) rest = ap (λ p. (b ∷ p.0, p.1)) (get-put_text text rest)

get-put_option : (o : Option Bytes) (rest : Bytes) → get_option (put_option o rest) ≡ (o, rest)
get-put_option none rest = refl
get-put_option (some text) rest = ap (λ p. (some p.0, p.1)) (get-put_text text rest)

abbrev to_text : OAuthCredential → Bytes
to_text c =
    put_text c.access_token
      (put_option c.refresh_token (put_option c.expires_at (put_option c.scope [])))

abbrev after_token : Bytes × Bytes → OAuthCredential
after_token (token, rest) =
    let refresh = get_option rest in
    let expires = get_option refresh.1 in
    record {
      access_token = token;
      refresh_token = refresh.0;
      expires_at = expires.0;
      scope = (get_option expires.1).0;
    }

pub parse-to_text : (c : OAuthCredential) → after_token (get_text (to_text c)) ≡ c
parse-to_text c =
    let scope = put_option c.scope [] in
    let expires = put_option c.expires_at scope in
    ap after_token (get-put_text c.access_token (put_option c.refresh_token expires))
    ∙ ap
        (λ (p : Option Bytes × Bytes). record {
          access_token = c.access_token;
          refresh_token = p.0;
          expires_at = (get_option p.1).0;
          scope = (get_option (get_option p.1).1).0;
        })
        (get-put_option c.refresh_token expires)
    ∙ ap
        (λ (p : Option Bytes × Bytes). record {
          access_token = c.access_token;
          refresh_token = c.refresh_token;
          expires_at = p.0;
          scope = (get_option p.1).0;
        })
        (get-put_option c.expires_at scope)
    ∙ ap
        (λ (p : Option Bytes × Bytes). record {
          access_token = c.access_token;
          refresh_token = c.refresh_token;
          expires_at = c.expires_at;
          scope = p.0;
        })
        (get-put_option c.scope [])

-- A date is its first byte, in ten seconds.
abbrev pub toy_platform : Platform
toy_platform = record {
  cipher = toy_cipher;
  decode = λ text. text;
  stringify = to_text;
  parse = λ text. some (after_token (get_text text));
  parse_date = λ text. some (head_of text * 10000);
}

abbrev pub toy_setup : RefreshReply → Setup
toy_setup reply = record {
  platform = toy_platform;
  kms = local_kms (1 ∷ 2 ∷ []);
  refreshers = λ service. some (λ token. reply);
}

pub toy_running : ◌≢◌ {A = Kms} (local_kms (1 ∷ 2 ∷ [])) cloud_kms
toy_running e = cc e

abbrev pub draw : ℕ → FreshDek
draw n = record { dek = n ∷ []; iv = (n + 1) ∷ [] }

abbrev pub fresh_at : ℕ → ℕ → Fresh
fresh_at n now = record {
  id = n ∷ [];
  iv = n ∷ [];
  dek = draw n;
  spare_dek = draw (n + 10);
  now = now;
}
