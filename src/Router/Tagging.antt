-- ===== src/Router/Tagging.antt =====
-- apps/router/src/tagging.ts. The order of `sort` is the platform's, a parameter that keeps the tags.
use byok_business_autopilot.Base.{
  ◌≡◌, refl, ap, ◌∙◌, sym, Bool, true, false, ◌||◌, Option, some, List, [], ◌∷◌, ◌++◌,
  if◌then◌else◌, inl, inr, Bool-cases, arith,
}
use byok_business_autopilot.ApprovalQueue.Types.{has_tag, deny_list_tags, is_denied_from_autonomy}
use Prim.Native.String.{String}
use text.Mathlib.Text.{◌==◌}
use text.Mathlib.TextEquality.{eq_iff}
use text.Mathlib.TextPositions.{eq_refl}

pub data Stakes : Type 0 where
  low_stakes medium_stakes high_stakes : Stakes

pub data TaskAutonomy : Type 0 where
  locked earnable eligible_early : TaskAutonomy

pub data Frequency : Type 0 where
  daily_task weekly_task monthly_task adhoc_task : Frequency

pub record TaggingHints : Type 0 where
  pub stakes : Option Stakes
  pub autonomy : Option TaskAutonomy
  pub frequency : Option Frequency
  pub requires_professional_verification : Bool

-- `tags.add(tag)`: a set keeps the first of equal tags.
unfoldable pub add_tag : String → List String → List String
add_tag tag tags = if has_tag tag tags then tags else tags ++ tag ∷ []

-- `new Set(explicitTags)`
unfoldable pub set_of : List String → List String → List String
set_of [] tags = tags
set_of (tag ∷ rest) tags = set_of rest (add_tag tag tags)

abbrev pub add_if : Bool → String → List String → List String
add_if true tag tags = add_tag tag tags
add_if false tag tags = tags

abbrev pub is_high : Option Stakes → Bool
is_high (some high_stakes) = true
is_high _ = false

abbrev pub is_locked : Option TaskAutonomy → Bool
is_locked (some locked) = true
is_locked _ = false

abbrev pub is_eligible_early : Option TaskAutonomy → Bool
is_eligible_early (some eligible_early) = true
is_eligible_early _ = false

abbrev pub is_daily : Option Frequency → Bool
is_daily (some daily_task) = true
is_daily _ = false

unfoldable pub derive_tags : (List String → List String) → TaggingHints → List String → List String
derive_tags sort hints explicit_tags =
    let tags = set_of explicit_tags [] in
    let tags = add_if (is_high hints.stakes) "high-stakes" tags in
    let tags = add_if (is_locked hints.autonomy) "never-autonomous" tags in
    let tags = add_if (is_eligible_early hints.autonomy) "autonomy-eligible" tags in
    let tags = add_if (is_daily hints.frequency) "high-volume" tags in
    sort (add_if hints.requires_professional_verification "requires-professional-verification" tags)

has_tag-append :
    (t : String) (xs ys : List String) → has_tag t (xs ++ ys) ≡ (has_tag t xs || has_tag t ys)
has_tag-append t [] ys = refl
has_tag-append t (x ∷ xs) ys = ground (arith, has_tag-append t xs ys)

-- A tag that is there stays there, and one that is added is there.
has_tag-add_tag :
    (t u : String) (tags : List String) → has_tag t tags ≡ true → has_tag t (add_tag u tags) ≡ true
unfolding add_tag
has_tag-add_tag t u tags h = ground (arith, h, has_tag-append t tags (u ∷ []))

has_tag-add_self : (t : String) (tags : List String) → has_tag t (add_tag t tags) ≡ true
unfolding add_tag
has_tag-add_self t tags = ground (arith, has_tag-append t tags (t ∷ []), eq_refl t)

has_tag-add_if :
    (t u : String) (test : Bool) (tags : List String)
    → has_tag t tags ≡ true
    → has_tag t (add_if test u tags) ≡ true
has_tag-add_if t u true tags h = has_tag-add_tag t u tags h
has_tag-add_if t u false tags h = h

has_tag-add_if_self :
    (t : String) (test : Bool) (tags : List String)
    → test ≡ true
    → has_tag t (add_if test t tags) ≡ true
has_tag-add_if_self t true tags e = has_tag-add_self t tags
has_tag-add_if_self t false tags e = cc

or_right : (a b : Bool) → b ≡ true → (a || b) ≡ true
or_right true b h = refl
or_right false b h = h

-- A tag of the deny list among the tags denies autonomy.
has_tag-is_denied :
    (t : String) (tags : List String)
    → has_tag t deny_list_tags ≡ true
    → has_tag t tags ≡ true
    → is_denied_from_autonomy tags ≡ true
unfolding is_denied_from_autonomy
has_tag-is_denied t [] d h = cc
has_tag-is_denied t (x ∷ xs) d h = elim (Bool-cases (x == t)) [
  | inl same ↦
      ap (λ b. b || is_denied_from_autonomy xs)
        (ap (λ u. has_tag u deny_list_tags) ((eq_iff x t).0 same) ∙ d)
  | inr other ↦
      or_right (has_tag x deny_list_tags) (is_denied_from_autonomy xs)
        (has_tag-is_denied t xs d (ap (λ b. b || has_tag t xs) (sym other) ∙ h))
]

left_true : (a b : Bool) → (a || b) ≡ true → b ≡ false → a ≡ true
left_true true b h e = refl
left_true false b h e = cc

-- A task that is locked, or that needs professional verification, is denied autonomy by the tags derived
-- for it, whatever its other hints and its explicit tags. The platform's sort keeps the tags.
pub derive_tags-is_denied :
    (sort : List String → List String) (hints : TaggingHints) (explicit_tags : List String)
    → ((t : String) (tags : List String) → has_tag t (sort tags) ≡ has_tag t tags)
    → (is_locked hints.autonomy || hints.requires_professional_verification) ≡ true
    → is_denied_from_autonomy (derive_tags sort hints explicit_tags) ≡ true
unfolding derive_tags
derive_tags-is_denied sort hints explicit_tags keeps h =
    let start = add_if (is_high hints.stakes) "high-stakes" (set_of explicit_tags []) in
    let with_lock = add_if (is_locked hints.autonomy) "never-autonomous" start in
    let with_early = add_if (is_eligible_early hints.autonomy) "autonomy-eligible" with_lock in
    let most = add_if (is_daily hints.frequency) "high-volume" with_early in
    let check : String = "requires-professional-verification" in
    let all = add_if hints.requires_professional_verification check most in
    elim (Bool-cases hints.requires_professional_verification) [
      | inl needed ↦ has_tag-is_denied check (sort all) refl (
          keeps check all
          ∙ has_tag-add_if_self check hints.requires_professional_verification most needed)
      | inr free ↦
          let lock : String = "never-autonomous" in
          has_tag-is_denied lock (sort all) refl (
            keeps lock all
            ∙ has_tag-add_if lock check hints.requires_professional_verification most (
                has_tag-add_if lock "high-volume" (is_daily hints.frequency) with_early (
                  has_tag-add_if lock "autonomy-eligible" (is_eligible_early hints.autonomy)
                    with_lock
                    (has_tag-add_if_self lock (is_locked hints.autonomy) start (
                      left_true (is_locked hints.autonomy) hints.requires_professional_verification
                        h free)))))
    ]
