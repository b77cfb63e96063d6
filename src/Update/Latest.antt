-- ===== src/Update/Latest.antt =====
-- internal/updatecheck/checker.go: which tag is the latest, and when an update is announced.
use mathlib.Core.List.{Memᴰ}
use cpa_usage.Base.{
  some_injective, ℕ, ◌≡◌, ◌⊎◌, ◌∙◌, sym, ap, refl, inl, inr, true, false, Option, none, some, All,
  List, [], ◌∷◌, Bool-cases, Option-cases, subst,
}
use cpa_usage.Text.{Text, is_empty}
use cpa_usage.Result.{Result, ok, err}
use cpa_usage.Text.Trim.{trim_space, trim_left, trim_back}
use cpa_usage.Update.{
  literal, Version, Comparison, below, same, above, compare_parts, parse_stable_version,
  compare_stable_versions, ◌>>=◌, stable_groups, parts_of, is_some, is_stable_version, next_latest,
  latest_tag, latest_stable_version, Update, answered, compared, check_update,
}
use cpa_usage.Update.Order.{AtMost, AtMost-refl, AtMost-trans, compare_parts_cases}

-- A tag that the pattern fits has parts that fit an `int`.
abbrev pub Fits : Text → Type 0
Fits t = (is_stable_version t ≡ false) ⊎ ((v : Version) × (parse_stable_version t ≡ some v))

compare-parsed :
    (s t : Text) (v w : Version)
    → parse_stable_version s ≡ some v
    → parse_stable_version t ≡ some w
    → compare_stable_versions s t ≡ some (compare_parts v w)
unfolding compare_stable_versions
compare-parsed s t v w hs ht = rw (hs, ht) refl

parsed-stable :
    (t : Text) (v : Version) → parse_stable_version t ≡ some v → is_stable_version t ≡ true
unfolding parse_stable_version is_stable_version
parsed-stable t v h = elim (Option-cases (stable_groups (trim_space t))) [
  | inl e ↦ let clash = sym (ap (λ o. o >>= parts_of) e) ∙ h in cc
  | inr (g, e) ↦ ap is_some e
]

parsed-there : (t : Text) (v : Version) → parse_stable_version t ≡ some v → is_empty t ≡ false
unfolding parse_stable_version stable_groups literal trim_space trim_left trim_back
parsed-there [] v h = cc
parsed-there (c ∷ t) v h = refl

-- What a step of the loop makes of a latest tag with the parts `v` and a tag with the parts `u`.
abbrev Stepped : Text → Version → Version → Type 0
Stepped t v u = (w : Version) × (parse_stable_version t ≡ some w) × AtMost v w × AtMost u w

next_latest-Stepped :
    (latest tag : Text) (v u : Version)
    → parse_stable_version latest ≡ some v
    → parse_stable_version tag ≡ some u
    → Stepped (next_latest latest tag) v u
next_latest-Stepped latest tag v u h e =
    let compares = compare-parsed latest tag v u h e in
    elim (compare_parts_cases v u) [
      | inl (less, at_most) ↦
          rw (parsed-stable tag u e, parsed-there latest v h, compares, less)
            (u, e, at_most, AtMost-refl u)
      | inr (not_less, at_most) ↦
          rw (parsed-stable tag u e, parsed-there latest v h, compares, not_less)
            (v, h, AtMost-refl v, at_most)
    ]

next_latest-off :
    (latest tag : Text) → is_stable_version tag ≡ false → next_latest latest tag ≡ latest
next_latest-off latest tag off = rw off refl

-- Behind a latest tag with the parts `v`, the loop ends on a tag with parts that are not below them.
latest_tag-parsed :
    (tags : List Text) (latest : Text) (v : Version)
    → parse_stable_version latest ≡ some v
    → All Fits tags
    → (w : Version) × (parse_stable_version (latest_tag latest tags) ≡ some w) × AtMost v w
unfolding latest_tag
latest_tag-parsed [] latest v h fits = (v, h, AtMost-refl v)
latest_tag-parsed (tag ∷ tags) latest v h (inl off, fits) =
    subst (λ t. (w : Version) × (parse_stable_version (latest_tag t tags) ≡ some w) × AtMost v w)
      (sym (next_latest-off latest tag off)) (latest_tag-parsed tags latest v h fits)
latest_tag-parsed (tag ∷ tags) latest v h (inr (u, e), fits) =
    let (x, parsed, from_v, from_u) = next_latest-Stepped latest tag v u h e in
    let (w, result, from_x) = latest_tag-parsed tags (next_latest latest tag) x parsed fits in
    (w, result, AtMost-trans v x w from_v from_x)

-- The text has parts that are not below `u`.
abbrev pub Covers : Version → Text → Type 0
Covers u t = (w : Version) × (parse_stable_version t ≡ some w) × AtMost u w

latest_tag-Covers :
    (t : Text) (u : Version) (tags : List Text)
    → Memᴰ t tags
    → parse_stable_version t ≡ some u
    → (latest : Text) (v : Version) → parse_stable_version latest ≡ some v
    → All Fits tags
    → Covers u (latest_tag latest tags)
unfolding latest_tag
latest_tag-Covers t u [] m ht latest v h fits = elim m [ ]
latest_tag-Covers t u (tag ∷ tags) (Memᴰ.head is_tag) ht latest v h (fit, fits) =
    let (x, parsed, from_v, from_u) =
      next_latest-Stepped latest tag v u h
        (subst (λ s. parse_stable_version s ≡ some u) is_tag ht) in
    let (w, result, from_x) = latest_tag-parsed tags (next_latest latest tag) x parsed fits in
    (w, result, AtMost-trans u x w from_u from_x)
latest_tag-Covers t u (tag ∷ tags) (Memᴰ.tail later) ht latest v h (inl off, fits) =
    subst (λ s. Covers u (latest_tag s tags)) (sym (next_latest-off latest tag off))
      (latest_tag-Covers t u tags later ht latest v h fits)
latest_tag-Covers t u (tag ∷ tags) (Memᴰ.tail later) ht latest v h (inr (x, e), fits) =
    let (w, parsed, from_v, from_x) = next_latest-Stepped latest tag v x h e in
    latest_tag-Covers t u tags later ht (next_latest latest tag) w parsed fits

next_latest-first : (tag : Text) → is_stable_version tag ≡ true → next_latest [] tag ≡ tag
next_latest-first tag stable = rw stable refl

-- If every tag that the pattern fits has parts that fit an `int`, then the latest of the tags is such a
-- version, and no tag among them is a later version.
pub latest_tag-greatest :
    (t : Text) (u : Version) (tags : List Text)
    → Memᴰ t tags
    → parse_stable_version t ≡ some u
    → All Fits tags
    → Covers u (latest_tag [] tags)
unfolding latest_tag
latest_tag-greatest t u [] m ht fits = elim m [ ]
latest_tag-greatest t u (tag ∷ tags) (Memᴰ.head is_tag) ht (fit, fits) =
    let here = subst (λ s. parse_stable_version s ≡ some u) is_tag ht in
    subst (λ s. Covers u (latest_tag s tags))
      (sym (next_latest-first tag (parsed-stable tag u here)))
      (latest_tag-parsed tags tag u here fits)
latest_tag-greatest t u (tag ∷ tags) (Memᴰ.tail later) ht (inl off, fits) =
    subst (λ s. Covers u (latest_tag s tags)) (sym (next_latest-off [] tag off))
      (latest_tag-greatest t u tags later ht fits)
latest_tag-greatest t u (tag ∷ tags) (Memᴰ.tail later) ht (inr (x, e), fits) =
    subst (λ s. Covers u (latest_tag s tags)) (sym (next_latest-first tag (parsed-stable tag x e)))
      (latest_tag-Covers t u tags later ht tag x e fits)

uncomparable : (s t : Text) → parse_stable_version s ≡ none → compare_stable_versions s t ≡ none
unfolding compare_stable_versions
uncomparable s t h = rw h refl

-- A tag that the pattern fits, but whose parts do not fit an `int`, stays the latest one, whichever tags
-- follow.
latest_tag-overflow :
    (latest : Text) (tags : List Text)
    → is_empty latest ≡ false
    → parse_stable_version latest ≡ none
    → latest_tag latest tags ≡ latest
unfolding latest_tag
latest_tag-overflow latest [] there unparsed = refl
latest_tag-overflow latest (tag ∷ tags) there unparsed =
    let uncompared = uncomparable latest tag unparsed in
    elim (Bool-cases (is_stable_version tag)) [
      | inl stable ↦ rw (stable, there, uncompared) (latest_tag-overflow latest tags there unparsed)
      | inr off ↦ rw off (latest_tag-overflow latest tags there unparsed)
    ]

-- The current version and the latest one have parts, and those of the current one are less.
abbrev pub Outdated : Text → Update → Type 0
Outdated current r =
    (r.can_compare ≡ true)
    × ((v : Version) × (w : Version) × (parse_stable_version current ≡ some v)
        × (parse_stable_version r.latest_version ≡ some w)
        × (compare_parts v w ≡ below))

uncomparable_to :
    (s t : Text) (v : Version)
    → parse_stable_version s ≡ some v
    → parse_stable_version t ≡ none
    → compare_stable_versions s t ≡ none
unfolding compare_stable_versions
uncomparable_to s t v hs ht = rw (hs, ht) refl

compared_parts :
    (s t : Text) (c : Comparison)
    → compare_stable_versions s t ≡ some c
    → (v : Version) × (w : Version) × (parse_stable_version s ≡ some v)
      × (parse_stable_version t ≡ some w)
      × (compare_parts v w ≡ c)
compared_parts s t c h = elim (Option-cases (parse_stable_version s)) [
  | inl e ↦ let clash = sym (uncomparable s t e) ∙ h in cc
  | inr (v, hs) ↦ elim (Option-cases (parse_stable_version t)) [
    | inl e ↦ let clash = sym (uncomparable_to s t v hs e) ∙ h in cc
    | inr (w, ht) ↦ (v, w, hs, ht, some_injective (sym (compare-parsed s t v w hs ht) ∙ h))
  ]
]

announced :
    (current latest : Text) (c : Option Comparison)
    → compare_stable_versions current latest ≡ c
    → (compared current latest c).update_available ≡ true
    → Outdated current (compared current latest c)
announced current latest none e h = cc
announced current latest (some below) e h = (refl, compared_parts current latest below e)
announced current latest (some same) e h = cc
announced current latest (some above) e h = cc

-- What an answer owes: an announced update is one.
abbrev Honest : Text → Result Update → Type 0
Honest current (err e) = Unit
Honest current (ok r) = r.update_available ≡ true → Outdated current r

answered-Honest :
    (current : Text) (latest : Result (Option Text)) → Honest current (answered current latest)
answered-Honest current (err e) = tt
answered-Honest current (ok none) = λ h. cc
answered-Honest current (ok (some latest)) =
    announced current latest (compare_stable_versions current latest) refl

check_update-Honest :
    (current : Text) (release : ℕ × Result Text) (tags : Result (List Text))
    → Honest current (check_update current release tags)
unfolding check_update
check_update-Honest current release tags = elim (Bool-cases (is_stable_version current)) [
  | inl stable ↦ rw stable (answered-Honest current (latest_stable_version release tags))
  | inr off ↦ rw off (λ h. cc)
]

-- Whatever the two requests answer: when a check without an error announces an update, the current and
-- the latest version have been compared, and the current one is the earlier.
pub check_update-Outdated :
    (current : Text) (release : ℕ × Result Text) (tags : Result (List Text)) (r : Update)
    → check_update current release tags ≡ ok r
    → r.update_available ≡ true
    → Outdated current r
check_update-Outdated current release tags r e h =
    subst (Honest current) e (check_update-Honest current release tags) h
