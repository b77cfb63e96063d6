-- ===== src/DisplayName/Blank.antt =====
-- internal/entities/usage_identity.go: when a display name is blank.
use cpa_usage.Base.{◌≡◌, refl, Bool, true, false, ◌&&◌, not, List, [], ◌∷◌, if◌then◌else◌}
use cpa_usage.Text.{Text, is_empty}
use cpa_usage.Text.Trim.{trim_space}
use cpa_usage.Attempt.{AuthType, auth_file, ai_provider}
use cpa_usage.DisplayName.{
  Labels, bracketed, base_url_display, qualified_name, display_name, display_name_for,
}

bracketed-there : (outer inner : Text) → is_empty (bracketed outer inner) ≡ false
bracketed-there [] inner = refl
bracketed-there (c ∷ s) inner = refl

-- None of the parts that the name may be made of is there.
abbrev pub is_blank : (Text → Text) → AuthType → Labels → Bool
is_blank unicode_lower auth_file l =
    is_empty (trim_space l.name) && is_empty (trim_space l.provider)
is_blank unicode_lower ai_provider l =
    is_empty (trim_space l.name)
    && (is_empty (trim_space l.prefix)
        && is_empty (base_url_display unicode_lower l.base_url)
        && is_empty (trim_space l.provider))

qualified_name-blank :
    (unicode_lower : Text → Text) (name provider prefix base_url : Text) (qualifiers : List Text)
    → is_empty (qualified_name unicode_lower name provider prefix base_url qualifiers)
      ≡ (is_empty name && (is_empty prefix && is_empty base_url && is_empty provider))
unfolding qualified_name
qualified_name-blank u [] [] [] [] qs = refl
qualified_name-blank u [] [] [] (b ∷ bs) qs = refl
qualified_name-blank u [] [] (p ∷ ps) [] qs = refl
qualified_name-blank u [] [] (p ∷ ps) (b ∷ bs) qs = refl
qualified_name-blank u [] (v ∷ vs) [] [] qs = refl
qualified_name-blank u [] (v ∷ vs) [] (b ∷ bs) qs = refl
qualified_name-blank u [] (v ∷ vs) (p ∷ ps) [] qs = refl
qualified_name-blank u [] (v ∷ vs) (p ∷ ps) (b ∷ bs) qs = refl
qualified_name-blank u (n ∷ ns) provider prefix base_url [] = refl
qualified_name-blank u (n ∷ ns) provider prefix base_url (q ∷ qs) = refl

either-blank :
    (a b : Text) → is_empty (if not (is_empty a) then a else b) ≡ (is_empty a && is_empty b)
either-blank [] b = refl
either-blank (c ∷ s) b = refl

named-blank :
    (name rest : Text) (b c d k : Bool)
    → is_empty rest ≡ (is_empty name && k)
    → is_empty (if b && not (is_empty name) && c && d then name else rest) ≡ (is_empty name && k)
named-blank [] rest true c d k h = h
named-blank [] rest false c d k h = h
named-blank (x ∷ s) rest true true true k h = refl
named-blank (x ∷ s) rest true true false k h = h
named-blank (x ∷ s) rest true false d k h = h
named-blank (x ∷ s) rest false c d k h = h

display_name_for-blank :
    (u : Text → Text) (t : AuthType) (l : Labels)
    → is_empty (display_name_for u t l) ≡ is_blank u t l
display_name_for-blank u auth_file l = either-blank (trim_space l.name) (trim_space l.provider)
display_name_for-blank u ai_provider l =
    named-blank (trim_space l.name) _ _ _ _
      (is_empty (trim_space l.prefix)
        && is_empty (base_url_display u l.base_url)
        && is_empty (trim_space l.provider))
      (qualified_name-blank u (trim_space l.name) (trim_space l.provider) (trim_space l.prefix)
        (base_url_display u l.base_url) _)

-- An identity of an auth file is without a display name exactly if its name and its provider are blank; one of
-- a provider, exactly if the prefix and the shown base URL are blank or empty as well.
pub display_name-blank :
    (unicode_lower : Text → Text) (l : Labels)
    → is_empty (display_name unicode_lower l) ≡ is_blank unicode_lower l.auth_type l
unfolding display_name
display_name-blank u l = display_name_for-blank u l.auth_type l
