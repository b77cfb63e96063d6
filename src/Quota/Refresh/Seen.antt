-- ===== src/Quota/Refresh/Seen.antt =====
-- internal/quota/refresh.go: the variable `seen` of `Refresh`.
use cpa_usage.Base.{
  true, false, ◌||◌, List, [], ◌∷◌, ◌++◌, ◌≡◌, refl, sym, ap, ◌∙◌, arith, Bool-cases, inl, inr,
}
use cpa_usage.Text.{Text, is_empty, text_eq, text_eq_iff}
use cpa_usage.Events.{contains_key}

-- The names that were read have been seen.
abbrev pub Seen : List Text → List Text → Type 0
Seen read seen = (a : Text) → is_empty a ≡ false → contains_key seen a ≡ contains_key read a

contains_key-end :
    (xs : List Text) (a b : Text)
    → contains_key (xs ++ a ∷ []) b ≡ (contains_key xs b || text_eq a b)
unfolding contains_key
contains_key-end [] a b = ground arith
contains_key-end (x ∷ xs) a b = ground (arith, contains_key-end xs a b)

-- Reading an auth index that is new; one that is empty or was read before is not marked again.
pub Seen-new :
    (read seen : List Text) (auth : Text) → Seen read seen → Seen (read ++ auth ∷ []) (auth ∷ seen)
unfolding contains_key
Seen-new read seen auth w a full = ground (arith, contains_key-end read auth a, w a full)

same_read :
    (read : List Text) (auth a : Text)
    → (text_eq auth a ≡ true → contains_key read a ≡ true)
    → contains_key (read ++ auth ∷ []) a ≡ contains_key read a
same_read read auth a old = elim (Bool-cases (text_eq auth a)) [
  | inl is ↦ ground (arith, contains_key-end read auth a, old is)
  | inr apart ↦ ground (arith, contains_key-end read auth a)
]

blank_apart : (auth a : Text) → is_empty auth ≡ true → is_empty a ≡ false → text_eq auth a ≡ false
unfolding text_eq
blank_apart [] [] b f = f
blank_apart [] (c ∷ s) b f = refl
blank_apart (c ∷ s) a b f = ground arith

pub Seen-blank :
    (read seen : List Text) (auth : Text)
    → Seen read seen
    → is_empty auth ≡ true
    → Seen (read ++ auth ∷ []) seen
Seen-blank read seen auth w none_there a full =
    w a full
    ∙ sym (same_read read auth a (λ is. ground (arith, blank_apart auth a none_there full)))

pub Seen-again :
    (read seen : List Text) (auth : Text)
    → Seen read seen
    → contains_key read auth ≡ true
    → Seen (read ++ auth ∷ []) seen
Seen-again read seen auth w old a full =
    w a full
    ∙ sym (
        same_read read auth a
          (λ is. ap (contains_key read) (sym ((text_eq_iff auth a).0 is)) ∙ old))
