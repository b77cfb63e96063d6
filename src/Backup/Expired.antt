-- ===== src/Backup/Expired.antt =====
-- internal/backup/backup.go, internal/app/backup_runner.go: which backups go, and which is the last.
use cpa_usage.Base.{
  ℕ, suc, ◌+◌, ◌*◌, ◌<◌, true, false, Option, none, some, All, ◌↔◌, ◌-◌, ◌≤◌, ◌&&◌, ltb, ◌∙◌, Bool,
  if◌then◌else◌, List, [], ◌∷◌, ◌≡◌, refl, sym, ap, subst, arith, Bool-cases, inl, inr, length,
}
use cpa_usage.Clock.{Time, day, before}
use cpa_usage.Text.{Text, is_empty}
use cpa_usage.Text.Trim.{trim_space}
use cpa_usage.Backup.Files.{
  Entry, truncate_day, day_before, is_removed, remove_entries, cleanup_files,
}

-- The local midnights of a time zone by the number of their day, and the day that a folder's name denotes.
pub record Zone : Type 0 where
  pub local_midnight : ℕ → Time
  pub dated : Text → Option ℕ

-- Each local midnight lies in a UTC day of its own.
abbrev pub InOwnDay : Zone → Type 0
InOwnDay z = (d : ℕ) → (d * day ≤ z.local_midnight d) × (z.local_midnight d < d * day + day)

-- A day is before the truncated cutoff exactly if it comes before the day of the cutoff.
before-truncate_day_iff :
    (z : Zone) (d c : ℕ)
    → InOwnDay z
    → (before (z.local_midnight d) (truncate_day (z.local_midnight c)) ≡ true) ↔ (d < c)
before-truncate_day_iff z d c own = ground (arith, own d, own c)

abbrev pub Removable : Entry → Type 0
Removable e = e.removal_fails ≡ none

removed_entry :
    (cutoff : Time) (n : ℕ) (e : Entry) (es : List Entry)
    → is_removed cutoff e ≡ true
    → Removable e
    → remove_entries cutoff n (e ∷ es) ≡ remove_entries cutoff (n + 1) es
unfolding remove_entries
removed_entry cutoff n e es gone h = rw (remove_entries, gone, h) refl

kept_entry :
    (cutoff : Time) (n : ℕ) (e : Entry) (es : List Entry)
    → is_removed cutoff e ≡ false
    → remove_entries cutoff n (e ∷ es) ≡ (
      e ∷ (remove_entries cutoff n es).0,
      (remove_entries cutoff n es).1,
      (remove_entries cutoff n es).2,
    )
unfolding remove_entries
kept_entry cutoff n e es stays = rw (remove_entries, stays) refl

module _ (z : Zone) where
  abbrev pub midnight_of : Option ℕ → Option Time
  midnight_of none = none
  midnight_of (some d) = some (z.local_midnight d)

  -- `time.ParseInLocation` answers the midnight of the day that the name denotes.
  abbrev pub Dated : Entry → Type 0
  Dated e = e.backup_day ≡ midnight_of (z.dated e.name)

  abbrev pub older : ℕ → ℕ → Option ℕ → Bool
  older today retention none = false
  older today retention (some d) = ltb (d + retention) today

  -- A folder of a day that lies more days back than the retention.
  abbrev pub expired : ℕ → ℕ → Entry → Bool
  expired today retention e = e.is_dir && older today retention (z.dated e.name)

  -- What a cleanup is to keep, on a day with a retention.
  abbrev pub kept_entries : ℕ → ℕ → List Entry → List Entry
  kept_entries today retention [] = []
  kept_entries today retention (e ∷ es) =
      let rest = kept_entries today retention es in
      if expired today retention e then rest else e ∷ rest

  day_before-older :
      (today retention : ℕ) (d : Option ℕ)
      → InOwnDay z
      → day_before (z.local_midnight (today - retention)) (midnight_of d) ≡ older today retention d
  day_before-older today retention none own = refl
  day_before-older today retention (some d) own =
      ground (arith, before-truncate_day_iff z d (today - retention) own)

  is_removed-expired :
      (today retention : ℕ) (e : Entry)
      → InOwnDay z
      → Dated e
      → is_removed (z.local_midnight (today - retention)) e ≡ expired today retention e
  unfolding is_removed
  is_removed-expired today retention e own h = elim (Bool-cases e.is_dir) [
    | inl folder ↦ rw (folder, h) (day_before-older today retention (z.dated e.name) own)
    | inr file ↦ rw file refl
  ]

  -- What a run of the loop over `es` owes, behind `n` removals.
  abbrev pub Owes : ℕ → ℕ → ℕ → List Entry → List Entry × ℕ × Option Text → Type 0
  Owes today retention n es (left, removed, failure) =
      (left ≡ kept_entries today retention es)
      × (removed + length (kept_entries today retention es) ≡ n + length es)
      × (failure ≡ none)

  remove_entries-Owes :
      (today retention n : ℕ) (es : List Entry)
      → InOwnDay z
      → All Removable es
      → All Dated es
      → Owes today retention n es (remove_entries (z.local_midnight (today - retention)) n es)
  unfolding remove_entries
  remove_entries-Owes today retention n [] own h k = (refl, refl, refl)
  remove_entries-Owes today retention n (e ∷ es) own (h, hs) (k, ks) =
      let cutoff = z.local_midnight (today - retention) in
      let same = is_removed-expired today retention e own k in
      elim (Bool-cases (expired today retention e)) [
        | inl gone ↦
            let (a, b, c) = remove_entries-Owes today retention (n + 1) es own hs ks in
            subst (Owes today retention n (e ∷ es))
              (sym (removed_entry cutoff n e es (same ∙ gone) h)) (rw gone (a, omega (arith, b), c))
        | inr stays ↦
            let (a, b, c) = remove_entries-Owes today retention n es own hs ks in
            subst (Owes today retention n (e ∷ es)) (sym (kept_entry cutoff n e es (same ∙ stays)))
              (rw stays (ap (◌∷◌ e) a, omega (arith, b), c))
      ]

  -- A cleanup of a named folder, with a retention of at least a day, whose removals do not fail, in a zone
  -- whose local midnights each lie in a UTC day of their own, where the names of folders are read as such
  -- midnights and the cutoff is the one so many days back: it has no error, leaves exactly the entries that
  -- are no folders, whose names denote no day, or whose day lies no more local days back than the
  -- retention, and counts the others.
  pub cleanup_files-kept :
      (midnight : ℕ → Time) (today days : ℕ) (dir : Text) (es : List Entry)
      → InOwnDay z
      → midnight (suc days) ≡ z.local_midnight (today - suc days)
      → is_empty (trim_space dir) ≡ false
      → All Removable es
      → All Dated es
      → Owes today (suc days) 0 es (cleanup_files midnight dir (suc days) es)
  unfolding cleanup_files
  cleanup_files-kept midnight today days dir es own cutoff named h k =
      rw (named, cutoff) (remove_entries-Owes today (suc days) 0 es own h k)
