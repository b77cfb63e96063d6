-- ===== src/AccountStatus/Outcome.antt =====
-- internal/service/account_status.go: what each outcome of `SetIdentityDisabled` tells of the rows and of the
-- CPA.
use cpa_usage.Base.{
  ℕ, ◌≡◌, refl, sym, ap, ◌∙◌, subst, Bool, true, false, ◌==◌, ==_iff, Bool-cases, ◌⊎◌, inl, inr,
  arith, Option, none, some, some_injective, List, [], ◌∷◌, if◌then◌else◌,
}
use cpa_usage.Text.{Text, codes}
use cpa_usage.Attempt.{AuthType, auth_file, ai_provider}
use cpa_usage.AccountStatus.{
  AuthFile, Identity, Fetched, found, missing, fetch_failed, StatusError, identity_missing,
  identity_not_auth_file, auth_file_not_found, load_failed, resolve_failed, set_failed,
  status_refresh, Env, find_identity, update_identity, update_or_fail, set_usage_identity_disabled,
  update_auth_file_state, bool_eq, with_auth_file_state, with_disabled, observed_state, read_back,
  persisted_disabled, submitted, resolved, checked_type, loaded, set_identity_disabled,
  base_identity,
}

module _ (i : ℕ) where
  find_here :
      (x : Identity) (rs : List Identity) → (x.id == i) ≡ true → find_identity i (x ∷ rs) ≡ some x
  find_here x rs same = rw same refl

  find_later :
      (x : Identity) (rs : List Identity)
      → (x.id == i) ≡ false
      → find_identity i (x ∷ rs) ≡ find_identity i rs
  find_later x rs other = rw other refl

  find_identity-id : (rs : List Identity) (r : Identity) → find_identity i rs ≡ some r → r.id ≡ i
  find_identity-id [] r h = grind arith
  find_identity-id (x ∷ rs) r h = elim (Bool-cases (x.id == i)) [
    | inl same ↦
        subst (λ y. Identity.id y ≡ i) (some_injective (sym (find_here x rs same) ∙ h))
          ((==_iff x.id i).0 same)
    | inr other ↦ find_identity-id rs r (sym (find_later x rs other) ∙ h)
  ]

  module _ (set : Identity → Identity) (keeps : (x : Identity) → (set x).id ≡ x.id) where
    -- A row is found again with what was set.
    find_identity-update :
        (rs : List Identity) (r : Identity)
        → find_identity i rs ≡ some r
        → find_identity i (update_identity i set rs) ≡ some (set r)
    find_identity-update [] r h = grind arith
    find_identity-update (x ∷ rs) r h = elim (Bool-cases (x.id == i)) [
      | inl same ↦
          ap (λ y. find_identity i (y ∷ update_identity i set rs))
            (ap (λ b. if b then set x else x) same)
          ∙ find_here (set x) _ (ap (λ n. n == i) (keeps x) ∙ same)
          ∙ ap (λ y. some (set y)) (some_injective (sym (find_here x rs same) ∙ h))
      | inr other ↦
          ap (λ y. find_identity i (y ∷ update_identity i set rs))
            (ap (λ b. if b then set x else x) other)
          ∙ find_later x _ other
          ∙ find_identity-update rs r (sym (find_later x rs other) ∙ h)
    ]

update_or_fail-found :
    (what : Text) (fault : Option Text) (i : ℕ) (set : Identity → Identity) (rs : List Identity)
    (r : Identity)
    → find_identity i rs ≡ some r
    → ((e : Text) × (update_or_fail what fault i set rs (find_identity i rs) ≡ (rs, some e)))
      ⊎ (update_or_fail what fault i set rs (find_identity i rs) ≡ (update_identity i set rs, none))
update_or_fail-found what (some e) i set rs r h = inl (_, refl)
update_or_fail-found what none i set rs r h = inr (rw h refl)

bool_eq_sound : (a b : Bool) → bool_eq a b ≡ true → a ≡ b
bool_eq_sound true true h = refl
bool_eq_sound true false h = grind arith
bool_eq_sound false true h = grind arith
bool_eq_sound false false h = refl

module _ {Cpa : Type 0} (fetch : Cpa → Text → Fetched)
    (set : Cpa → Text → Bool → Cpa × Option Text) where
  -- The CPA has taken the change and is now in the second state.
  abbrev pub Accepted : List Identity → Cpa → ℕ → Bool → Cpa → Type 0
  Accepted rs cpa i disabled cpa' =
      (r : Identity) × (f : AuthFile) × (find_identity i rs ≡ some r)
      × (fetch cpa r.identity ≡ found f)
      × (set cpa f.name disabled ≡ (cpa', none))

  -- The row and what the CPA answers both show the flag.
  abbrev pub Confirmed : ℕ → Bool → List Identity → Cpa → Type 0
  Confirmed i disabled rs cpa =
      (r : Identity) × (f : AuthFile) × (find_identity i rs ≡ some r)
      × (r.disabled ≡ disabled)
      × (fetch cpa r.identity ≡ found f)
      × (f.disabled ≡ disabled)

  abbrev pub Settled :
      List Identity → Cpa → ℕ → Bool → List Identity × Cpa × Option StatusError → Type 0
  Settled rs cpa i disabled (rs', cpa', none) =
      Accepted rs cpa i disabled cpa' × Confirmed i disabled rs' cpa'
  Settled rs cpa i disabled (rs', cpa', some (status_refresh e)) = Accepted rs cpa i disabled cpa'
  Settled rs cpa i disabled (rs', cpa', some (set_failed e)) = rs' ≡ rs
  Settled rs cpa i disabled (rs', cpa', some (load_failed e)) = (rs' ≡ rs) × (cpa' ≡ cpa)
  Settled rs cpa i disabled (rs', cpa', some (resolve_failed e)) = (rs' ≡ rs) × (cpa' ≡ cpa)
  Settled rs cpa i disabled (rs', cpa', some identity_missing) = (rs' ≡ rs) × (cpa' ≡ cpa)
  Settled rs cpa i disabled (rs', cpa', some identity_not_auth_file) = (rs' ≡ rs) × (cpa' ≡ cpa)
  Settled rs cpa i disabled (rs', cpa', some auth_file_not_found) = (rs' ≡ rs) × (cpa' ≡ cpa)

  module _ (rs : List Identity) (cpa cpa' : Cpa) (i : ℕ) (disabled : Bool)
      (accepted : Accepted rs cpa i disabled cpa') where
    -- Behind the last statement.
    observed_state-Settled :
        (f : AuthFile) (r : Identity) (rs' : List Identity)
        → find_identity i rs' ≡ some r
        → r.disabled ≡ f.disabled
        → fetch cpa' r.identity ≡ found f
        → Settled rs cpa i disabled (observed_state fetch set disabled f cpa' (rs', none))
    observed_state-Settled f r rs' h k l = elim (Bool-cases (bool_eq f.disabled disabled)) [
      | inl same ↦
          let e = bool_eq_sound f.disabled disabled same in
          rw same (accepted, (r, f, h, k ∙ e, l, e))
      | inr differs ↦ rw differs accepted
    ]

    read_back-Settled :
        (env : Env) (r : Identity) (rs' : List Identity) (x : Fetched)
        → find_identity i rs' ≡ some r
        → fetch cpa' r.identity ≡ x
        → Settled rs cpa i disabled (read_back fetch set env i disabled rs' cpa' x)
    unfolding update_auth_file_state
    read_back-Settled env r rs' (fetch_failed e) h l = accepted
    read_back-Settled env r rs' missing h l = accepted
    read_back-Settled env r rs' (found f) h l =
        let observed = base_identity env.unicode_lower f env.later in
        elim (update_or_fail-found (codes "update auth file state") env.state_fault i
          (with_auth_file_state observed env.later) rs' r h) [
            | inl (e, fails) ↦ rw fails accepted
            | inr done ↦ rw done (
                observed_state-Settled f (with_auth_file_state observed env.later r) _
                  (find_identity-update i (with_auth_file_state observed env.later) (λ x. refl) rs'
                    r h)
                  refl l)
          ]

    persisted_disabled-Settled :
        (env : Env) (r : Identity)
        → find_identity i rs ≡ some r
        → Settled rs cpa i disabled (
            persisted_disabled fetch set env r disabled cpa'
              (set_usage_identity_disabled env.disabled_fault r.id disabled env.now rs))
    unfolding set_usage_identity_disabled
    persisted_disabled-Settled env r h =
        rw (find_identity-id i rs r h)
          (elim (update_or_fail-found (codes "set usage identity disabled") env.disabled_fault i
            (with_disabled disabled env.now) rs r h) [
              | inl (e, fails) ↦ rw fails accepted
              | inr done ↦ rw done (
                  read_back-Settled env (with_disabled disabled env.now r) _ _
                    (find_identity-update i (with_disabled disabled env.now) (λ x. refl) rs r h)
                    refl)
            ])

  module _ (rs : List Identity) (cpa : Cpa) (i : ℕ) (disabled : Bool) (env : Env) (r : Identity)
      (h : find_identity i rs ≡ some r) where
    submitted-Settled :
        (f : AuthFile) (x : Cpa × Option Text)
        → fetch cpa r.identity ≡ found f
        → set cpa f.name disabled ≡ x
        → Settled rs cpa i disabled (submitted fetch set env r disabled rs x)
    submitted-Settled f (cpa', some e) l k = refl
    submitted-Settled f (cpa', none) l k =
        persisted_disabled-Settled rs cpa cpa' i disabled (r, f, h, l, k) env r h

    resolved-Settled :
        (x : Fetched)
        → fetch cpa r.identity ≡ x
        → Settled rs cpa i disabled (resolved fetch set env r disabled rs cpa x)
    resolved-Settled (fetch_failed e) l = (refl, refl)
    resolved-Settled missing l = (refl, refl)
    resolved-Settled (found f) l = submitted-Settled f _ l refl

    checked_type-Settled :
        (t : AuthType) → Settled rs cpa i disabled (checked_type fetch set env r disabled rs cpa t)
    checked_type-Settled auth_file = resolved-Settled _ refl
    checked_type-Settled ai_provider = (refl, refl)

  loaded-Settled :
      (rs : List Identity) (cpa : Cpa) (i : ℕ) (disabled : Bool) (env : Env) (fault : Option Text)
      (row : Option Identity)
      → find_identity i rs ≡ row
      → Settled rs cpa i disabled (loaded fetch set env disabled rs cpa fault row)
  loaded-Settled rs cpa i disabled env (some e) row h = (refl, refl)
  loaded-Settled rs cpa i disabled env none none h = (refl, refl)
  loaded-Settled rs cpa i disabled env none (some r) h =
      checked_type-Settled rs cpa i disabled env r h r.auth_type

  -- Whatever fails: without an error, the CPA has taken the change, and the row as well as what the CPA
  -- answers afterwards show the flag that was asked for; an error that wraps `ErrAccountStatusRefresh` tells
  -- that the CPA has taken the change; with an error of the call that sets the flag the rows are as before,
  -- and with any other error both the rows and the CPA are.
  pub set_identity_disabled-Settled :
      (env : Env) (i : ℕ) (disabled : Bool) (rs : List Identity) (cpa : Cpa)
      → Settled rs cpa i disabled (set_identity_disabled fetch set env i disabled rs cpa)
  unfolding set_identity_disabled
  set_identity_disabled-Settled env i disabled rs cpa =
      loaded-Settled rs cpa i disabled env env.load_fault (find_identity i rs) refl
