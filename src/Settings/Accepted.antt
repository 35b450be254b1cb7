-- ===== src/Settings/Accepted.antt =====
-- Which batch settings are accepted: `resolve_batch_settings` of src/ere/entrypoints/bootstrap.py.
use entity_resolution_engine.Base.{
  ℕ, zero, suc, ◌<◌, String, Option, none, some, Bool, true, false, ◌≡◌, refl, sym, subst, ◌⊎◌, inl,
  inr, arith,
}
use entity_resolution_engine.Model.Errors.{Result, ok, raise, >>=-eq-ok, ok-injective}
use entity_resolution_engine.Model.Yaml.{Number, finite, negative, not_finite}
use entity_resolution_engine.Settings.{
  Env, BatchSettings, lookup, or_default, too_small, checked_value, batch_value,
  resolve_batch_settings,
}

-- The value is what the variable reads as, or the default where it is not set.
abbrev pub Reads : (String → Result Number) → Option String → ℕ → ℕ → Type 0
Reads parse variable default v =
    ((variable ≡ none) × (v ≡ default))
    ⊎ ((raw : String) × (variable ≡ some raw) × (parse raw ≡ ok (finite v)))

too_small-ok :
    (n : ℕ) {x : Option ℕ} → checked_value false (ok (finite n)) ≡ ok x → (0 < n) × (x ≡ some n)
unfolding checked_value too_small
too_small-ok zero h = absurd (ground arith)
too_small-ok (suc n) h = (omega arith, sym (ok-injective h))

checked_value-ok :
    (allowed : Bool) (r : Result Number) {x : Option ℕ}
    → checked_value allowed r ≡ ok x
    → (n : ℕ) × (r ≡ ok (finite n)) × (x ≡ some n) × (allowed ≡ false → 0 < n)
unfolding checked_value too_small
checked_value-ok allowed (raise e) h = absurd (ground arith)
checked_value-ok allowed (ok negative) h = absurd (ground arith)
checked_value-ok allowed (ok not_finite) h = absurd (ground arith)
checked_value-ok true (ok (finite n)) h =
    (n, refl, sym (ok-injective h), λ e. absurd (ground arith))
checked_value-ok false (ok (finite n)) h =
    let (low, is) = too_small-ok n h in (n, refl, is, λ e. low)

batch_value-ok :
    (parse : String → Result Number) (allowed : Bool) (variable : Option String) (default : ℕ)
    {x : Option ℕ}
    → batch_value parse allowed variable ≡ ok x
    → 0 < default
    → Reads parse variable default (or_default x default)
      × (allowed ≡ false → 0 < or_default x default)
unfolding batch_value
batch_value-ok parse allowed none default {x} h low =
    subst
      (λ x.
        Reads parse none default (or_default x default)
        × (allowed ≡ false → 0 < or_default x default))
      (ok-injective h) (inl (refl, refl), λ e. low)
batch_value-ok parse allowed (some raw) default {x} h low =
    let (n, parsed, is, positive) = checked_value-ok allowed (parse raw) h in
    subst
      (λ x.
        Reads parse (some raw) default (or_default x default)
        × (allowed ≡ false → 0 < or_default x default))
      (sym is) (inr (raw, refl, parsed), positive)

module _ (int float : String → Result Number) where
  pub record IsBatchSettings (env : Env) (s : BatchSettings) : Type 0 where
    pub target_seconds :
        Reads float (lookup "ERE_BATCH_TARGET_SECONDS" env) 0x4000_0000_0000_0000 s.target_seconds
    pub max_mentions : Reads int (lookup "ERE_BATCH_MAX_MENTIONS" env) 500 s.max_mentions
    pub max_bytes : Reads int (lookup "ERE_BATCH_MAX_BYTES" env) 50_000_000 s.max_bytes
    pub linger_ms : Reads int (lookup "ERE_BATCH_LINGER_MS" env) 250 s.linger_ms
    pub positive : (0 < s.target_seconds) × (0 < s.max_mentions) × (0 < s.max_bytes)

  -- Batch settings that are accepted have for each field the number that its variable reads as, finite and
  -- not negative, or the default where the variable is not set; the time, the number of mentions and
  -- that of bytes are positive.
  pub resolve_batch_settings-IsBatchSettings :
      (env : Env) {s : BatchSettings}
      → resolve_batch_settings int float env ≡ ok s
      → IsBatchSettings env s
  unfolding resolve_batch_settings
  resolve_batch_settings-IsBatchSettings env h =
      let (t, at_t, h₁) =
        >>=-eq-ok (batch_value float false (lookup "ERE_BATCH_TARGET_SECONDS" env)) _ h in
      let (m, at_m, h₂) =
        >>=-eq-ok (batch_value int false (lookup "ERE_BATCH_MAX_MENTIONS" env)) _ h₁ in
      let (b, at_b, h₃) =
        >>=-eq-ok (batch_value int false (lookup "ERE_BATCH_MAX_BYTES" env)) _ h₂ in
      let (l, at_l, h₄) =
        >>=-eq-ok (batch_value int true (lookup "ERE_BATCH_LINGER_MS" env)) _ h₃ in
      let (t_reads, t_low) = batch_value-ok float false _ _ at_t (omega arith) in
      let (m_reads, m_low) = batch_value-ok int false _ _ at_m (omega arith) in
      let (b_reads, b_low) = batch_value-ok int false _ _ at_b (omega arith) in
      let (l_reads, l_low) = batch_value-ok int true _ _ at_l (omega arith) in
      subst (IsBatchSettings env) (ok-injective h₄) (record {
        target_seconds = t_reads;
        max_mentions = m_reads;
        max_bytes = b_reads;
        linger_ms = l_reads;
        positive = (t_low refl, m_low refl, b_low refl);
      })
