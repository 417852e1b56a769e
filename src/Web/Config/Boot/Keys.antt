-- ===== src/Web/Config/Boot/Keys.antt =====
-- Which keys a configuration holds, and when main.rs can make the codec of them.
use duck_voyage.Prelude.{
  ◌≡◌, refl, ap, sym, ◌∙◌, subst, ℕ, zero, suc, ◌+◌, ◌<◌, ◌≤◌, ◌^◌, arith, Bool, true, false, none,
  is_some, List, [], ◌∷◌, ◌==◌, ◌||◌, ◌&&◌, ltb, ltb→lt, leb, length, Bool-cases, Option-cases, inl,
  inr, ==→eq,
}
use duck_voyage.Prelude.Results.{
  Res, ok, err, panic, ok_or, guard, ok_injective, >>=-eq-ok, guard-eq-ok,
}
use duck_voyage.Prelude.Text.{Text, trim, codes}
use duck_voyage.Prelude.Int.{parse_unsigned}
use duck_voyage.Domain.Codes.{KeyGeneration}
use duck_voyage.Domain.Codec.{
  Ff1, DuckCodec, CodecError, current_key_missing, get, put, is_empty, collect, new_codec,
}
use duck_voyage.Web.Config.{
  no_keys, invalid, Platform, Vars, Key, key_var, optional, parse_key, read_keys, some_key,
  required, parsed, listen_addr, admin_identities, storage_of,
}
use duck_voyage.Web.Config.Providers.{oidc_from_env}
use duck_voyage.Web.Config.Boot.{AppConfig, from_env}

module _ (platform : Platform) (vars : Vars) where
  -- Keys of 32 bytes, of consecutive generations, up to one that is unset or empty.
  abbrev pub IsRun : KeyGeneration → List Key → Type 0
  IsRun g [] = optional (key_var g) vars ≡ none
  IsRun g ((h, key) ∷ keys) = (h ≡ g) × (length key ≡ 32) × IsRun (suc g) keys

  parse_key_sound :
      (g : KeyGeneration) (raw : Text) (k : Key)
      → parse_key platform g raw ≡ ok k
      → (k.0 ≡ g) × (length k.1 ≡ 32)
  unfolding parse_key
  parse_key_sound g raw k h =
      let (bytes, e, h1) = >>=-eq-ok (ok_or (platform.hex_decode (trim raw)) _) _ h in
      let (u, e', h2) = >>=-eq-ok (guard (length bytes == 32) _) _ h1 in
      let same = ok_injective h2 in
      (
        sym (ap (λ (p : Key). p.0) same),
        sym (ap (λ (p : Key). length p.1) same) ∙ ==→eq (length bytes) 32 (guard-eq-ok _ _ e'),
      )

  read_keys-IsRun :
      (fuel : ℕ) (g : KeyGeneration) (keys : List Key)
      → read_keys platform vars fuel g ≡ ok keys
      → IsRun g keys
  unfolding read_keys
  read_keys-IsRun zero g keys h = cc
  read_keys-IsRun (suc fuel) g keys h = elim (Option-cases (optional (key_var g) vars)) [
    | inl e ↦
        let h' = rw (e, read_keys) at h in
        let same : [] ≡ keys = ok_injective h' in subst (IsRun g) same e
    | inr (raw, e) ↦
        let h' = rw (e, read_keys) at h in
        let (k, e1, h1) = >>=-eq-ok (parse_key platform g raw) _ h' in
        let (rest, e2, h2) = >>=-eq-ok (read_keys platform vars fuel (suc g)) _ h1 in
        let same : k ∷ rest ≡ keys = ok_injective h2 in
        let (named, long) = parse_key_sound g raw k e1 in
        subst (IsRun g) same (named, long, read_keys-IsRun fuel (suc g) rest e2)
  ]

  -- Within the generations of a run.
  abbrev within : KeyGeneration → ℕ → KeyGeneration → Bool
  within g n h = leb g h && ltb h (g + n)

  module _ (fpe : Ff1) where
    open fpe use {Cipher}

    abbrev Ciphers : Type 0
    Ciphers = List (KeyGeneration × Cipher)

    -- The codec has a key of every generation of the run, and mints under the current one; or the
    -- current one has none.
    abbrev pub Boots : List Key → KeyGeneration → Res CodecError (DuckCodec fpe) → Type 0
    Boots keys current (ok codec) =
        (current < length keys)
        × (codec.current ≡ current)
        × ((g : KeyGeneration) → is_some (get g codec.ciphers) ≡ ltb g (length keys))
    Boots keys current (err e) = (length keys ≤ current) × (e ≡ current_key_missing current)
    Boots keys current panic = ⊥

    get-put :
        (g h : KeyGeneration) (c : Cipher) (m : Ciphers)
        → is_some (get h (put g c m)) ≡ (g == h || is_some (get h m))
    unfolding get put
    get-put g h c [] = ground arith
    get-put g h c ((k, w) ∷ m) = ground (arith, get-put g h c m)

    collect-run :
        (g : KeyGeneration) (keys : List Key) (m : Ciphers)
        → IsRun g keys
        → (m' : Ciphers) × (collect fpe m keys ≡ ok m')
          × ((h : KeyGeneration)
              → is_some (get h m') ≡ (is_some (get h m) || within g (length keys) h))
    unfolding collect
    collect-run g [] m run = (m, refl, λ h. ground arith)
    collect-run g ((k, key) ∷ keys) m (named, long, run) =
        let (c, e) = fpe.new_total key long in
        let (m', e', held) = collect-run (suc g) keys (put k c m) run in
        (m', rw e e', λ h. rw (held h, get-put k h c m, named) (ground arith))

    some_key-length : (keys : List Key) → some_key keys ≡ true → 0 < length keys
    some_key-length [] h = cc
    some_key-length (k ∷ keys) h = omega arith

    nonempty : (h : KeyGeneration) (m : Ciphers) → is_some (get h m) ≡ true → is_empty m ≡ false
    unfolding get is_empty
    nonempty h [] e = cc
    nonempty h (x ∷ m) e = refl

    -- What `DuckCodec::new` makes of a run of keys from 0 on.
    new_codec-run :
        (keys : List Key) (current : KeyGeneration)
        → IsRun 0 keys
        → some_key keys ≡ true
        → Boots keys current (new_codec fpe keys current)
    unfolding new_codec
    new_codec-run keys current run present =
        let (m, e, held) = collect-run 0 keys [] run in
        let covered : (g : KeyGeneration) → is_some (get g m) ≡ ltb g (length keys) =
          λ g. held g ∙ (unfold get in ground arith) in
        let long = some_key-length keys present in
        let full = nonempty 0 m (covered 0 ∙ ground arith) in
        elim (Bool-cases (ltb current (length keys))) [
          | inl c ↦ rw (e, full, covered current, c) (ltb→lt current (length keys) c, refl, covered)
          | inr c ↦ rw (e, full, covered current, c) (ground arith, refl)
        ]

    -- A configuration that is accepted holds keys of 32 bytes for the generations from 0 on, up to
    -- the first whose variable is unset or empty; the codec made of it has a key for each of them
    -- and no other and mints under the current generation, or is refused because the current
    -- generation has no key.
    pub new_codec-from_env :
        (config : AppConfig platform)
        → from_env platform vars ≡ ok config
        → IsRun 0 config.ff1_keys
          × Boots config.ff1_keys config.current_generation
              (new_codec fpe config.ff1_keys config.current_generation)
    unfolding from_env
    new_codec-from_env config h =
        let (keys, e0, h0) = >>=-eq-ok (read_keys platform vars (2 ^ 16) 0) _ h in
        let (u, e1, h1) = >>=-eq-ok (guard (some_key keys) no_keys) _ h0 in
        let (raw, _, h2) = >>=-eq-ok (required (codes "DUCK_KEY_CURRENT") vars) _ h1 in
        let (current, _, h3) =
          >>=-eq-ok (ok_or (parse_unsigned (2 ^ 16) raw) (invalid (codes "DUCK_KEY_CURRENT"))) _
            h2 in
        let (base, _, h4) = >>=-eq-ok (required (codes "BASE_URL") vars) _ h3 in
        let (addr, _, h5) = >>=-eq-ok (listen_addr platform vars) _ h4 in
        let (admins, _, h6) = >>=-eq-ok (admin_identities vars) _ h5 in
        let (storage, _, h7) = >>=-eq-ok (storage_of vars) _ h6 in
        let (connections, _, h8) =
          >>=-eq-ok (parsed (codes "DATABASE_MAX_CONNECTIONS") (parse_unsigned (2 ^ 32)) vars) _
            h7 in
        let (url, _, h9) = >>=-eq-ok (required (codes "DATABASE_URL") vars) _ h8 in
        let (oidc, _, h10) = >>=-eq-ok (oidc_from_env platform vars) _ h9 in
        let same = ok_injective h10 in
        let run = read_keys-IsRun (2 ^ 16) 0 keys e0 in
        subst
          (λ (c : AppConfig platform).
            IsRun 0 c.ff1_keys
            × Boots c.ff1_keys c.current_generation (new_codec fpe c.ff1_keys c.current_generation))
          same (run, new_codec-run keys current run (guard-eq-ok (some_key keys) _ e1))
