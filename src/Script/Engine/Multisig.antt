-- ===== src/Script/Engine/Multisig.antt =====
-- script/engine.rs: the matching of `op_checkmultisig`, against what it should find.
use ironcat.Base.{◌≡◌, refl, sym, ◌∙◌, ◌↔◌, List, [], ◌∷◌, Bool, true, false, Bool-cases, inl, inr}
use ironcat.Network.Cursor.{Bytes}
use ironcat.Script.Engine.Signatures.{is_empty, keys_after, match_sigs}

module _ (check : Bytes → Bytes → Bool) where
  -- Every signature has a key of its own that it is valid for, in the order of the keys.
  pub data InOrder : List Bytes → List Bytes → Type 0 where
    all_matched : (keys : List Bytes) → InOrder [] keys
    skip_key :
        (sigs : List Bytes) (key : Bytes) (keys : List Bytes)
        → InOrder sigs keys
        → InOrder sigs (key ∷ keys)
    use_key :
        (sig : Bytes) (sigs : List Bytes) (key : Bytes) (keys : List Bytes)
        → is_empty sig ≡ false
        → check sig key ≡ true
        → InOrder sigs keys
        → InOrder (sig ∷ sigs) (key ∷ keys)

  match_sigs_empty :
      (sig : Bytes) (sigs keys : List Bytes)
      → match_sigs check (sig ∷ sigs) keys ≡ true
      → is_empty sig ≡ false
  unfolding match_sigs
  match_sigs_empty sig sigs keys h = elim (Bool-cases (is_empty sig)) [
    | inl y ↦ cc (rw y at h)
    | inr n ↦ n
  ]

  match_sigs_skip :
      (sig : Bytes) (sigs : List Bytes) (key : Bytes) (keys : List Bytes)
      → check sig key ≡ false
      → match_sigs check (sig ∷ sigs) (key ∷ keys) ≡ match_sigs check (sig ∷ sigs) keys
  unfolding match_sigs keys_after
  match_sigs_skip sig sigs key keys n = rw n refl

  match_sigs_use :
      (sig : Bytes) (sigs : List Bytes) (key : Bytes) (keys : List Bytes)
      → is_empty sig ≡ false
      → check sig key ≡ true
      → match_sigs check (sig ∷ sigs) (key ∷ keys) ≡ match_sigs check sigs keys
  unfolding match_sigs keys_after
  match_sigs_use sig sigs key keys n y = rw (n, y) refl

  sound : (sigs keys : List Bytes) → match_sigs check sigs keys ≡ true → InOrder sigs keys
  unfolding match_sigs keys_after
  sound [] keys h = all_matched keys
  sound (sig ∷ sigs) [] h = elim (Bool-cases (is_empty sig)) [
    | inl y ↦ cc (rw y at h)
    | inr n ↦ cc (rw n at h)
  ]
  sound (sig ∷ sigs) (key ∷ keys) h =
      let filled = match_sigs_empty sig sigs (key ∷ keys) h in
      elim (Bool-cases (check sig key)) [
        | inl y ↦
            use_key sig sigs key keys filled y
              (sound sigs keys (sym (match_sigs_use sig sigs key keys filled y) ∙ h))
        | inr n ↦
            skip_key (sig ∷ sigs) key keys
              (sound (sig ∷ sigs) keys (sym (match_sigs_skip sig sigs key keys n) ∙ h))
      ]

  -- One key more on top, or one signature less, keeps what can be matched.
  without_first :
      (sig : Bytes) (sigs keys : List Bytes) → InOrder (sig ∷ sigs) keys → InOrder sigs keys
  without_first sig sigs [] r = elim r [ ]
  without_first sig sigs (key ∷ keys) (skip_key _ _ _ r) =
      skip_key sigs key keys (without_first sig sigs keys r)
  without_first sig sigs (key ∷ keys) (use_key _ _ _ _ n y r) = skip_key sigs key keys r

  first_filled :
      (sig : Bytes) (sigs keys : List Bytes) → InOrder (sig ∷ sigs) keys → is_empty sig ≡ false
  first_filled sig sigs [] r = elim r [ ]
  first_filled sig sigs (key ∷ keys) (skip_key _ _ _ r) = first_filled sig sigs keys r
  first_filled sig sigs (key ∷ keys) (use_key _ _ _ _ n y r) = n

  -- What stands behind the first key once its signature is matched, or passed over.
  behind_use :
      (sig : Bytes) (sigs : List Bytes) (key : Bytes) (keys : List Bytes)
      → InOrder (sig ∷ sigs) (key ∷ keys)
      → InOrder sigs keys
  behind_use sig sigs key keys (skip_key _ _ _ r) = without_first sig sigs keys r
  behind_use sig sigs key keys (use_key _ _ _ _ n y r) = r

  behind_skip :
      (sig : Bytes) (sigs : List Bytes) (key : Bytes) (keys : List Bytes)
      → check sig key ≡ false
      → InOrder (sig ∷ sigs) (key ∷ keys)
      → InOrder (sig ∷ sigs) keys
  behind_skip sig sigs key keys no_match (skip_key _ _ _ r) = r
  behind_skip sig sigs key keys no_match (use_key _ _ _ _ n y r) = cc

  complete : (sigs keys : List Bytes) → InOrder sigs keys → match_sigs check sigs keys ≡ true
  unfolding match_sigs
  complete [] keys r = refl
  complete (sig ∷ sigs) [] r = elim r [ ]
  complete (sig ∷ sigs) (key ∷ keys) r = elim (Bool-cases (check sig key)) [
    | inl y ↦
        let filled = first_filled sig sigs (key ∷ keys) r in
        match_sigs_use sig sigs key keys filled y
        ∙ complete sigs keys (behind_use sig sigs key keys r)
    | inr n ↦
        match_sigs_skip sig sigs key keys n
        ∙ complete (sig ∷ sigs) keys (behind_skip sig sigs key keys n r)
  ]

  -- One pass over the keys finds a match of the signatures whenever there is one: taking the first
  -- key that a signature is valid for loses nothing. An empty signature is matched by no key.
  pub match_sigs_iff :
      (sigs keys : List Bytes) → (match_sigs check sigs keys ≡ true) ↔ InOrder sigs keys
  match_sigs_iff sigs keys = (sound sigs keys, complete sigs keys)
