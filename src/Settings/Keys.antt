-- ===== src/Settings/Keys.antt =====
-- internal/web/settings.go: a saved key is used for the server that it was saved for.
use emby_migrator.Prelude.{
  ◌≡◌, ◌⊎◌, inl, inr, refl, sym, ap, subst, ◌∙◌, Bool, true, false, not, ◌&&◌, ◌||◌, Option, none,
  some, List, [], ◌∷◌, Text, text_eq, text_eq→eq, if◌then◌else◌, Bool-cases, if_cases, option_cases,
  arith,
}
use emby_migrator.Prelude.Strings.{trim_space, is_empty}
use emby_migrator.Settings.Types.{Profile, Connection, Settings, Urls, normalize_base_url}
use emby_migrator.Settings.Connection.{
  first_with, find_profile_by_id, find_profile_by_base_url, saved_api_key_for_base_url,
  normalized_request, saved_key, connect, connect_saved, resolve_emby_connection,
}

abbrev pub Among : Profile → List Profile → Type 0
Among p [] = ⊥
Among p (q ∷ qs) = (p ≡ q) ⊎ Among p qs

first_with-Among :
    (test : Profile → Bool) (ps : List Profile) (p : Profile)
    → first_with test ps ≡ some p
    → Among p ps × (test p ≡ true)
first_with-Among test [] p h = absurd (cc)
first_with-Among test (q ∷ ps) p h0 =
    if_cases (λ o. o ≡ some p → Among p (q ∷ ps) × (test p ≡ true)) (test q) _ _
      (λ e h. let same : q ≡ p = ground (arith, h) in (inl (sym same), ap test (sym same) ∙ e))
      (λ e h. let (a, b) = first_with-Among test ps p h in (inr a, b)) h0

some_injective : {a b : Connection} → some a ≡ some b → a ≡ b
some_injective h = ground (arith, h)

blank_key : {key : Text} → [] ≡ key → is_empty (trim_space key) ≡ false → ⊥
unfolding trim_space emby_migrator.Prelude.Strings.trim_func emby_migrator.Prelude.Strings.trim_left
blank_key h b =
    let impossible : true ≡ false = subst (λ k. is_empty (trim_space k) ≡ false) (sym h) b in
    absurd (cc)

module _ (urls : Urls) where
  -- The URL is the saved one, but for white space around it, or the saved one normalized.
  abbrev pub IsAt : Text → Text → Type 0
  IsAt saved_url url =
      (trim_space saved_url ≡ trim_space url)
      ⊎ ((saved_url ≡ trim_space (trim_space url)) ⊎ (normalize_base_url urls saved_url ≡ some url))

  -- A saved key, and the URL that it was saved with.
  abbrev pub Owns : Settings → Text → Text → Type 0
  Owns saved url key =
      (IsAt saved.connection.base_url url
        × ((key ≡ saved.connection.api_key) ⊎ (key ≡ trim_space saved.connection.api_key)))
      ⊎ ((p : Profile) × Among p saved.profiles
          × IsAt p.base_url url
          × ((key ≡ p.api_key) ⊎ (key ≡ trim_space p.api_key)))

  connect-eq :
      (base_url api_key : Text) (c : Connection)
      → connect urls base_url api_key ≡ some c
      → (normalize_base_url urls base_url ≡ some c.base_url)
        × (c.api_key ≡ api_key)
        × (is_empty (trim_space api_key) ≡ false)
  unfolding connect
  connect-eq base_url api_key c =
      let Goal : Type 0 =
        (normalize_base_url urls base_url ≡ some c.base_url)
        × (c.api_key ≡ api_key)
        × (is_empty (trim_space api_key) ≡ false) in
      if_cases (λ o. o ≡ some c → Goal)
        (is_empty (trim_space base_url) || is_empty (trim_space api_key)) _ _ (λ _ h. absurd (cc))
        (λ e.
          option_cases (λ o. o ≡ some c → Goal) (normalize_base_url urls base_url) _ _
            (λ _ h. absurd (cc))
            (λ n f h.
              let same : record { base_url = n; api_key = api_key } ≡ c = some_injective h in
              (
                f ∙ ap (λ d. some d.base_url) same,
                sym (ap (λ d. d.api_key) same),
                ground (arith, e),
              )))

  -- A key that is found for a URL, and is not blank, was saved for that URL.
  found_key-Owns :
      (saved : Settings) (url key : Text)
      → saved_api_key_for_base_url saved url ≡ key
      → is_empty (trim_space key) ≡ false
      → Owns saved url key
  unfolding saved_api_key_for_base_url find_profile_by_base_url
  found_key-Owns saved url key =
      let Goal : Type 0 = is_empty (trim_space key) ≡ false → Owns saved url key in
      if_cases (λ k. k ≡ key → Goal) (is_empty (trim_space url)) _ _
        (λ _ h b. absurd (blank_key h b))
        (λ _.
          if_cases (λ k. k ≡ key → Goal)
            (text_eq (trim_space saved.connection.base_url) (trim_space url)) _ _
            (λ e h b. inl (inl (text_eq→eq _ _ e), inr (sym h)))
            (λ _.
              option_cases (λ k. k ≡ key → Goal)
                (find_profile_by_base_url saved.profiles (trim_space url)) _ _
                (λ _ h b. absurd (blank_key h b))
                (λ p e h b.
                  let (a, t) =
                    first_with-Among (λ q. text_eq q.base_url (trim_space (trim_space url)))
                      saved.profiles p e in
                  inr (p, a, inr (inl (text_eq→eq _ _ t)), inr (sym h)))))

  request-eq :
      (base_url url : Text)
      → normalize_base_url urls base_url ≡ some url
      → normalized_request urls base_url ≡ url
  unfolding normalize_base_url trim_space emby_migrator.Prelude.Strings.trim_func
      emby_migrator.Prelude.Strings.trim_left
  request-eq [] url h = absurd (cc)
  request-eq (c ∷ t) url h = ap (λ o. elim o [ none ↦ [] | some n ↦ n ]) h

  -- The key for a request without one: it is saved for the URL that the request's is normalized to.
  saved_key-Owns :
      (saved : Settings) (base_url url key : Text)
      → normalize_base_url urls base_url ≡ some url
      → is_empty url ≡ false
      → saved_key urls saved base_url ≡ key
      → is_empty (trim_space key) ≡ false
      → Owns saved url key
  unfolding saved_key
  saved_key-Owns saved base_url url key n full h0 b =
      let request = normalized_request urls base_url in
      let same = request-eq base_url url n in
      let Has : Text → Type 0 = λ k. k ≡ key → Owns saved request key in
      subst (λ u. Owns saved u key) same
        (if_cases Has
          (is_empty (
              if is_empty request || text_eq request saved.connection.base_url
              then saved.connection.api_key
              else [])
            && not (is_empty request))
          _ _ (λ _ h. found_key-Owns saved request key h b)
          (λ _.
            if_cases Has (is_empty request || text_eq request saved.connection.base_url) _ _
              (λ t h.
                let given : is_empty request ≡ false = ap is_empty same ∙ full in
                let equal : text_eq request saved.connection.base_url ≡ true =
                  ground (arith, t, given) in
                inl (inl (ap trim_space (sym (text_eq→eq _ _ equal))), inl (sym h)))
              (λ _ h. absurd (blank_key h b)))
          h0)

  -- What is said of a connection to a request's URL, key and profile, which are trimmed.
  abbrev pub IsHome : Option Settings → Text → Text → Text → Connection → Type 0
  IsHome loaded url key id c =
      (((is_empty id ≡ true) × (c.api_key ≡ key))
        ⊎ ((saved : Settings) × (loaded ≡ some saved) × Owns saved c.base_url c.api_key))
      × (is_empty id ≡ true → is_empty url ≡ false → normalize_base_url urls url ≡ some c.base_url)

  connect_saved-IsHome :
      (loaded : Option Settings) (saved : Settings) (url key id : Text) (c : Connection)
      → loaded ≡ some saved
      → is_empty id ≡ true
      → is_empty c.base_url ≡ false
      → connect_saved urls saved url key ≡ some c
      → IsHome loaded url key id c
  unfolding connect_saved
  connect_saved-IsHome loaded saved url key id c e t full h =
      let base : Text = if is_empty url then saved.connection.base_url else url in
      let First : Type 0 =
        ((is_empty id ≡ true) × (c.api_key ≡ key))
        ⊎ ((s : Settings) × (loaded ≡ some s) × Owns s c.base_url c.api_key) in
      let (n, k, b) =
        connect-eq base (if is_empty key then saved_key urls saved base else key) c h in
      (
        if_cases (λ x. c.api_key ≡ x → is_empty (trim_space x) ≡ false → First) (is_empty key) _ _
            (λ _ k b. inr (
              saved,
              e,
              subst (Owns saved c.base_url) (sym k)
                  (saved_key-Owns saved base c.base_url _ n full refl b),
            ))
            (λ _ k _. inl (t, k)) k b,
        λ _ u.
            if_cases
              (λ x.
                normalize_base_url urls x ≡ some c.base_url
                → normalize_base_url urls url ≡ some c.base_url)
              (is_empty url) _ _ (λ v _. absurd (ground (arith, u, v))) (λ _ n. n) n,
      )

  -- A connection has a key that the request gives, or one that is saved for just the server that is
  -- connected to, by the saved connection or by a profile. Without a profile it is to the URL that the
  -- request gives, if it gives one. The URL of the connection is assumed not to be blank.
  pub resolve_emby_connection-IsHome :
      (loaded : Option Settings) (raw_url raw_key raw_id : Text) (c : Connection)
      → is_empty c.base_url ≡ false
      → resolve_emby_connection urls loaded raw_url raw_key raw_id ≡ some c
      → IsHome loaded (trim_space raw_url) (trim_space raw_key) (trim_space raw_id) c
  unfolding resolve_emby_connection find_profile_by_id
  resolve_emby_connection-IsHome loaded raw_url raw_key raw_id c full h0 =
      let Has : Option Connection → Type 0 = λ o.
        o ≡ some c
        → IsHome loaded (trim_space raw_url) (trim_space raw_key) (trim_space raw_id) c in
      if_cases Has
        (not (is_empty (trim_space raw_id))
          || is_empty (trim_space raw_key)
          || is_empty (trim_space raw_url))
        _ _
        (λ _.
          option_cases Has loaded _ _ (λ _ h. absurd (cc))
            (λ saved e.
              if_cases Has (is_empty (trim_space raw_id)) _ _
                (λ t h. connect_saved-IsHome loaded saved _ _ _ c e t full h)
                (λ t.
                  option_cases Has (find_profile_by_id saved.profiles (trim_space raw_id)) _ _
                    (λ _ h. absurd (cc))
                    (λ p f h.
                      let (n, k, _) = connect-eq p.base_url p.api_key c h in
                      (
                        inr (
                          saved,
                          e,
                          inr (p, (first_with-Among _ saved.profiles p f).0, inr (inr n), inl k),
                        ),
                        λ q _. absurd (ground (arith, q, t)),
                      )))))
        (λ t h.
          let (n, k, _) = connect-eq (trim_space raw_url) (trim_space raw_key) c h in
          (inl (ground (arith, t), k), λ _ _. n))
        h0
