-- ===== src/Config/Credentials/Scopes.antt =====
-- internal/config/config.go: the scopes of a credential.
use anaysitics_service.Base.{
  true, false, ◌≡◌, contains, List, [], ◌∷◌, All, Yields, Yields-ok, Yields-err, Yields-if,
  Yields-bind,
}
use anaysitics_service.Base.Distinct.{Fresh}
use anaysitics_service.Base.Text.{Text, Text_eq, is_empty, trim_space, CaseTable, to_lower}
use anaysitics_service.Config.Credentials.{
  known_routes, parse_query_token_scope, scopes_from, parse_query_token_scopes_list,
  parse_query_token_scopes_csv,
}
use anaysitics_service.Config.Names.{split_comma}
use anaysitics_service.ControlPlane.Policy.{ReadbackRoute}

abbrev pub IsKnown : ReadbackRoute → Type 0
IsKnown scope = contains known_routes scope ≡ true

-- Known routes, none of them twice.
abbrev pub AreScopes : List ReadbackRoute → Type 0
AreScopes scopes = Fresh (λ scope. scope) [] scopes × All IsKnown scopes

module _ ⦃cases : CaseTable⦄ where
  parse_query_token_scope-IsKnown :
      (raw : Text)
      → Yields (λ scope. is_empty scope ≡ false → IsKnown scope) (parse_query_token_scope raw)
  unfolding parse_query_token_scope
  parse_query_token_scope-IsKnown raw =
      let value = to_lower (trim_space raw) in
      Yields-if (is_empty value) (λ blank. Yields-ok [] (λ set. absurd (cc set)))
        (λ set.
          Yields-if (contains known_routes value) (λ known. Yields-ok value (λ _. known))
            (λ unknown. Yields-err _))

  scopes_from-Fresh :
      (seen : List ReadbackRoute) (values : List Text)
      → Yields
          (λ scopes. Fresh (λ scope. scope) seen scopes × All IsKnown scopes)
          (scopes_from seen values)
  unfolding scopes_from
  scopes_from-Fresh seen [] = Yields-ok _ (tt, tt)
  scopes_from-Fresh seen (value ∷ rest) =
      Yields-bind (parse_query_token_scope value) _ (parse_query_token_scope-IsKnown value)
        (λ scope known.
          Yields-if (is_empty scope) (λ _. scopes_from-Fresh seen rest)
            (λ set.
              Yields-if (contains seen scope) (λ _. scopes_from-Fresh seen rest)
                (λ new.
                  Yields-bind (scopes_from (scope ∷ seen) rest) _
                    (scopes_from-Fresh (scope ∷ seen) rest)
                    (λ scopes h. Yields-ok (scope ∷ scopes) ((new, h.0), (known set, h.1))))))

  pub parse_query_token_scopes_list_sound :
      (raw : List Text) → Yields AreScopes (parse_query_token_scopes_list raw)
  unfolding parse_query_token_scopes_list
  parse_query_token_scopes_list_sound raw = scopes_from-Fresh [] raw

  pub parse_query_token_scopes_csv_sound :
      (raw : Text) → Yields AreScopes (parse_query_token_scopes_csv raw)
  unfolding parse_query_token_scopes_csv
  parse_query_token_scopes_csv_sound raw =
      Yields-if (is_empty (trim_space raw)) (λ _. Yields-ok [] (tt, tt))
        (λ _. parse_query_token_scopes_list_sound (split_comma raw))
