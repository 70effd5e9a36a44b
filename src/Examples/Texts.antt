-- ===== src/Examples/Texts.antt =====
-- Model names, priorities, tokens, and the guard.
use loxy_router.Base.{◌≡◌, refl, ◌↔◌, ◌⊎◌, [], ◌∷◌, ◌++◌, codes}
use loxy_router.Text.Split.{has_prefix}
use loxy_router.Tokens.{json_int_field, take_digits, after_last, needle, atoi}
use loxy_router.Tokens.Field.{json_int_field_lem}
use loxy_router.Auth.{auth_middleware, passes}
use loxy_router.Auth.Access.{Carries, auth_middleware_iff}

json_int_field_lem_example :
    json_int_field
      (codes "{\"x\": 1, " ++ (needle (codes "n") ++ (codes ": " ++ (codes "12" ++ codes "}"))))
      (codes "n")
    ≡ atoi (codes "12")
json_int_field_lem_example =
    json_int_field_lem (codes "{\"x\": 1, ") (codes "n") (codes ": ") b'1' (codes "2") (codes "}")
      (refl, (refl, tt)) (refl, (refl, tt)) (unfold take_digits in refl)
      (unfold after_last needle has_prefix in refl)

auth_middleware_iff_example :
    (auth_middleware (codes "sk-1" ∷ []) (codes "bearer sk-1") ≡ passes)
    ↔ (((codes "sk-1" ∷ []) ≡ []) ⊎ Carries (codes "bearer sk-1") (codes "sk-1" ∷ []))
auth_middleware_iff_example = auth_middleware_iff (codes "sk-1" ∷ []) (codes "bearer sk-1")
