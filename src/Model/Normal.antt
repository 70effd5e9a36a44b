-- ===== src/Model/Normal.antt =====
-- What `normalizeModel` and `parsePriority` promise.
use loxy_router.Base.{
  ◌≡◌, refl, ap, ◌∙◌, Bool, true, false, ◌&&◌, not, [], ◌∷◌, ◌++◌, Str, codes, arith, str_eq,
  if◌then◌else◌,
}
use loxy_router.Text.{
  Unicode, to_lower, is_space, lower_text, is_empty, trim_right, trim_left, trim_space, has_code,
}
use loxy_router.Text.Trim.{
  StartsFirm, trim_space-StartsFirm, trim_space_idem, trim_space-append, has_code-append,
  lower_text_idem, trim_space-lower,
}
use loxy_router.Model.{
  normalize_model, Priority, interactive, batch, background, parse_priority, priority_string,
}

-- The tag is lower case and firm at its end.
tag_firm : trim_right (codes ":latest") ≡ codes ":latest"
unfolding trim_right is_space
tag_firm = refl

tag_has_colon : has_code b':' (codes ":latest") ≡ true
unfolding has_code
tag_has_colon = refl

module _ (u : Unicode) where
  lower_text-append : (s t : Str) → lower_text u (s ++ t) ≡ lower_text u s ++ lower_text u t
  unfolding lower_text
  lower_text-append [] t = refl
  lower_text-append (c ∷ s) t = ap (λ r. to_lower u.beyond c ∷ r) (lower_text-append s t)

  tag_lower : lower_text u (codes ":latest") ≡ codes ":latest"
  unfolding lower_text to_lower
  tag_lower = refl

  -- A firm lower-case text with no colon, tagged, is a fixed point; so is one with a colon.
  pub normalize_tagged :
      (n : Str)
      → StartsFirm n
      → is_empty n ≡ false
      → lower_text u n ≡ n
      → normalize_model u (n ++ codes ":latest") ≡ n ++ codes ":latest"
  unfolding normalize_model
  normalize_tagged n firm full low =
      rw (trim_space-append n (codes ":latest") firm full tag_firm (unfold is_empty in refl)) (
        rw (lower_text-append n (codes ":latest"), low, tag_lower)
          (rw (has_code-append b':' n (codes ":latest") tag_has_colon) (ground arith)))

  normalize_lower :
      (n : Str)
      → trim_space n ≡ n
      → lower_text u n ≡ n
      → normalize_model u n
        ≡ (if not (is_empty n) && not (has_code b':' n) then n ++ codes ":latest" else n)
  unfolding normalize_model
  normalize_lower n t l = rw (t, l)

  lowered_trimmed :
      (s : Str) → trim_space (lower_text u (trim_space s)) ≡ lower_text u (trim_space s)
  lowered_trimmed s = trim_space-lower u (trim_space s) ∙ ap (lower_text u) (trim_space_idem s)

  lowered_firm : (s : Str) → StartsFirm (lower_text u (trim_space s))
  lowered_firm s = rw (← lowered_trimmed s) (trim_space-StartsFirm (lower_text u (trim_space s)))

  normalize_if :
      (n : Str)
      → StartsFirm n
      → trim_space n ≡ n
      → lower_text u n ≡ n
      → (b c : Bool) → is_empty n ≡ b
      → has_code b':' n ≡ c
      → normalize_model u (if not b && not c then n ++ codes ":latest" else n)
        ≡ (if not b && not c then n ++ codes ":latest" else n)
  normalize_if n f t l true c e h = rw (normalize_lower n t l, e)
  normalize_if n f t l false true e h = rw (normalize_lower n t l, e, h)
  normalize_if n f t l false false e h = normalize_tagged n f e l

  -- Normalising a model name twice gives what normalising it once gives.
  pub normalize_model_idem :
      (name : Str) → normalize_model u (normalize_model u name) ≡ normalize_model u name
  unfolding normalize_model
  normalize_model_idem name =
      let n = lower_text u (trim_space name) in
      normalize_if n (lowered_firm name) (lowered_trimmed name) (lower_text_idem u _) (is_empty n)
        (has_code b':' n) refl refl

  -- A name with no tag and the same name with the tag `latest` are one model: for a name that is
  -- not blank and whose lower case has no colon, appending ":latest" to the trimmed name does not
  -- change what it normalises to.
  pub normalize_model_latest :
      (name : Str)
      → is_empty (lower_text u (trim_space name)) ≡ false
      → has_code b':' (lower_text u (trim_space name)) ≡ false
      → normalize_model u (lower_text u (trim_space name) ++ codes ":latest")
        ≡ normalize_model u name
  unfolding normalize_model
  normalize_model_latest name full untagged =
      normalize_tagged _ (lowered_firm name) full (lower_text_idem u _) ∙ rw (full, untagged)

  -- Case and surrounding space make no difference to the priority that a header stands for.
  pub parse_priority_insensitive :
      (s : Str) → parse_priority u (lower_text u (trim_space s)) ≡ parse_priority u s
  unfolding parse_priority
  parse_priority_insensitive s = rw (lowered_trimmed s, lower_text_idem u (trim_space s))

  -- Each priority is read back from its own name.
  pub parse_priority-string : (p : Priority) → parse_priority u (priority_string p) ≡ p
  unfolding parse_priority priority_string trim_space trim_left trim_right is_empty is_space
      lower_text to_lower str_eq
  parse_priority-string interactive = refl
  parse_priority-string batch = refl
  parse_priority-string background = refl
