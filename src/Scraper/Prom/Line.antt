-- ===== src/Scraper/Prom/Line.antt =====
-- What parsePromLine reads from a line of the text format.
use mathlib.Core.List.{append_assoc}
use loxy_router.Base.{
  ℕ, ◌≡◌, refl, ap, ◌∙◌, true, false, List, [], ◌∷◌, ◌++◌, none, some, Str, ◌==◌, ◌⊎◌, inl, inr,
  Option-cases,
}
use loxy_router.Text.{is_space, is_empty}
use loxy_router.Text.Split.{split_where, fields}
use loxy_router.Text.Split.Pieces.{Free, split_where_cons, fields-last, fields_first}
use loxy_router.Float.{Float64, FloatText}
use loxy_router.Scraper.Prom.{last_part, part_before, strip_labels, parse_parts, parse_prom_line}

-- A word of a line: not empty, and without space.
pub record IsWord (w : Str) : Type 0 where
  pub solid : Free is_space w
  pub filled : is_empty w ≡ false

-- What may stand behind a metric's name: nothing, a block of labels, or space.
abbrev pub Behind : Str → Type 0
Behind [] = Unit {0}
Behind (c ∷ s) = (is_space c ≡ true) ⊎ (c ≡ b'{')

brace_solid : is_space b'{' ≡ false
unfolding is_space
brace_solid = refl

strip_labels_brace : (c : ℕ) (s : Str) → c ≡ b'{' → strip_labels (c ∷ s) ≡ []
unfolding strip_labels
strip_labels_brace c s e = rw e

strip_labels-nil : strip_labels [] ≡ []
unfolding strip_labels
strip_labels-nil = refl

-- The first word behind a name is dropped with its labels.
strip_labels-Behind :
    (s : Str) {w : Str} {ws : List Str}
    → Behind s
    → split_where is_space s ≡ w ∷ ws
    → strip_labels w ≡ []
unfolding split_where
strip_labels-Behind [] b e = ap strip_labels (cc e) ∙ strip_labels-nil
strip_labels-Behind (c ∷ s) (inl k) e =
    let q = rw k at e in ap strip_labels (cc q) ∙ strip_labels-nil
strip_labels-Behind (c ∷ s) (inr k) e =
    let (w', ws', split) = split_where_cons is_space s in
    let solid : is_space c ≡ false = ap is_space k ∙ brace_solid in
    let q = rw (solid, split) at e in ap strip_labels (cc q) ∙ strip_labels_brace c w' k

strip_labels-append :
    (name w : Str)
    → Free (λ c. c == b'{') name
    → strip_labels w ≡ []
    → strip_labels (name ++ w) ≡ name
unfolding strip_labels
strip_labels-append [] w h e = e
strip_labels-append (c ∷ name) w h e = rw (h.0, strip_labels-append name w h.1 e) refl

last_part-append : (p : Str) (ws : List Str) (w : Str) → last_part p (ws ++ w ∷ []) ≡ w
last_part-append p [] w = refl
last_part-append p (q ∷ ws) w = last_part-append q ws w

last_part_two : (p : Str) (ws : List Str) (w z : Str) → last_part p (ws ++ w ∷ z ∷ []) ≡ z
last_part_two p [] w z = refl
last_part_two p (q ∷ ws) w z = last_part_two q ws w z

part_before-append :
    (p q : Str) (ws : List Str) (w z : Str) → part_before p q (ws ++ w ∷ z ∷ []) ≡ w
part_before-append p q [] w z = refl
part_before-append p q (r ∷ ws) w z = part_before-append q r ws w z

module _ {f : Float64} (t : FloatText f) where
  open f use {Carrier}

  parse_parts-last :
      (p w : Str) (ws : List Str) {v : Carrier}
      → t.parse w ≡ some v
      → parse_parts t (p ∷ (ws ++ w ∷ [])) ≡ some (strip_labels p, v)
  unfolding parse_parts
  parse_parts-last p w [] e = rw e
  parse_parts-last p w (q ∷ ws) e = rw (last_part-append q ws w, e) refl

  parse_parts_fallback :
      (p w z : Str) (ws : List Str) {v : Carrier}
      → t.parse w ≡ some v
      → t.parse z ≡ none
      → parse_parts t (p ∷ (ws ++ w ∷ z ∷ [])) ≡ some (strip_labels p, v)
  unfolding parse_parts
  parse_parts_fallback p w z [] e k = rw (k, e)
  parse_parts_fallback p w z (q ∷ []) e k = rw (k, e)
  parse_parts_fallback p w z (q ∷ r ∷ ws) e k =
      rw (last_part_two q (r ∷ ws) w z, k, part_before-append q r ws w z, e) refl

  module _ (name behind : Str) where
    -- The fields of a line: the name with what hangs on to it, and others.
    line_fields :
        IsWord name
        → Free (λ c. c == b'{') name
        → Behind behind
        → (p : Str) × (ws : List Str) × (fields (name ++ behind) ≡ p ∷ ws) × (strip_labels p ≡ name)
    line_fields n free b =
        let (w, ws, vs, first, e) = fields_first name behind n.solid n.filled in
        (name ++ w, ws, e, strip_labels-append name w free (strip_labels-Behind behind b first))

    -- A sample is read whatever its labels are: a name without space and braces, with anything
    -- behind it that begins with a block of labels or with space, and a number as the last word, give
    -- the name and the number.
    pub parse_prom_line-sample :
        (space : ℕ) (word : Str) {v : Carrier}
        → IsWord name
        → Free (λ c. c == b'{') name
        → Behind behind
        → is_space space ≡ true
        → IsWord word
        → t.parse word ≡ some v
        → parse_prom_line t ((name ++ behind) ++ space ∷ word) ≡ some (name, v)
    unfolding parse_prom_line
    parse_prom_line-sample space word {v} n free b k w e =
        let (p, ws, head, cut) = line_fields n free b in
        let all : fields ((name ++ behind) ++ space ∷ word) ≡ p ∷ (ws ++ word ∷ []) =
          fields-last (name ++ behind) word space k w.solid w.filled ∙ ap (◌++ word ∷ []) head in
        ap (parse_parts t) all ∙ parse_parts-last p word ws e ∙ ap (λ z. some (z, v)) cut

    -- A line with two words behind the name and its labels, the first of them a number, as a sample
    -- with a timestamp has them: if the second is a number too, that is the value that is read, and
    -- the first one is lost; only if it is no number, the first one is read.
    pub parse_prom_line-timestamp :
        (space gap : ℕ) (word stamp : Str) {v : Carrier}
        → IsWord name
        → Free (λ c. c == b'{') name
        → Behind behind
        → is_space space ≡ true
        → is_space gap ≡ true
        → IsWord word
        → IsWord stamp
        → t.parse word ≡ some v
        → parse_prom_line t (((name ++ behind) ++ space ∷ word) ++ gap ∷ stamp)
          ≡ some (name, elim (t.parse stamp) [ some τ ↦ τ | none ↦ v ])
    unfolding parse_prom_line
    parse_prom_line-timestamp space gap word stamp {v} n free b k l w z e =
        let (p, ws, head, cut) = line_fields n free b in
        let one : fields ((name ++ behind) ++ space ∷ word) ≡ p ∷ (ws ++ word ∷ []) =
          fields-last (name ++ behind) word space k w.solid w.filled ∙ ap (◌++ word ∷ []) head in
        let two : fields (((name ++ behind) ++ space ∷ word) ++ gap ∷ stamp)
            ≡ p ∷ ((ws ++ word ∷ []) ++ stamp ∷ []) =
          fields-last ((name ++ behind) ++ space ∷ word) stamp gap l z.solid z.filled
          ∙ ap (◌++ stamp ∷ []) one in
        ap (parse_parts t) two ∙ elim (Option-cases (t.parse stamp)) [
          | inl q ↦
              ap (λ z. parse_parts t (p ∷ z)) (append_assoc ws (word ∷ []) (stamp ∷ []))
              ∙ parse_parts_fallback p word stamp ws e q
              ∙ rw (q, cut) refl
          | inr (x, q) ↦ parse_parts-last p stamp (ws ++ word ∷ []) q ∙ rw (q, cut) refl
        ]
