-- ===== src/Pool/Names.antt =====
-- Pools in which no two backends share a name, which the configuration does not rule out.
use loxy_router.Base.{◌≡◌, false, List, [], ◌∷◌, Str, All, str_eq}
use loxy_router.Backend.{Backend}

-- No backend of the list has the name.
abbrev pub Absent : Str → List Backend → Type 0
Absent name = All (λ b. str_eq b.name name ≡ false)

abbrev pub NamesDistinct : List Backend → Type 0
NamesDistinct [] = Unit {0}
NamesDistinct (b ∷ bs) = Absent b.name bs × NamesDistinct bs
