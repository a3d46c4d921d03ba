-- ===== src/Dispatcher/Configured.antt =====
-- The names that the configuration gives a dispatcher.
use newtbig.Prelude.{
  ◌≡◌, refl, sym, subst, List, [], ◌∷◌, Option, none, some, arith, ◌==◌, bytes_eq, bytes_beq_iff,
  Bytes, Assoc, lookup, insert, lookup-insert, Bool-cases, inl, inr,
}
use newtbig.Common.{RouteType, hash_route}
use newtbig.Strings.Decimal.{Signed, atoi, to_int8}
use newtbig.Strings.Split.{Without, split_on, trim_space}
use newtbig.Strings.FilePath.{slash, path2}
use newtbig.Dispatcher.{name_from, add_name, add_names}

path2_slashed : (a b : Bytes) → ¬ Without slash (path2 a b)
path2_slashed [] b h = h.0 refl
path2_slashed (c ∷ a) b h = path2_slashed a b h.1

-- Every configured name has a slash.
abbrev pub IsConfigured : Assoc Bytes RouteType → Type 0
IsConfigured names =
    (name : Bytes) (t : RouteType) → lookup name names ≡ some t → ¬ Without slash name

insert-IsConfigured :
    (a b : Bytes) (t : RouteType) (names : Assoc Bytes RouteType)
    → IsConfigured names
    → IsConfigured (insert (path2 a b) t names)
insert-IsConfigured a b t names c name t' h w = elim (Bool-cases (path2 a b == name)) [
  | inl e ↦ path2_slashed a b (subst (Without slash) (sym ((bytes_beq_iff (path2 a b) name).0 e)) w)
  | inr e ↦ c name t' (ground (arith, lookup-insert (path2 a b) name t names)) w
]

parsed_name-IsConfigured :
    (root v kind : Bytes) (name : Bytes) (n : Option Signed) (names : Assoc Bytes RouteType)
    → IsConfigured names
    → IsConfigured (elim n [ none ↦ names | some n ↦ insert (path2 root name) (to_int8 n) names ])
parsed_name-IsConfigured root v kind name none names c = c
parsed_name-IsConfigured root v kind name (some n) names c =
    insert-IsConfigured root name (to_int8 n) names c

add_name-IsConfigured :
    (root v : Bytes) (names : Assoc Bytes RouteType)
    → IsConfigured names
    → IsConfigured (add_name root v names)
unfolding add_name
add_name-IsConfigured root v names c = go (split_on b'|' (trim_space v))
  where
    whole : IsConfigured (insert (path2 root (trim_space v)) hash_route names)
    whole = insert-IsConfigured root (trim_space v) hash_route names c

    go : (parts : List Bytes) → IsConfigured (name_from root v parts names)
    go [] = whole
    go (a ∷ []) = whole
    go (a ∷ b ∷ []) = parsed_name-IsConfigured root v b a (atoi b) names c
    go (a ∷ b ∷ d ∷ parts) = whole

pub add_names-IsConfigured :
    (root : Bytes) (vs : List Bytes) (names : Assoc Bytes RouteType)
    → IsConfigured names
    → IsConfigured (add_names root vs names)
unfolding add_names
add_names-IsConfigured root [] names c = c
add_names-IsConfigured root (v ∷ vs) names c =
    add_names-IsConfigured root vs (add_name root v names) (add_name-IsConfigured root v names c)
