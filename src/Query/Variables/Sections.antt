-- ===== src/Query/Variables/Sections.antt =====
-- A query relative to a section, and back to absolute names.
use Prim.Native.String.{len, slice, ◌++◌ as str_append}
use text.Mathlib.Text.{starts_with}
use text.Mathlib.TextEquality.{starts_with_iff}
use text.Mathlib.TextPositions.{slice-append_right, len-append, starts_with-append}
use text.Mathlib.TextLemmas as Texts
use cloudkeeper.Base.{String, ◌≡◌, sym, ap, ◌∙◌, true, false, some, inl, inr, Bool-cases, str_eq}
use cloudkeeper.Query.Names.{
  variable_to_absolute, variable_to_relative, path_root, without_prefix, section_name,
}
use cloudkeeper.Query.Data.{Query}
use cloudkeeper.Query.Variables.{change_variable, relative_to_section}
use cloudkeeper.Query.Variables.Laws.{QueryNamed, query_same}
use cloudkeeper.Query.Variables.Twice.{query_twice}

-- The section has a name that is not the root's.
pub record IsSection (s : String) : Type 0 where
  pub named : str_eq s "" ≡ false
  pub inner : str_eq s path_root ≡ false

-- An absolute name does not start with a slash, nor does what it has behind the section and a dot.
pub record IsAbsolute (s name : String) : Type 0 where
  pub no_slash : starts_with name path_root ≡ false
  pub no_inner_slash : starts_with (without_prefix (str_append s ".") name) path_root ≡ false

without_prefix-append : (p r : String) → without_prefix p (str_append p r) ≡ r
without_prefix-append p r =
    ap (slice (str_append p r) (len p)) (len-append p r) ∙ slice-append_right p r

relative_inside :
    (s name : String)
    → starts_with name path_root ≡ false
    → starts_with name (str_append s ".") ≡ true
    → variable_to_relative s name ≡ without_prefix (str_append s ".") name
unfolding variable_to_relative
relative_inside s name a b = rw (a, b)

relative_outside :
    (s name : String)
    → starts_with name path_root ≡ false
    → starts_with name (str_append s ".") ≡ false
    → variable_to_relative s name ≡ str_append path_root name
unfolding variable_to_relative
relative_outside s name a b = rw (a, b)

absolute_inside :
    (s name : String)
    → IsSection s
    → starts_with name path_root ≡ false
    → variable_to_absolute (some s) name ≡ str_append s (str_append "." name)
unfolding variable_to_absolute section_name
absolute_inside s name h a = rw (a, h.named, h.inner)

absolute_rooted :
    (s name : String) → variable_to_absolute (some s) (str_append path_root name) ≡ name
unfolding variable_to_absolute
absolute_rooted s name =
    rw (starts_with-append path_root name) (without_prefix-append path_root name)

absolute-relative :
    (s name : String)
    → IsSection s
    → IsAbsolute s name
    → variable_to_absolute (some s) (variable_to_relative s name) ≡ name
absolute-relative s name h k = elim (Bool-cases (starts_with name (str_append s "."))) [
  | inr e ↦
      ap (variable_to_absolute (some s)) (relative_outside s name k.no_slash e)
      ∙ absolute_rooted s name
  | inl e ↦
      let (u, p) = (starts_with_iff name (str_append s ".")).0 e in
      ap (variable_to_absolute (some s)) (relative_inside s name k.no_slash e)
      ∙ absolute_inside s (without_prefix (str_append s ".") name) h k.no_inner_slash
      ∙ ap (λ n. str_append s (str_append "." (without_prefix (str_append s ".") n))) (sym p)
      ∙ ap (λ n. str_append s (str_append "." n)) (without_prefix-append (str_append s ".") u)
      ∙ sym (Texts.append_assoc s "." u)
      ∙ p
]

-- A query whose property names are absolute, and have no slash in front or behind the section, is made
-- relative to a section that is neither empty nor the root, and then absolute again with this section:
-- then it is the query that it was.
pub relative_to_section-absolute :
    (s : String) (q : Query)
    → IsSection s
    → QueryNamed (IsAbsolute s) q
    → change_variable (variable_to_absolute (some s)) (relative_to_section s q) ≡ q
unfolding relative_to_section
relative_to_section-absolute s q h k = rw h.inner (
    query_twice (variable_to_absolute (some s)) (variable_to_relative s) q
    ∙ query_same (λ n. variable_to_absolute (some s) (variable_to_relative s n)) (IsAbsolute s)
        (λ n. absolute-relative s n h) q k)
