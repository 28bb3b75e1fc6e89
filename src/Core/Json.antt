-- ===== src/Core/Json.antt =====
-- Python values that are stored as JSON: `None`, booleans, integers, texts, lists, and dicts with
-- text keys in the order of insertion.
use aiops_x_enterprise_new.Prelude.{
  ℕ, String, Bool, Option, none, some, List, [], ◌∷◌, if◌then◌else◌, str_eq, eq_iff, Bool-cases,
  inl, inr, false≢true, ◌∙◌, sym,
}

mutual
  pub data Json : Type 0 where
    null : Json
    boolean : Bool → Json
    number : ℕ → Json
    text : String → Json
    array : Items → Json
    object : Fields → Json

  pub data Items : Type 0 where
    nil : Items
    item : Json → Items → Items

  pub data Fields : Type 0 where
    end : Fields
    field : String → Json → Fields → Fields

pub String-discrete : Discrete String
String-discrete s t = elim (Bool-cases (str_eq s t)) [
  | inl e ↦ yes ((eq_iff s t).0 e)
  | inr e ↦ no (λ p. false≢true (sym e ∙ (eq_iff s t).1 p))
]

-- `None`, or a text.
abbrev pub text_or_null : Option String → Json
text_or_null none = null
text_or_null (some s) = text s

-- `d[key] = value`.
unfoldable pub set_field : String → Json → Fields → Fields
set_field k v end = field k v end
set_field k v (field j w r) = if str_eq j k then field j v r else field j w (set_field k v r)

-- `{**a, **b}`.
unfoldable pub merge : Fields → Fields → Fields
unfolding set_field
merge a end = a
merge a (field k v r) = merge (set_field k v a) r

-- A list of texts.
abbrev pub texts : List String → Items
texts [] = nil
texts (s ∷ r) = item (text s) (texts r)
