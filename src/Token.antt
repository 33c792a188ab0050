-- ===== src/Token.antt =====
-- internal/token/token.go: the kinds of tokens, the keywords, and the tokens.
use lightsql.Common.{ℕ, Bool, true, false, List, [], ◌∷◌, if◌then◌else◌, Bytes, bytes_eq, bytes}

-- `Kind`: a keyword has the prefix `kw`.
pub data Kind : Type 0 where
  invalid eof : Kind
  ident quoted_ident string number param : Kind
  lparen rparen comma semicolon dot colon double_colon : Kind
  plus minus star slash percent caret : Kind
  eq not_eq less less_eq greater greater_eq : Kind
  concat arrow long_arrow contains : Kind
  kw_all kw_and kw_as kw_asc kw_between kw_by : Kind
  kw_case kw_cast kw_check kw_constraint kw_create kw_cross : Kind
  kw_current_date kw_current_time kw_current_timestamp kw_default kw_delete kw_desc : Kind
  kw_distinct kw_drop kw_else kw_end kw_except kw_exists : Kind
  kw_false kw_foreign kw_from kw_full kw_group kw_having : Kind
  kw_if kw_in kw_inner kw_insert kw_intersect kw_into : Kind
  kw_is kw_join kw_key kw_left kw_like kw_limit : Kind
  kw_local_time kw_local_timestamp kw_not kw_null kw_offset kw_on : Kind
  kw_or kw_order kw_outer kw_primary kw_references kw_returning : Kind
  kw_right kw_select kw_set kw_table kw_then kw_true : Kind
  kw_union kw_unique kw_update kw_using kw_values kw_when : Kind
  kw_where : Kind

abbrev pub keywords : List (Bytes × Kind)
keywords =
    (bytes "all", kw_all)
    ∷ (bytes "and", kw_and)
    ∷ (bytes "as", kw_as)
    ∷ (bytes "asc", kw_asc)
    ∷ (bytes "between", kw_between)
    ∷ (bytes "by", kw_by)
    ∷ (bytes "case", kw_case)
    ∷ (bytes "cast", kw_cast)
    ∷ (bytes "check", kw_check)
    ∷ (bytes "constraint", kw_constraint)
    ∷ (bytes "create", kw_create)
    ∷ (bytes "cross", kw_cross)
    ∷ (bytes "current_date", kw_current_date)
    ∷ (bytes "current_time", kw_current_time)
    ∷ (bytes "current_timestamp", kw_current_timestamp)
    ∷ (bytes "default", kw_default)
    ∷ (bytes "delete", kw_delete)
    ∷ (bytes "desc", kw_desc)
    ∷ (bytes "distinct", kw_distinct)
    ∷ (bytes "drop", kw_drop)
    ∷ (bytes "else", kw_else)
    ∷ (bytes "end", kw_end)
    ∷ (bytes "except", kw_except)
    ∷ (bytes "exists", kw_exists)
    ∷ (bytes "false", kw_false)
    ∷ (bytes "foreign", kw_foreign)
    ∷ (bytes "from", kw_from)
    ∷ (bytes "full", kw_full)
    ∷ (bytes "group", kw_group)
    ∷ (bytes "having", kw_having)
    ∷ (bytes "if", kw_if)
    ∷ (bytes "in", kw_in)
    ∷ (bytes "inner", kw_inner)
    ∷ (bytes "insert", kw_insert)
    ∷ (bytes "intersect", kw_intersect)
    ∷ (bytes "into", kw_into)
    ∷ (bytes "is", kw_is)
    ∷ (bytes "join", kw_join)
    ∷ (bytes "key", kw_key)
    ∷ (bytes "left", kw_left)
    ∷ (bytes "like", kw_like)
    ∷ (bytes "limit", kw_limit)
    ∷ (bytes "localtime", kw_local_time)
    ∷ (bytes "localtimestamp", kw_local_timestamp)
    ∷ (bytes "not", kw_not)
    ∷ (bytes "null", kw_null)
    ∷ (bytes "offset", kw_offset)
    ∷ (bytes "on", kw_on)
    ∷ (bytes "or", kw_or)
    ∷ (bytes "order", kw_order)
    ∷ (bytes "outer", kw_outer)
    ∷ (bytes "primary", kw_primary)
    ∷ (bytes "references", kw_references)
    ∷ (bytes "returning", kw_returning)
    ∷ (bytes "right", kw_right)
    ∷ (bytes "select", kw_select)
    ∷ (bytes "set", kw_set)
    ∷ (bytes "table", kw_table)
    ∷ (bytes "then", kw_then)
    ∷ (bytes "true", kw_true)
    ∷ (bytes "union", kw_union)
    ∷ (bytes "unique", kw_unique)
    ∷ (bytes "update", kw_update)
    ∷ (bytes "using", kw_using)
    ∷ (bytes "values", kw_values)
    ∷ (bytes "when", kw_when)
    ∷ (bytes "where", kw_where)
    ∷ []

Kind-discrete : Discrete Kind
Kind-discrete = hlevel

-- `==` of kinds
unfoldable pub is_kind : Kind → Kind → Bool
unfolding Kind-discrete
is_kind k l = elim (Kind-discrete k l) [ yes _ ↦ true | no _ ↦ false ]

-- A lookup in a Go map whose keys are strings.
unfoldable pub lookup_in : List (Bytes × Kind) → Bytes → Kind
lookup_in [] name = ident
lookup_in ((text, kind) ∷ rest) name =
    let other = lookup_in rest name in if bytes_eq text name then kind else other

-- `Lookup`
unfoldable pub lookup : Bytes → Kind
unfolding lookup_in
lookup name = lookup_in keywords name

-- `Token`
pub record Token : Type 0 where
  pub kind : Kind
  pub pos : ℕ
  pub val : Bytes
  pub ord : ℕ
