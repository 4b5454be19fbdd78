-- ===== src/RoleBinding/Accounts.antt =====
-- GetServiceAccountsBySelectors of internal/controller/dynamicrolebinding_sync.go, and the subjects of
-- a binding.
pub mod Laws
use kuberbac.Prelude.{
  Bool, true, false, not, ◌&&◌, ◌||◌, Option, none, some, List, [], ◌∷◌, ◌==◌, map, Str, lit,
  if◌then◌else◌, is_empty, contains, Outcome, ok, err, panic, ◌>>=◌, Error, wrapped,
}
use kuberbac.Exec.{wrap_error}
use kuberbac.GoMap.{GoMap}
use kuberbac.Globals.Subset.{is_subset}
use kuberbac.RoleBinding.Types.{
  SourceSubject, NameSelector, MetaSelector, ServiceAccount, Subject, Regexp,
}
use kuberbac.RoleBinding.Selectors.{
  Checked, items_of, is_nil, regex_is_zero, meta_is_zero, name_is_zero, namespace_is_zero,
  check_meta_selector, check_name_selector, regex_selects,
}

-- `matchRegex.MatchString`, on the compiled expression or on the zero `Regexp`.
unfoldable pub matcher : Regexp → Str → Outcome (Str → Outcome Bool)
matcher regexp expression =
    if is_empty expression
    then ok regexp.zero_match
    else (do match_string ← regexp.compile expression; ok (λ name. ok (match_string name)))

-- The last two tests of the loop.
abbrev pub matches_name : (Str → Outcome Bool) → NameSelector → Str → Outcome Bool
matches_name match_string s name =
    if not (is_empty (items_of s.match_list))
    then ok (contains (items_of s.match_list) name)
    else (do matched ← match_string name; ok (regex_selects s.match_regex matched))

-- The tests of labels and annotations, and the rest of the round.
abbrev pub matches_meta : MetaSelector → ServiceAccount → Outcome Bool → Outcome Bool
matches_meta s account rest = elim s.match_labels [
  | some labels ↦ ok (is_subset labels account.labels)
  | none ↦ elim s.match_annotations [
    | some annotations ↦ ok (is_subset annotations account.annotations)
    | none ↦ rest
  ]
]

-- A round of the loop: whether the service account is appended.
unfoldable pub is_selected :
    List Str → SourceSubject → (Str → Outcome Bool) → ServiceAccount → Outcome Bool
is_selected namespaces subject match_string account =
    if not (is_empty namespaces) && not (contains namespaces account.namespace)
    then ok false
    else matches_meta subject.meta_selector account
        (matches_name match_string subject.name_selector account.name)

unfoldable pub select_accounts :
    (ServiceAccount → Outcome Bool) → List ServiceAccount → Outcome (List ServiceAccount)
select_accounts test [] = ok []
select_accounts test (account ∷ items) = do
  selected ← test account
  rest ← select_accounts test items
  ok (if selected then account ∷ rest else rest)

-- A check of a selector that is not empty.
abbrev pub check_unless : Bool → Checked → Checked
check_unless is_zero check = if is_zero then ok tt else check

-- The check that the two selectors are not both filled.
abbrev pub check_apart : SourceSubject → Checked
check_apart subject =
    if not (name_is_zero subject.name_selector) && not (meta_is_zero subject.meta_selector)
    then err (Error.message "nameSelector and labelSelector are mutually exclusive")
    else ok tt

-- The checks of the two selectors, in turn.
unfoldable pub check_selectors : SourceSubject → Checked
check_selectors subject = do
  apart ← check_apart subject
  meta_checked ←
      check_unless (meta_is_zero subject.meta_selector) (check_meta_selector subject.meta_selector)
  check_unless (name_is_zero subject.name_selector) (check_name_selector subject.name_selector)

unfoldable pub get_service_accounts_by_selectors :
    Regexp
    → Outcome (List ServiceAccount)
    → List Str
    → SourceSubject
    → Outcome (List ServiceAccount)
get_service_accounts_by_selectors regexp listed namespaces subject = do
  items ← listed
  checked ← check_selectors subject
  match_string ← matcher regexp subject.name_selector.match_regex.expression
  select_accounts (is_selected namespaces subject match_string) items

abbrev pub group_or_user : List Str
group_or_user = lit "Group" ∷ lit "User" ∷ []

abbrev pub valid_kinds : List Str
valid_kinds = lit "ServiceAccount" ∷ lit "User" ∷ lit "Group" ∷ []

-- The two checks at the start of SyncTarget.
unfoldable pub check_subject : SourceSubject → Checked
check_subject subject =
    if not (contains valid_kinds subject.kind)
    then err (
        Error.message
          "source.subject.kind must be one of the following values: ServiceAccount, User, Group")
    else if contains group_or_user subject.kind
        && (not (namespace_is_zero subject.namespace_selector)
            || not (meta_is_zero subject.meta_selector))
    then err (
        Error.message
          "namespaceSelector and labelSelector are only allowed for ServiceAccount subjects")
    else ok tt

abbrev pub named_subject : SourceSubject → Str → Subject
named_subject subject item = record {
  kind = subject.kind;
  api_group = subject.api_group;
  name = item;
  namespace = [];
}

abbrev pub account_subject : SourceSubject → ServiceAccount → Subject
account_subject subject account = record {
  kind = lit "ServiceAccount";
  api_group = subject.api_group;
  name = account.name;
  namespace = account.namespace;
}

-- The subjects of kind Group and User.
unfoldable pub expand_named : SourceSubject → Outcome (List Subject)
expand_named subject =
    if not (regex_is_zero subject.name_selector.match_regex)
    then err (Error.message "MatchRegex nameSelector is not allowed for subjects: Group, User")
    else elim subject.name_selector.match_list [
      | none ↦ err (Error.message "MatchList nameSelector is required for subjects: Group, User")
      | some items ↦ ok (map (named_subject subject) items)
    ]

-- expandedSubjects, from the service accounts that the API lists and the filtered namespaces.
unfoldable pub expand_subjects :
    Regexp → Outcome (List ServiceAccount) → List Str → SourceSubject → Outcome (List Subject)
expand_subjects regexp listed namespaces subject =
    if contains group_or_user subject.kind
    then expand_named subject
    else if subject.kind == lit "ServiceAccount"
    then (do
      accounts ←
          wrap_error (wrapped "error getting selected ServiceAccounts: %s")
            (get_service_accounts_by_selectors regexp listed namespaces subject)
      ok (map (account_subject subject) accounts))
    else ok []
