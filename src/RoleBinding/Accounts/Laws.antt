-- ===== src/RoleBinding/Accounts/Laws.antt =====
-- Which service accounts GetServiceAccountsBySelectors selects.
use kuberbac.Prelude.{
  ◌≡◌, refl, >>=_cong, Bool, true, false, List, [], ◌∷◌, arith, Str, All, is_empty, contains,
  if◌then◌else◌, Outcome, ok, err, panic, ◌>>=◌, Holds, bind-Holds, Bool-cases, inl, inr,
}
use kuberbac.RoleBinding.Types.{SourceSubject, ServiceAccount, Regexp}
use kuberbac.RoleBinding.Accounts.{
  is_selected, select_accounts, matcher, check_selectors, get_service_accounts_by_selectors,
}

abbrev pub IsIn : List Str → ServiceAccount → Type 0
IsIn namespaces account = contains namespaces account.namespace ≡ true

-- The loop with no namespaces, and with all of them.
select_accounts-nil :
    (namespaces : List Str) (subject : SourceSubject) (match_string : Str → Outcome Bool)
    (items : List ServiceAccount)
    → All (IsIn namespaces) items
    → select_accounts (is_selected [] subject match_string) items
      ≡ select_accounts (is_selected namespaces subject match_string) items
unfolding select_accounts is_selected
select_accounts-nil namespaces subject match_string [] h = refl
select_accounts-nil namespaces subject match_string (account ∷ items) h =
    ground (arith, h.0, select_accounts-nil namespaces subject match_string items h.1)

Holds-const : {A : Type 0} (P : A → Type 0) (r : Outcome A) → ((a : A) → P a) → Holds P r
Holds-const P (ok a) h = h a
Holds-const P (err e) h = tt
Holds-const P panic h = tt

step-IsIn :
    (namespaces : List Str) (account : ServiceAccount) (r : Outcome Bool)
    (rest : Outcome (List ServiceAccount))
    → Holds (λ selected. selected ≡ true → IsIn namespaces account) r
    → Holds (All (IsIn namespaces)) rest
    → Holds
        (All (IsIn namespaces))
        (r >>= λ selected. rest >>= λ items. ok (if selected then account ∷ items else items))
step-IsIn namespaces account (ok true) (ok items) h k = (h refl, k)
step-IsIn namespaces account (ok false) (ok items) h k = k
step-IsIn namespaces account (ok b) (err e) h k = tt
step-IsIn namespaces account (ok b) panic h k = tt
step-IsIn namespaces account (err e) rest h k = tt
step-IsIn namespaces account panic rest h k = tt

is_selected-Holds :
    (namespaces : List Str) (subject : SourceSubject) (match_string : Str → Outcome Bool)
    (account : ServiceAccount)
    → is_empty namespaces ≡ false
    → Holds
        (λ selected. selected ≡ true → IsIn namespaces account)
        (is_selected namespaces subject match_string account)
unfolding is_selected
is_selected-Holds namespaces subject match_string account h =
    elim (Bool-cases (contains namespaces account.namespace)) [
      | inl inside ↦
          Holds-const (λ selected. selected ≡ true → IsIn namespaces account)
            (is_selected namespaces subject match_string account) (λ selected e. inside)
      | inr outside ↦ rw (h, outside, is_selected) (λ e. cc)
    ]

select_accounts-IsIn :
    (namespaces : List Str) (subject : SourceSubject) (match_string : Str → Outcome Bool)
    (items : List ServiceAccount)
    → is_empty namespaces ≡ false
    → Holds
        (All (IsIn namespaces))
        (select_accounts (is_selected namespaces subject match_string) items)
unfolding select_accounts
select_accounts-IsIn namespaces subject match_string [] h = tt
select_accounts-IsIn namespaces subject match_string (account ∷ items) h =
    step-IsIn namespaces account (is_selected namespaces subject match_string account)
      (select_accounts (is_selected namespaces subject match_string) items)
      (is_selected-Holds namespaces subject match_string account h)
      (select_accounts-IsIn namespaces subject match_string items h)

-- What the loop selects, behind the checks.
get-Holds :
    (P : List ServiceAccount → Type 0) (regexp : Regexp) (listed : Outcome (List ServiceAccount))
    (namespaces : List Str) (subject : SourceSubject)
    → ((match_string : Str → Outcome Bool) (items : List ServiceAccount)
        → Holds P (select_accounts (is_selected namespaces subject match_string) items))
    → Holds P (get_service_accounts_by_selectors regexp listed namespaces subject)
unfolding get_service_accounts_by_selectors
get-Holds P regexp listed namespaces subject h =
    bind-Holds P listed
      (λ items. check_selectors subject >>= λ checked.
        matcher regexp subject.name_selector.match_regex.expression >>= λ match_string.
        select_accounts (is_selected namespaces subject match_string) items)
      (λ items.
        bind-Holds P (check_selectors subject)
          (λ checked.
            matcher regexp subject.name_selector.match_regex.expression >>= λ match_string.
            select_accounts (is_selected namespaces subject match_string) items)
          (λ checked.
            bind-Holds P (matcher regexp subject.name_selector.match_regex.expression)
              (λ match_string. select_accounts (is_selected namespaces subject match_string) items)
              (λ match_string. h match_string items)))

-- If the list of namespaces is not empty, every service account that GetServiceAccountsBySelectors
-- returns is in one of them, whatever its selectors are.
pub get_service_accounts_by_selectors-IsIn :
    (regexp : Regexp) (listed : Outcome (List ServiceAccount)) (namespaces : List Str)
    (subject : SourceSubject)
    → is_empty namespaces ≡ false
    → Holds
        (All (IsIn namespaces))
        (get_service_accounts_by_selectors regexp listed namespaces subject)
get_service_accounts_by_selectors-IsIn regexp listed namespaces subject h =
    get-Holds (All (IsIn namespaces)) regexp listed namespaces subject
      (λ match_string items. select_accounts-IsIn namespaces subject match_string items h)

-- An empty list of namespaces, as it comes of a namespaceSelector that no namespace matches, does not
-- exclude any service account: the result is the one for any list that holds the namespaces of all
-- service accounts.
pub get_service_accounts_by_selectors-nil :
    (regexp : Regexp) (items : List ServiceAccount) (namespaces : List Str)
    (subject : SourceSubject)
    → All (IsIn namespaces) items
    → get_service_accounts_by_selectors regexp (ok items) [] subject
      ≡ get_service_accounts_by_selectors regexp (ok items) namespaces subject
unfolding get_service_accounts_by_selectors
get_service_accounts_by_selectors-nil regexp items namespaces subject h =
    >>=_cong (check_selectors subject)
      (λ checked. matcher regexp subject.name_selector.match_regex.expression >>= λ match_string.
        select_accounts (is_selected [] subject match_string) items)
      (λ checked. matcher regexp subject.name_selector.match_regex.expression >>= λ match_string.
        select_accounts (is_selected namespaces subject match_string) items)
      (λ checked.
        >>=_cong (matcher regexp subject.name_selector.match_regex.expression)
          (λ match_string. select_accounts (is_selected [] subject match_string) items)
          (λ match_string. select_accounts (is_selected namespaces subject match_string) items)
          (λ match_string. select_accounts-nil namespaces subject match_string items h))
