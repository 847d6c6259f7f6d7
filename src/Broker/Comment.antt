-- ===== src/Broker/Comment.antt =====
-- `authorize_comment`: which comments are commands of the owner.
use desktop_pc24x7_runtime.Prelude.{
  ℕ, ◌+◌, ◌*◌, ◌≤◌, ◌≡◌, ◌↔◌, inl, inr, Bool, not, ◌||◌, Option, none, some, List, [], ◌∷◌, String,
  arith, ◌==◌, eq_iff, ltb, eqb, lookup, if◌then◌else◌,
}
use desktop_pc24x7_runtime.Json.{Json, get, truthy, is_dict, obj, end}
use desktop_pc24x7_runtime.Result.{
  Result, ok, raise, broker_error, value_error, other_error, Result-cases, ◌>>=◌,
}
use desktop_pc24x7_runtime.Text.{Python, Stamp, second, replace_z, str_or_empty}

abbrev pub expected_actor : String
expected_actor = "ericson-j-santos"

abbrev pub expected_association : String
expected_association = "OWNER"

abbrev pub max_comment_age_seconds : ℕ
max_comment_age_seconds = 1800

abbrev pub allowed_commands : List (String × String)
allowed_commands =
    ("/desktop-runtime admin status", "status")
    ∷ ("/desktop-runtime admin recover-rdc", "recover-rdc")
    ∷ ("/desktop-runtime admin recover-runner", "recover-runner")
    ∷ ("/desktop-runtime admin recover-control-plane", "recover-control-plane")
    ∷ ("/desktop-runtime admin activate-watchdog", "activate-watchdog")
    ∷ ("/desktop-runtime admin refresh-self", "refresh-self")
    ∷ ("/desktop-runtime admin windows-component-health", "windows-component-health")
    ∷ ("/desktop-runtime admin qualify-orchestrator-runner-acl", "qualify-orchestrator-runner-acl")
    ∷ []

-- value.get(key) of a value that may be no dict.
unfoldable pub get_or_raise : String → Json → Result Json
get_or_raise key value =
    if is_dict value then ok (get key value) else raise (other_error "AttributeError") key

-- value or {}
abbrev pub or_empty_dict : Json → Json
or_empty_dict value = if truthy value then value else obj end

abbrev aware_instant : Option Stamp → Result ℕ
aware_instant none = raise value_error "Invalid isoformat string"
aware_instant (some stamp) =
    if stamp.aware then ok stamp.instant else raise broker_error "timestamp GitHub sem timezone"

module _ (python : Python) where
  unfoldable pub parse_github_time : String → Result ℕ
  parse_github_time value = aware_instant (python.fromisoformat (replace_z value))

  -- The instants are in microseconds; an age below -60 seconds is a comment from the future.
  abbrev outside_window : ℕ → ℕ → ℕ → Bool
  outside_window not_before reference created =
      ltb created not_before
      || (ltb (reference + 60 * second) created
          || ltb (created + max_comment_age_seconds * second) reference)

  unfoldable pub authorize_comment : Json → ℕ → ℕ → Result (Option String)
  authorize_comment comment not_before reference = do
    login ← get_or_raise "login" (or_empty_dict (get "user" comment))
    if not (python.casefold (str_or_empty python login) == python.casefold expected_actor)
        then ok none
        else if not (
            python.upper (str_or_empty python (get "author_association" comment))
            == expected_association)
        then ok none
        else elim (lookup (python.strip (str_or_empty python (get "body" comment)))
            allowed_commands) [
              | none ↦ ok none
              | some action ↦ do
                created ← parse_github_time (str_or_empty python (get "created_at" comment))
                updated ← parse_github_time (str_or_empty python (get "updated_at" comment))
                ok (
                    if not (eqb updated created) || outside_window not_before reference created
                    then none
                    else some action)
            ]

  -- What a comment is that the broker obeys, with the instant at which it was written.
  pub record IsCommand (comment : Json) (not_before reference : ℕ) (action : String) (created : ℕ)
      : Type 0 where
    pub by_owner :
        (login : Json) × (get_or_raise "login" (or_empty_dict (get "user" comment)) ≡ ok login)
        × (python.casefold (str_or_empty python login) ≡ python.casefold expected_actor)
    pub as_owner :
        python.upper (str_or_empty python (get "author_association" comment)) ≡ expected_association
    pub allowed :
        lookup (python.strip (str_or_empty python (get "body" comment))) allowed_commands
        ≡ some action
    pub written : parse_github_time (str_or_empty python (get "created_at" comment)) ≡ ok created
    pub unedited : parse_github_time (str_or_empty python (get "updated_at" comment)) ≡ ok created
    pub after_install : not_before ≤ created
    pub not_future : created ≤ reference + 60 * second
    pub recent : reference ≤ created + max_comment_age_seconds * second

  authorize_comment-IsCommand :
      (comment : Json) (not_before reference : ℕ) (action : String) (login : Json)
      (created updated : ℕ)
      → get_or_raise "login" (or_empty_dict (get "user" comment)) ≡ ok login
      → parse_github_time (str_or_empty python (get "created_at" comment)) ≡ ok created
      → parse_github_time (str_or_empty python (get "updated_at" comment)) ≡ ok updated
      → authorize_comment comment not_before reference ≡ ok (some action)
      → IsCommand comment not_before reference action created
  unfolding authorize_comment
  authorize_comment-IsCommand comment not_before reference action login created updated l c u h =
      ground (
        arith,
        eq_iff (python.casefold (str_or_empty python login)) (python.casefold expected_actor),
        eq_iff (python.upper (str_or_empty python (get "author_association" comment)))
            expected_association,
      )

  -- The broker takes a comment for the command `action` exactly if the owner wrote it, as the owner,
  -- its text is the one of that action, it was never edited, it is not older than the installation,
  -- at most 60 seconds in the future and at most 1800 seconds old.
  pub authorize_comment_iff :
      (comment : Json) (not_before reference : ℕ) (action : String)
      → (authorize_comment comment not_before reference ≡ ok (some action))
        ↔ ((created : ℕ) × IsCommand comment not_before reference action created)
  unfolding authorize_comment
  authorize_comment_iff comment not_before reference action = (
    λ h. elim (Result-cases (get_or_raise "login" (or_empty_dict (get "user" comment)))) [
      | inr (e, p) ↦ ground arith
      | inl (login, l) ↦
          elim (Result-cases (parse_github_time (str_or_empty python (get "created_at" comment)))) [
            | inr (e, p) ↦ ground arith
            | inl (created, c) ↦
                elim (Result-cases
                  (parse_github_time (str_or_empty python (get "updated_at" comment)))) [
                    | inr (e, p) ↦ ground arith
                    | inl (updated, u) ↦ (
                      created,
                      authorize_comment-IsCommand comment not_before reference action login created
                          updated l c u h,
                    )
                  ]
          ]
    ],
    λ (created, command).
        let (login, l, same) = command.by_owner in
        ground (
          arith,
          command,
          eq_iff (python.casefold (str_or_empty python login)) (python.casefold expected_actor),
          eq_iff (python.upper (str_or_empty python (get "author_association" comment)))
              expected_association,
        ),
  )
